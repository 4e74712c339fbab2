-- ===== src/Proc/Schedule/Semaphores.antt =====
-- The wait and signal operations of the semaphore call.
use sysu_ysosv.Prelude.{
  ℕ, ◌+◌, ◌≡◌, ◌≢◌, refl, sym, subst, ◌∙◌, Bool, true, false, some, List, [], ◌∷◌, ◌++◌, arith,
  count, count-append, ◌==◌, is_some, returns,
}
use sysu_ysosv.Prelude.Map.{Map, lookup, insert, lookup-insert_self}
use sysu_ysosv.Prelude.Map.Totals.{total-insert, insert-Ascends}
use sysu_ysosv.Sync.{Sems, Semaphore, block, wake_up, wait_sem, signal_sem}
use sysu_ysosv.Proc.Context.{Context}
use sysu_ysosv.Proc.State.{
  Process, ProcessData, Kernel, Family, ProgramStatus, running, ready, save, tick, pause,
}
use sysu_ysosv.Proc.State
use sysu_ysosv.Proc.Manager.{switch_next, current_proc, update_proc, push_ready}
use sysu_ysosv.Proc.Manager
use sysu_ysosv.Proc.Calls.{current_family, on_sems, sem_wait, sem_wait_as, sem_signal}
use sysu_ysosv.Proc.Schedule.{IsKept, IsScheduled, status_at, has_vm, bit}
use sysu_ysosv.Proc.Schedule.Changes.{block-IsKept, wake-IsKept}
use sysu_ysosv.Proc.Schedule.Parking.{family-IsKept}
use sysu_ysosv.Proc.Schedule.Switching.{switch_next-Resumes}
use sysu_ysosv.Proc.Schedule.RoundRobin.{
  current_there, get_pid-eq, current_proc-eq, save_current-eq,
}
use sysu_ysosv.Proc.Schedule.Waiting.{Waits, blocked-Waits, stopped, block_proc-eq}
use sysu_ysosv.Proc.Schedule.Waking.{blocked_there}

-- The semaphore with a process more, or with its first process less.
abbrev pub queued : ℕ → Semaphore → Semaphore
queued pid s = record s { wait_queue = s.wait_queue ++ pid ∷ [] }

abbrev pub dequeued : List ℕ → Semaphore → Semaphore
dequeued pids s = record s { wait_queue = pids }

pub wait_sem-eq :
    (key pid : ℕ) (s : Semaphore) (sems : Sems)
    → lookup key sems ≡ some s
    → s.count ≡ 0
    → wait_sem key pid sems ≡ (block pid, insert key (queued pid s) sems)
unfolding wait_sem
wait_sem-eq key pid s sems there e = ground (arith, there, e)

pub signal_sem-eq :
    (key pid : ℕ) (pids : List ℕ) (s : Semaphore) (sems : Sems)
    → lookup key sems ≡ some s
    → s.wait_queue ≡ pid ∷ pids
    → signal_sem key sems ≡ (wake_up pid, insert key (dequeued pids s) sems)
unfolding signal_sem
signal_sem-eq key pid pids s sems there e = ground (arith, there, e)

-- The family `id` gets another semaphore at a key.
abbrev pub with_sem : {F : Type 0} → ℕ → Family F → ℕ → Semaphore → Map (Family F) → Map (Family F)
with_sem id f key s families =
    insert id (record f { semaphores = insert key s f.semaphores }) families

-- A semaphore of a family changes, with the held processes.
pub sem-IsKept :
    {F : Type 0} (runs : ℕ → Bool) (held held' : ℕ → ℕ) (processes : Map Process) (queue : List ℕ)
    (waiting : Map (List ℕ)) (families : Map (Family F)) (id key : ℕ) (f : Family F)
    (s s' : Semaphore)
    → IsKept runs held processes queue waiting families
    → lookup id families ≡ some f
    → lookup key f.semaphores ≡ some s
    → ((j : ℕ) → count j s'.wait_queue + held' j ≡ count j s.wait_queue + held j)
    → IsKept runs held' processes queue waiting (with_sem id f key s' families)
sem-IsKept runs held held' processes queue waiting families id key f s s' kept fam sem moved =
    let asc = kept.sems_Ascends id f fam in
    family-IsKept runs held processes queue waiting families held' id f
      (record f { semaphores = insert key s' f.semaphores }) kept fam
      (insert-Ascends 0 key s' f.semaphores asc (omega arith))
      (λ j. ground (
        arith,
        moved j,
        sem,
        total-insert (λ (t : Semaphore). count j t.wait_queue) 0 key s' f.semaphores asc,
      ))

module _ {T F K : Type 0} where
  on_sems-eq :
      {A : Type 0} (op : Sems → A × Sems) (a : A) (sems : Sems) (k : Kernel T F K) (p : Process)
      (d : ProcessData) (f : Family F)
      → (k.current == 0) ≡ false
      → lookup k.current k.processes ≡ some p
      → p.proc_data ≡ some d
      → lookup d.family k.families ≡ some f
      → op f.semaphores ≡ (a, sems)
      → on_sems op k
        ≡ returns
            (a, record k { families = insert d.family (record f { semaphores = sems }) k.families })
  unfolding on_sems current_family
  on_sems-eq op a sems k p d f pos there has fam e =
      rw (current_proc-eq k p pos there, has, fam, e) refl

  running_there :
      (k : Kernel T F K) (p : Process)
      → IsScheduled k
      → lookup k.current k.processes ≡ some p
      → p.status ≡ running
  unfolding status_at
  running_there k p kept there = ground (arith, kept.active k.current, there)

  backed_there :
      (c : Context) (k : Kernel T F K) (p : Process)
      → IsScheduled k
      → lookup k.current k.processes ≡ some p
      → p.status ≡ running
      → is_some (save c (tick p)).proc_vm ≡ true
  unfolding has_vm
  backed_there c k p kept there runs = ground (arith, kept.backed k.current, there, runs)

  pub sem_wait-eq-as :
      (key : ℕ) (c : Context) (k : Kernel T F K)
      → (k.current == 0) ≡ false
      → sem_wait key c k ≡ sem_wait_as k.current key c k
  unfolding sem_wait
  sem_wait-eq-as key c k pos = rw (get_pid-eq k pos) refl

  pub sem_wait-eq :
      (key : ℕ) (c : Context) (k : Kernel T F K) (p : Process) (families : Map (Family F))
      → (k.current == 0) ≡ false
      → lookup k.current k.processes ≡ some p
      → on_sems (wait_sem key k.current) k
        ≡ returns (block k.current, record k { families = families })
      → sem_wait key c k ≡ switch_next (stopped c p (record k { families = families }))
  unfolding sem_wait_as switch_next
  sem_wait-eq key c k p families pos there e =
      let k1 = record k { families = families } in
      sem_wait-eq-as key c k pos
      ∙ rw (sem_wait_as, e) (rw (save_current-eq c k1 p pos there, block_proc-eq c p k1) refl)

  pub sem_signal-eq :
      (key pid : ℕ) (c : Context) (k : Kernel T F K) (q : Process) (families : Map (Family F))
      → lookup pid k.processes ≡ some q
      → on_sems (signal_sem key) k ≡ returns (wake_up pid, record k { families = families })
      → sem_signal key c k
        ≡ returns (
          c,
          record k {
            processes = insert pid (pause q) k.processes;
            ready_queue = k.ready_queue ++ pid ∷ [];
            families = families;
          },
        )
  unfolding sem_signal Manager.wake_up update_proc push_ready
  sem_signal-eq key pid c k q families there e = rw (sem_signal, e) (rw there refl)

  -- Suppose that the queues agree with the processes and the ready queue is not empty. If the process
  -- that runs waits for a semaphore of its family with count 0, it is blocked and is the last in
  -- the queue of the semaphore; the first of the ready queue runs, and the queues agree with
  -- the processes again.
  pub sem_wait-Waits :
      (key : ℕ) (c : Context) (next : ℕ) (rest : List ℕ) (k : Kernel T F K) (p : Process)
      (d : ProcessData) (f : Family F) (s : Semaphore)
      → IsScheduled k
      → lookup k.current k.processes ≡ some p
      → p.proc_data ≡ some d
      → lookup d.family k.families ≡ some f
      → lookup key f.semaphores ≡ some s
      → s.count ≡ 0
      → k.ready_queue ≡ next ∷ rest
      → Waits c next rest k.waiting
          (with_sem d.family f key (queued k.current s) k.families)
          k
          (sem_wait key c k)
  sem_wait-Waits key c next rest k p d f s kept there has fam sem none_left e =
      let (_, _, _, _, _, pos) = current_there k kept in
      let runs = running_there k p kept there in
      let s' = queued k.current s in
      let families = with_sem d.family f key s' k.families in
      let k1 = stopped c p (record k { families = families }) in
      let on =
        on_sems-eq (wait_sem key k.current) (block k.current) (insert key s' f.semaphores) k p d f
          pos there has fam (wait_sem-eq key k.current s f.semaphores sem none_left) in
      let other : next ≢ k.current = ground (arith, kept.queued next, kept.active next, e) in
      let idle =
        sem-IsKept (λ j. false) (λ j. 0 + bit (k.current == j)) (λ j. 0) k1.processes k.ready_queue
          k.waiting k.families d.family key f s s'
          (block-IsKept (λ j. 0) k.processes k.ready_queue k.waiting k.families k.current
            (State.block (save c (tick p))) kept refl (backed_there c k p kept there runs))
          fam sem (λ j. ground (arith, count-append j s.wait_queue (k.current ∷ []))) in
      subst (Waits c next rest k.waiting families k)
        (sym (sem_wait-eq key c k p families pos there on))
        (blocked-Waits c next rest p k k1 (switch_next k1) runs other refl
          (switch_next-Resumes next rest k1 idle e))

  -- Suppose that the queues agree with the processes, and that the process that runs signals a
  -- semaphore of its family that others wait for. The one that waited for longest is made ready
  -- and is the last of the ready queue, and the queues agree with the processes again. The
  -- context of the process that runs stays as it was, so rax still holds the number of the call.
  pub sem_signal-Wakes :
      (key : ℕ) (c : Context) (pid : ℕ) (pids : List ℕ) (k : Kernel T F K) (p : Process)
      (d : ProcessData) (f : Family F) (s : Semaphore)
      → IsScheduled k
      → lookup k.current k.processes ≡ some p
      → p.proc_data ≡ some d
      → lookup d.family k.families ≡ some f
      → lookup key f.semaphores ≡ some s
      → s.wait_queue ≡ pid ∷ pids
      → (k' : Kernel T F K) × (sem_signal key c k ≡ returns (c, k'))
        × IsScheduled k'
        × (k'.ready_queue ≡ k.ready_queue ++ pid ∷ [])
        × (status_at pid k'.processes ≡ ready)
        × (k'.families ≡ with_sem d.family f key (dequeued pids s) k.families)
  unfolding status_at
  sem_signal-Wakes key c pid pids k p d f s kept there has fam sem e =
      let (_, _, _, _, _, pos) = current_there k kept in
      let s' = dequeued pids s in
      let families = with_sem d.family f key s' k.families in
      let on =
        on_sems-eq (signal_sem key) (wake_up pid) (insert key s' f.semaphores) k p d f pos there has
          fam (signal_sem-eq key pid pids s f.semaphores sem e) in
      let taken =
        sem-IsKept (λ j. j == k.current) (λ j. 0) (λ j. 0 + bit (pid == j)) k.processes
          k.ready_queue k.waiting k.families d.family key f s s' kept fam sem
          (λ j. ground (arith, e)) in
      let (q, there_q, is, vm) =
        blocked_there (λ j. j == k.current) (λ j. 0) pid (record k { families = families }) taken in
      (
        record k {
          processes = insert pid (pause q) k.processes;
          ready_queue = k.ready_queue ++ pid ∷ [];
          families = families;
        },
        sem_signal-eq key pid c k q families there_q on,
        wake-IsKept (λ j. 0) k.processes k.ready_queue k.waiting families pid (pause q)
            (λ j. j == k.current) taken refl vm,
        refl,
        ground (arith, lookup-insert_self pid (pause q) k.processes),
        refl,
      )
