-- ===== src/Proc/Schedule/Exiting.antt =====
-- The exit call.
use sysu_ysosv.Prelude.{
  ℕ, ◌≡◌, ◌≢◌, refl, sym, ap, subst, ◌∙◌, false, Option, none, some, List, ◌∷◌, ◌++◌, append-nil,
  arith, count, ◌==◌, if◌then◌else◌, Option-cases, inl, inr, Outcome, returns, panics,
}
use sysu_ysosv.Prelude.Map.{Map, lookup, insert, remove, lookup-insert}
use sysu_ysosv.Memory.X86.{X86, Laws}
use sysu_ysosv.Proc.Context.{Context}
use sysu_ysosv.Proc.AddressSpace.{ProcessVm, Spaces, Space, drop_vm}
use sysu_ysosv.Proc.State.{Process, Kernel, running, dead}
use sysu_ysosv.Proc.Manager.{wake_waiting, wake_each, kill, kill_proc, kill_self, switch_next}
use sysu_ysosv.Proc.Calls.{exit}
use sysu_ysosv.Proc.Schedule.{IsKept, IsScheduled, status_at}
use sysu_ysosv.Proc.Schedule.Dropping.{IsInUserSpace, drop_vm-Returns}
use sysu_ysosv.Proc.Schedule.Changes.{die-IsKept}
use sysu_ysosv.Proc.Schedule.Parking.{set_at, count-set_at, take-IsKept}
use sysu_ysosv.Proc.Schedule.Switching.{context_at, Resumes, switch_next-Resumes}
use sysu_ysosv.Proc.Schedule.RoundRobin.{current_there, get_pid-eq}
use sysu_ysosv.Proc.Schedule.Waking.{answered, IsWoken, wake_each-IsWoken}

-- The exit code of a process.
unfoldable pub exit_code_at : ℕ → Map Process → Option ℕ
exit_code_at pid ps = elim (lookup pid ps) [ none ↦ none | some p ↦ p.exit_code ]

-- A process that was killed.
abbrev pub killed : ℕ → Process → Process
killed ret p = record p { exit_code = some ret; status = dead; proc_vm = none; proc_data = none }

module _ {T F K : Type 0} where
  -- The processes that wait for the end of the one that runs.
  abbrev pub waiters : Kernel T F K → List ℕ
  waiters k = set_at (lookup k.current k.waiting)

  wake_waiting-eq :
      (ret : ℕ) (k : Kernel T F K)
      → (k.current == 0) ≡ false
      → wake_waiting ret k ≡ elim (lookup k.current k.waiting) [
        | none ↦ returns k
        | some set ↦ wake_each ret set (record k { waiting = remove k.current k.waiting })
      ]
  unfolding wake_waiting
  wake_waiting-eq ret k pos = rw (get_pid-eq k pos) refl

  pub wake_waiting-IsWoken :
      (ret : ℕ) (k : Kernel T F K)
      → IsScheduled k
      → (k.current == 0) ≡ false
      → (k' : Kernel T F K) × (wake_waiting ret k ≡ returns k')
        × IsWoken ret (waiters k) (λ j. j == k.current) (λ j. 0) k k'
  wake_waiting-IsWoken ret k kept pos = elim (Option-cases (lookup k.current k.waiting)) [
    | inl gone ↦ (
      k,
      wake_waiting-eq ret k pos ∙ rw gone refl,
      rw gone (record {
        kept = kept;
        current = refl;
        vm = refl;
        queue = sym (append-nil k.ready_queue);
        contexts = λ j. refl;
        others = λ j z. refl;
      }),
    )
    | inr (set, there) ↦
        let k1 = record k { waiting = remove k.current k.waiting } in
        let (k', e, w) =
          wake_each-IsWoken ret set (λ j. j == k.current) (λ j. 0) k1
            (take-IsKept (λ j. j == k.current) (λ j. 0) k.processes k.ready_queue k.waiting
              k.families k.current set kept there) in
        (
          k',
          wake_waiting-eq ret k pos ∙ rw there e,
          rw there (record {
            kept = w.kept;
            current = w.current;
            vm = w.vm;
            queue = w.queue;
            contexts = w.contexts;
            others = w.others;
          }),
        )
  ]

  -- The process that ran is dead, with the code as its exit code; all that waited for it have got the
  -- code as the answer of their call, and are in the queue after those that were there; the first runs.
  abbrev pub Exits : ℕ → ℕ → List ℕ → Kernel T F K → Outcome (Context × Kernel T F K) → Type 0
  Exits ret next rest k panics = ⊥
  Exits ret next rest k (returns (c', k')) =
      IsScheduled k'
      × (k'.current ≡ next)
      × (k'.ready_queue ≡ rest)
      × (context_at next k'.processes ≡ some c')
      × (status_at k.current k'.processes ≡ dead)
      × (exit_code_at k.current k'.processes ≡ some ret)
      × ((j : ℕ)
          → context_at j k'.processes ≡ (
              if count j (waiters k) == 0
              then context_at j k.processes
              else answered ret (context_at j k.processes)))

module _ (x : X86) {F K : Type 0} where
  pub kill_self-eq :
      (ret : ℕ) (p : Process) (vm : ProcessVm) (s : Spaces x.Table) (k : Kernel x.Table F K)
      → (k.current == 0) ≡ false
      → lookup k.current k.processes ≡ some p
      → p.status ≡ running
      → p.proc_vm ≡ some vm
      → drop_vm x vm k.vm ≡ returns s
      → kill_self x ret k
        ≡ returns (record k { processes = insert k.current (killed ret p) k.processes; vm = s })
  unfolding kill_self kill kill_proc
  kill_self-eq ret p vm s k pos there runs has d =
      rw (get_pid-eq k pos) (rw (kill, there, runs) (rw (kill_proc, has, d) refl))

  resumed-Exits :
      (ret next : ℕ) (rest : List ℕ) (p : Process) (k k1 k2 : Kernel x.Table F K)
      (r : Outcome (Context × Kernel x.Table F K))
      → IsWoken ret (waiters k) (λ j. j == k.current) (λ j. 0) k k1
      → k2.processes ≡ insert k.current (killed ret p) k1.processes
      → lookup k.current k1.processes ≡ some p
      → next ≢ k.current
      → Resumes next rest k2 r
      → Exits ret next rest k r
  unfolding context_at status_at exit_code_at
  resumed-Exits ret next rest p k k1 k2 panics w e there other h = absurd h
  resumed-Exits ret next rest p k k1 k2 (returns (c', k')) w e there other h =
      let q = killed ret p in
      let gone =
        h.others k.current other
        ∙ ap (lookup k.current) e
        ∙ lookup-insert k.current k.current q k1.processes in
      (
        h.scheduled,
        h.current,
        h.queue,
        h.contexts next ∙ h.restored,
        ground (arith, gone),
        ground (arith, gone),
        λ j.
            ground (
              arith,
              h.contexts j,
              e,
              lookup-insert j k.current q k1.processes,
              there,
              w.contexts j,
            ),
      )

  pub status_of :
      (k : Kernel x.Table F K) (p : Process)
      → IsScheduled k
      → lookup k.current k.processes ≡ some p
      → p.status ≡ running
  unfolding status_at
  status_of k p kept there = ground (arith, kept.active k.current, there)

  pub exit-eq :
      (ret : ℕ) (k k1 k2 : Kernel x.Table F K)
      → wake_waiting ret k ≡ returns k1
      → kill_self x ret k1 ≡ returns k2
      → exit x ret k ≡ switch_next k2
  unfolding exit
  exit-eq ret k k1 k2 ew ek = rw (ew, ek) refl

  -- Suppose that the queues agree with the processes, the space of the process that runs is known and with its stack in
  -- user memory, and the ready queue or the set of those that wait for the process is not empty. Then its exit
  -- always comes to an end: the process is dead and its exit code is kept, all that waited for it
  -- are woken up with the code as their answer, the first process of the queue, or else the
  -- first that was woken up, runs, and the queues agree with the processes again.
  pub exit-Exits :
      (laws : Laws x) (ret next : ℕ) (rest : List ℕ) (k : Kernel x.Table F K) (p : Process)
      (vm : ProcessVm) (space : Space)
      → IsScheduled k
      → lookup k.current k.processes ≡ some p
      → p.proc_vm ≡ some vm
      → lookup vm.root k.vm.spaces ≡ some space
      → IsInUserSpace vm space
      → k.ready_queue ++ waiters k ≡ next ∷ rest
      → Exits ret next rest k (exit x ret k)
  exit-Exits laws ret next rest k p vm space kept there has known user e =
      let (_, _, _, _, _, pos) = current_there k kept in
      let (k1, ew, w) = wake_waiting-IsWoken ret k kept pos in
      let runs : p.status ≡ running = status_of k p kept there in
      let alone : count k.current (waiters k) ≡ 0 = ground (
        arith,
        kept.waits k.current,
        kept.active k.current,
        count-set_at k.current k.current k.waiting kept.waiting_Ascends,
      ) in
      let there0 : lookup k.current k1.processes ≡ some p = w.others k.current alone ∙ there in
      let there1 : lookup k1.current k1.processes ≡ some p = rw w.current there0 in
      let known1 : lookup vm.root k1.vm.spaces ≡ some space = rw w.vm known in
      let pos1 : (k1.current == 0) ≡ false = rw w.current pos in
      let (s, d) = drop_vm-Returns x laws vm k1.vm space known1 user in
      let q = killed ret p in
      let k2 = record k1 { processes = insert k1.current q k1.processes; vm = s } in
      let e1 : k1.ready_queue ≡ next ∷ rest = w.queue ∙ e in
      let other : next ≢ k.current = ground (arith, w.kept.queued next, w.kept.active next, e1) in
      let idle =
        die-IsKept (λ j. 0) k1.processes k1.ready_queue k1.waiting k1.families k1.current q
          (subst
            (λ c. IsKept (λ j. j == c) (λ j. 0) k1.processes k1.ready_queue k1.waiting k1.families)
            (sym w.current) w.kept)
          refl in
      subst (Exits ret next rest k)
        (sym (exit-eq ret k k1 k2 ew (kill_self-eq ret p vm s k1 pos1 there1 runs has d)))
        (resumed-Exits ret next rest p k k1 k2 (switch_next k2) w
          (ap (λ c. insert c q k1.processes) w.current) there0 other
          (switch_next-Resumes next rest k2 idle e1))
