-- ===== src/Proc/Schedule/Forked.antt =====
-- A fork, whatever it does.
use sysu_ysosv.Prelude.{
  ℕ, ◌+◌, ◌*◌, ◌≡◌, ◌≢◌, refl, sym, subst, ◌∙◌, Bool, false, none, some, List, [], ◌∷◌, ◌++◌, arith,
  length, count, count-append, ◌==◌, ◌⊎◌, inl, inr, Option-cases, Outcome-cases, is_some, true,
  returns, panics,
}
use sysu_ysosv.Prelude.Map.{Map, lookup, insert, lookup-insert, lookup-insert_self, insert-insert}
use sysu_ysosv.Memory.X86.{X86}
use sysu_ysosv.Vm.Stack.{stack_max_pages}
use sysu_ysosv.Proc.Context.{Context}
use sysu_ysosv.Proc.AddressSpace.{ProcessVm, Spaces, fork_vm}
use sysu_ysosv.Proc.State.{
  Process, ProcessData, Kernel, Family, running, ready, next_pid, save, tick, put_rax,
}
use sysu_ysosv.Proc.Manager.{switch_next, push_ready, fork_proc, fork_inner, child_context}
use sysu_ysosv.Proc.Calls.{fork}
use sysu_ysosv.Proc.Schedule.{IsKept, IsScheduled, IsIdle}
use sysu_ysosv.Proc.Schedule.Changes.{pause-IsKept, begin-IsKept}
use sysu_ysosv.Proc.Schedule.RoundRobin.{current_there, current_proc-eq, save_current-eq}
use sysu_ysosv.Proc.Schedule.Calls.{Keeps, switch_next-Keeps}

-- The queues may be in another order.
requeue-IsKept :
    {F : Type 0} (runs : ℕ → Bool) (held : ℕ → ℕ) (processes : Map Process) (queue queue' : List ℕ)
    (waiting : Map (List ℕ)) (families : Map (Family F))
    → IsKept runs held processes queue waiting families
    → ((j : ℕ) → count j queue' ≡ count j queue)
    → IsKept runs held processes queue' waiting families
requeue-IsKept runs held processes queue queue' waiting families kept same = record {
  queued = λ j. same j ∙ kept.queued j;
  waits = kept.waits;
  active = kept.active;
  backed = kept.backed;
  absent = kept.absent;
  waiting_Ascends = kept.waiting_Ascends;
  families_Ascends = kept.families_Ascends;
  sems_Ascends = kept.sems_Ascends;
}

-- The process that runs, with its context saved, and what it is after the fork.
abbrev pub stored : Context → Process → Process
stored c p = record (tick p) { context = c; status = ready }

abbrev pub forked : ℕ → Context → Process → Process
forked child c p = put_rax child (record (stored c p) { children = p.children ++ child ∷ [] })

-- The child.
abbrev pub child_of : ℕ → Context → ProcessData → ProcessVm → Process
child_of parent c data_of vm = record {
  parent = some parent;
  children = [];
  ticks_passed = 0;
  status = ready;
  exit_code = none;
  context = c;
  proc_data = some data_of;
  proc_vm = some vm;
}

save-running : (c : Context) (p : Process) → p.status ≡ running → save c (tick p) ≡ stored c p
save-running c p runs = rw runs refl

module _ (x : X86) where
  pub fork_inner-eq :
      (parent : ℕ) (p : Process) (s s' : Spaces x.Table) (own vm : ProcessVm) (d : ProcessData)
      (c : Context)
      → p.proc_vm ≡ some own
      → p.proc_data ≡ some d
      → fork_vm x ((length p.children + 1) * stack_max_pages) own s ≡ returns (vm, s')
      → child_context x (vm.stack.range.start * 4096) p.context ≡ returns c
      → fork_inner x parent p s ≡ returns (child_of parent c d vm, s')
  unfolding fork_inner
  fork_inner-eq parent p s s' own vm d c has_vm has_data copied answer =
      rw (fork_inner, has_vm, copied, has_data, answer) refl

  -- A child that is made is ready and has memory.
  fork_inner-cases :
      (parent : ℕ) (p : Process) (s : Spaces x.Table)
      → (fork_inner x parent p s ≡ panics)
        ⊎ ((q : Process) × (s' : Spaces x.Table) × (fork_inner x parent p s ≡ returns (q, s'))
            × (q.status ≡ ready)
            × (is_some q.proc_vm ≡ true))
  unfolding fork_inner
  fork_inner-cases parent p s = elim (Option-cases p.proc_vm) [
    | inl none_there ↦ inl (rw (fork_inner, none_there) refl)
    | inr (own, has_vm) ↦
        elim (Outcome-cases (fork_vm x ((length p.children + 1) * stack_max_pages) own s)) [
          | inl e ↦ inl (rw (fork_inner, has_vm, e) refl)
          | inr ((vm, s'), copied) ↦ elim (Option-cases p.proc_data) [
            | inl no_data ↦ inl (rw (fork_inner, has_vm, copied, no_data) refl)
            | inr (d, has_data) ↦
                elim (Outcome-cases (child_context x (vm.stack.range.start * 4096) p.context)) [
                  | inl e ↦ inl (rw (fork_inner, has_vm, copied, has_data, e) refl)
                  | inr (c, made) ↦ inr (
                    child_of parent c d vm,
                    s',
                    fork_inner-eq parent p s s' own vm d c has_vm has_data copied made,
                    refl,
                    refl,
                  )
                ]
          ]
        ]
  ]

  module _ {F K : Type 0} where
    -- The kernel after fork_proc, when it works.
    abbrev pub after_fork :
        ℕ → Context → Process → Process → Spaces x.Table → Kernel x.Table F K → Kernel x.Table F K
    after_fork child c p q s k = record k {
      processes = insert child q (insert k.current (forked child c p) k.processes);
      counter = child;
      vm = s;
    }

    fork_proc-eq :
        (c : Context) (k : Kernel x.Table F K) (p q : Process) (s : Spaces x.Table)
        → (k.current == 0) ≡ false
        → fork_inner x k.current (stored c p) k.vm ≡ returns (q, s)
        → fork_proc x (record k { processes = insert k.current (stored c p) k.processes })
          ≡ returns (next_pid k.counter, after_fork (next_pid k.counter) c p q s k)
    unfolding fork_proc
    fork_proc-eq c k p q s pos made =
        let k1 = record k { processes = insert k.current (stored c p) k.processes } in
        let child = next_pid k.counter in
        let now =
          current_proc-eq k1 (stored c p) pos
            (lookup-insert_self k.current (stored c p) k.processes) in
        rw
          (
            fork_proc,
            now,
            made,
            insert-insert k.current (forked child c p) (stored c p) k.processes,
          )
          refl

    pub fork-eq :
        (c : Context) (k : Kernel x.Table F K) (p q : Process) (s : Spaces x.Table)
        → (k.current == 0) ≡ false
        → lookup k.current k.processes ≡ some p
        → p.status ≡ running
        → fork_inner x k.current (stored c p) k.vm ≡ returns (q, s)
        → let child = next_pid k.counter in
          fork x c k
          ≡ switch_next (push_ready k.current (push_ready child (after_fork child c p q s k)))
    unfolding fork
    fork-eq c k p q s pos there runs made =
        rw (fork, save_current-eq c k p pos there, runs, fork_proc-eq c k p q s pos made) refl

    -- No process runs after the child and the parent are in the queue.
    pub fork-IsIdle :
        (c : Context) (k : Kernel x.Table F K) (p q : Process) (own : ProcessVm)
        (s : Spaces x.Table)
        → IsScheduled k
        → p.proc_vm ≡ some own
        → q.status ≡ ready
        → is_some q.proc_vm ≡ true
        → (k.current == 0) ≡ false
        → next_pid k.counter ≢ 0
        → next_pid k.counter ≢ k.current
        → lookup (next_pid k.counter) k.processes ≡ none
        → IsIdle (
            push_ready k.current
              (push_ready (next_pid k.counter) (after_fork (next_pid k.counter) c p q s k)))
    unfolding push_ready
    fork-IsIdle c k p q own s kept has_vm is_ready backed current_pos pos other free =
        let child = next_pid k.counter in
        let k1 = push_ready k.current (push_ready child (after_fork child c p q s k)) in
        let paused =
          pause-IsKept (λ j. 0) k.processes k.ready_queue k.waiting k.families k.current
            (forked child c p) kept refl (ground (arith, has_vm)) in
        let new : lookup child (insert k.current (forked child c p) k.processes) ≡ none =
          ground
            (arith, other, free, lookup-insert child k.current (forked child c p) k.processes) in
        let begun =
          begin-IsKept (λ j. 0) (insert k.current (forked child c p) k.processes)
            (k.ready_queue ++ k.current ∷ []) k.waiting k.families child q (λ j. false) paused new
            pos is_ready backed in
        requeue-IsKept (λ j. false) (λ j. 0) k1.processes
          ((k.ready_queue ++ k.current ∷ []) ++ child ∷ [])
          ((k.ready_queue ++ child ∷ []) ++ k.current ∷ []) k.waiting k.families begun
          (λ j. omega (
            arith,
            count-append j (k.ready_queue ++ k.current ∷ []) (child ∷ []),
            count-append j (k.ready_queue ++ child ∷ []) (k.current ∷ []),
            count-append j k.ready_queue (child ∷ []),
            count-append j k.ready_queue (k.current ∷ []),
          ))

    fork-panics :
        (c : Context) (k : Kernel x.Table F K) (p : Process)
        → (k.current == 0) ≡ false
        → lookup k.current k.processes ≡ some p
        → p.status ≡ running
        → fork_inner x k.current (stored c p) k.vm ≡ panics
        → fork x c k ≡ panics
    unfolding fork fork_proc
    fork-panics c k p pos there runs made =
        let k1 = record k { processes = insert k.current (stored c p) k.processes } in
        let now =
          current_proc-eq k1 (stored c p) pos
            (lookup-insert_self k.current (stored c p) k.processes) in
        rw (fork, save_current-eq c k p pos there, runs) (rw (fork_proc, now, made) refl)

    -- Whatever a fork does, if the next number of the counter is neither 0 nor in use: as long as it
    -- returns, the queues agree with the processes after it.
    pub fork-Keeps :
        (c : Context) (k : Kernel x.Table F K)
        → IsScheduled k
        → next_pid k.counter ≢ 0
        → lookup (next_pid k.counter) k.processes ≡ none
        → Keeps (fork x c k)
    fork-Keeps c k kept pos free =
        let (p, own, there, runs, has_vm, current_pos) = current_there k kept in
        let child = next_pid k.counter in
        let other : child ≢ k.current = ground (arith, there, free) in
        elim (fork_inner-cases k.current (stored c p) k.vm) [
          | inl e ↦ rw (fork-panics c k p current_pos there runs e) tt
          | inr (q, s, e, is_ready, backed) ↦
              subst Keeps (sym (fork-eq c k p q s current_pos there runs e)) (
                switch_next-Keeps
                  (push_ready k.current (push_ready child (after_fork child c p q s k)))
                  (fork-IsIdle c k p q own s kept has_vm is_ready backed current_pos pos other
                    free))
        ]
