-- ===== src/Proc/Schedule/Forking.antt =====
-- The fork call.
use sysu_ysosv.Prelude.{
  ℕ, ◌+◌, ◌-◌, ◌*◌, ◌%◌, ◌^◌, ◌≡◌, ◌≢◌, refl, sym, ap, subst, ◌∙◌, none, some, List, [], ◌∷◌, ◌++◌,
  arith, length, Outcome, returns, panics,
}
use sysu_ysosv.Prelude.Map.{lookup, insert}
use sysu_ysosv.Memory.X86.{X86}
use sysu_ysosv.Vm.Stack.{stack_max_pages}
use sysu_ysosv.Proc.Context.{Context, set_rax, stack_top}
use sysu_ysosv.Proc.AddressSpace.{ProcessVm, Spaces, fork_vm}
use sysu_ysosv.Proc.State.{Process, ProcessData, Kernel, running, next_pid}
use sysu_ysosv.Proc.Manager.{switch_next, push_ready, child_context}
use sysu_ysosv.Proc.Calls.{fork}
use sysu_ysosv.Proc.Schedule.{IsScheduled}
use sysu_ysosv.Proc.Schedule.Switching.{context_at, context_at-insert, Resumes, switch_next-Resumes}
use sysu_ysosv.Proc.Schedule.RoundRobin.{current_there}
use sysu_ysosv.Proc.Schedule.Forked.{
  stored, forked, child_of, after_fork, fork_inner-eq, fork-eq, fork-IsIdle,
}

module _ (x : X86) where
  -- The stack pointer of a child: the lower half of the parent's, in the 4 GiB of the child's stack.
  abbrev pub child_top : ProcessVm → Context → ℕ
  child_top vm c =
      let bottom = vm.stack.range.start * 4096 in stack_top c % 2 ^ 32 + (bottom - bottom % 2 ^ 32)

  -- The context of a child: as its parent's, with its own stack and the answer 0.
  abbrev pub child_answer : ProcessVm → Context → Context
  child_answer vm c = record c {
    regs = record c.regs { rax = 0 };
    stack_frame = record c.stack_frame { stack_pointer = child_top vm c };
  }

  child_context-eq :
      (vm : ProcessVm) (c : Context)
      → x.virt_addr (child_top vm c) ≡ returns (child_top vm c)
      → child_context x (vm.stack.range.start * 4096) c ≡ returns (child_answer vm c)
  unfolding child_context
  child_context-eq vm c valid = rw (child_context, valid) refl

  module _ {F K : Type 0} where
    -- How a fork ends: `next` runs, the child and then the parent are the last of the queue, and go on
    -- from the same place, the parent with the number of the child and the child with `answer`.
    pub record IsForked (c answer c' : Context) (next : ℕ) (rest : List ℕ)
        (k k' : Kernel x.Table F K) : Type 0 where
      pub scheduled : IsScheduled k'
      pub current : k'.current ≡ next
      pub queue : k'.ready_queue ≡ rest ++ k.current ∷ []
      pub parent : context_at k.current k'.processes ≡ some (set_rax (next_pid k.counter) c)
      pub child : context_at (next_pid k.counter) k'.processes ≡ some answer

    abbrev pub Forks :
        Context
        → Context
        → ℕ
        → List ℕ
        → Kernel x.Table F K
        → Outcome (Context × Kernel x.Table F K)
        → Type 0
    Forks c answer next rest k panics = ⊥
    Forks c answer next rest k (returns (c', k')) = IsForked c answer c' next rest k k'

    resumed-Forks :
        (c answer : Context) (next : ℕ) (rest : List ℕ) (k k1 : Kernel x.Table F K)
        (r : Outcome (Context × Kernel x.Table F K))
        → Resumes next (rest ++ k.current ∷ []) k1 r
        → context_at k.current k1.processes ≡ some (set_rax (next_pid k.counter) c)
        → context_at (next_pid k.counter) k1.processes ≡ some answer
        → Forks c answer next rest k r
    resumed-Forks c answer next rest k k1 panics h parent child = absurd h
    resumed-Forks c answer next rest k k1 (returns (c', k')) h parent child = record {
      scheduled = h.scheduled;
      current = h.current;
      queue = h.queue;
      parent = h.contexts k.current ∙ parent;
      child = h.contexts (next_pid k.counter) ∙ child;
    }

    -- Suppose that the queues agree with the processes, that the memory of the process that runs can be
    -- forked, that the stack pointer for the child is a canonical address, and that the next number of the counter is not 0 and is not in
    -- use. Then a fork always comes to an end: the child and then the parent are the last of the ready queue, the first of the queue
    -- runs, the parent will go on with the number of the child as its answer, and the child with the registers of its parent,
    -- the answer 0, and the lower half of the parent's stack pointer in the 4 GiB of its own stack; and the queues agree with the processes
    -- again.
    pub fork-Forks :
        (c : Context) (next : ℕ) (rest : List ℕ) (k : Kernel x.Table F K) (p : Process)
        (d : ProcessData) (own vm : ProcessVm) (s : Spaces x.Table)
        → IsScheduled k
        → lookup k.current k.processes ≡ some p
        → p.proc_data ≡ some d
        → p.proc_vm ≡ some own
        → fork_vm x ((length p.children + 1) * stack_max_pages) own k.vm ≡ returns (vm, s)
        → x.virt_addr (child_top vm c) ≡ returns (child_top vm c)
        → next_pid k.counter ≢ 0
        → lookup (next_pid k.counter) k.processes ≡ none
        → k.ready_queue ++ next_pid k.counter ∷ [] ≡ next ∷ rest
        → Forks c (child_answer vm c) next rest k (fork x c k)
    unfolding push_ready
    fork-Forks c next rest k p d own vm s kept there has_data has_vm copied valid pos free e =
        let answer = child_answer vm c in
        let (p', vm', there', runs', has', current_pos) = current_there k kept in
        let child = next_pid k.counter in
        let runs : p.status ≡ running = ground (arith, there, there', runs') in
        let q = child_of k.current answer d vm in
        let other : child ≢ k.current = ground (arith, there, free) in
        let k1 = push_ready k.current (push_ready child (after_fork x child c p q s k)) in
        let idle = fork-IsIdle x c k p q own s kept has_vm refl refl current_pos pos other free in
        subst (Forks c answer next rest k)
          (sym (
            fork-eq x c k p q s current_pos there runs (
              fork_inner-eq x k.current (stored c p) k.vm s own vm d answer has_vm has_data copied
                (child_context-eq vm c valid))))
          (resumed-Forks c answer next rest k k1 (switch_next k1)
            (switch_next-Resumes next (rest ++ k.current ∷ []) k1 idle
              (ap (λ r. r ++ k.current ∷ []) e))
            (ground (
              arith,
              other,
              context_at-insert k.current child q (insert k.current (forked child c p) k.processes),
              context_at-insert k.current k.current (forked child c p) k.processes,
            ))
            (ground (
              arith,
              context_at-insert child child q (insert k.current (forked child c p) k.processes),
            )))
