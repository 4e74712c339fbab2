-- ===== src/Proc/Schedule/Reach.antt =====
-- The kernel, call after call: the calls of pkg/kernel/src/proc/mod.rs but those on descriptors, as steps.
use sysu_ysosv.Prelude.{
  ◌>>=◌, Option, not, ℕ, ◌≡◌, ◌≢◌, refl, sym, subst, ◌∙◌, false, none, some, arith, count, ◌==◌,
  inl, inr, Outcome-cases, returns, panics,
}
use sysu_ysosv.Prelude.Map.{lookup, insert}
use sysu_ysosv.Memory.X86.{X86}
use sysu_ysosv.Proc.Context.{Context}
use sysu_ysosv.Proc.AddressSpace.{ProcessVm, drop_vm, brk_vm}
use sysu_ysosv.Proc.State.{Process, Kernel, running, next_pid}
use sysu_ysosv.Proc.Manager.{brk_proc, kernel_pid, kill, kill_proc, kill_self, wake_waiting}
use sysu_ysosv.Proc.Calls.{
  switch, wait_pid, sem_wait, sem_signal, new_sem, drop_sem, exit, fork, brk,
}
use sysu_ysosv.Proc.Schedule.{IsKept, IsScheduled}
use sysu_ysosv.Proc.Schedule.Changes.{die-IsKept}
use sysu_ysosv.Proc.Schedule.RoundRobin.{current_there, get_pid-eq}
use sysu_ysosv.Proc.Schedule.Parking.{count-set_at}
use sysu_ysosv.Proc.Schedule.Calls.{Keeps, switch_next-Keeps, switch-Keeps, wait_pid-Keeps}
use sysu_ysosv.Proc.Schedule.SemCalls.{
  sem_wait-Keeps, sem_signal-Keeps, new_sem-Keeps, drop_sem-Keeps,
}
use sysu_ysosv.Proc.Schedule.Forked.{fork-Keeps}
use sysu_ysosv.Proc.Schedule.Exiting.{waiters, wake_waiting-IsWoken, kill_self-eq, exit-eq, killed}

module _ (x : X86) {F K : Type 0} where
  kill_self-panics :
      (ret : ℕ) (p : Process) (vm : ProcessVm) (k : Kernel x.Table F K)
      → (k.current == 0) ≡ false
      → lookup k.current k.processes ≡ some p
      → p.status ≡ running
      → p.proc_vm ≡ some vm
      → drop_vm x vm k.vm ≡ panics
      → kill_self x ret k ≡ panics
  unfolding kill_self kill kill_proc
  kill_self-panics ret p vm k pos there runs has d =
      rw (get_pid-eq k pos) (rw (kill, there, runs) (rw (kill_proc, has, d) refl))

  exit-panics :
      (ret : ℕ) (k k1 : Kernel x.Table F K)
      → wake_waiting ret k ≡ returns k1
      → kill_self x ret k1 ≡ panics
      → exit x ret k ≡ panics
  unfolding exit
  exit-panics ret k k1 ew d = rw (exit, ew, d) refl

  pub exit-Keeps : (ret : ℕ) (k : Kernel x.Table F K) → IsScheduled k → Keeps (exit x ret k)
  exit-Keeps ret k kept =
      let (p, vm, there, runs, has, pos) = current_there k kept in
      let (k1, ew, w) = wake_waiting-IsWoken ret k kept pos in
      let alone : count k.current (waiters k) ≡ 0 = ground (
        arith,
        kept.waits k.current,
        kept.active k.current,
        count-set_at k.current k.current k.waiting kept.waiting_Ascends,
      ) in
      let there1 : lookup k1.current k1.processes ≡ some p =
        rw w.current (w.others k.current alone ∙ there) in
      let pos1 : (k1.current == 0) ≡ false = rw w.current pos in
      let kept1 : IsScheduled k1 =
        subst
          (λ c. IsKept (λ j. j == c) (λ j. 0) k1.processes k1.ready_queue k1.waiting k1.families)
          (sym w.current) w.kept in
      elim (Outcome-cases (drop_vm x vm k1.vm)) [
        | inl d ↦
            rw (exit-panics ret k k1 ew (kill_self-panics ret p vm k1 pos1 there1 runs has d)) tt
        | inr (s, d) ↦
            let q = killed ret p in
            let k2 = record k1 { processes = insert k1.current q k1.processes; vm = s } in
            subst Keeps
              (sym (exit-eq x ret k k1 k2 ew (kill_self-eq x ret p vm s k1 pos1 there1 runs has d)))
              (switch_next-Keeps k2 (
                die-IsKept (λ j. 0) k1.processes k1.ready_queue k1.waiting k1.families k1.current q
                  kept1 refl))
      ]

  pub brk-Keeps : (addr : Option ℕ) (k : Kernel x.Table F K) → IsScheduled k → Keeps (brk x addr k)
  unfolding brk brk_proc
  brk-Keeps addr k kept =
      let (p, vm, there, runs, has, pos) = current_there k kept in
      elim (Outcome-cases (brk_vm x (not (k.current == kernel_pid)) addr vm k.vm)) [
        | inl e ↦ rw (brk, get_pid-eq k pos, ◌>>=◌, there, has, e) tt
        | inr ((r, s), e) ↦ rw (brk, get_pid-eq k pos, ◌>>=◌, there, has, e) kept
      ]

  -- One call that returns, made by the process that runs or by the timer.
  pub data Step : Kernel x.Table F K → Kernel x.Table F K → Type 0 where
    timer : (c c' : Context) (k k' : Kernel x.Table F K) → switch c k ≡ returns (c', k') → Step k k'
    waits_pid :
        (pid : ℕ) (c c' : Context) (k k' : Kernel x.Table F K)
        → wait_pid pid c k ≡ returns (c', k')
        → Step k k'
    waits_sem :
        (key : ℕ) (c c' : Context) (k k' : Kernel x.Table F K)
        → sem_wait key c k ≡ returns (c', k')
        → Step k k'
    signals :
        (key : ℕ) (c c' : Context) (k k' : Kernel x.Table F K)
        → sem_signal key c k ≡ returns (c', k')
        → Step k k'
    makes_sem :
        (key value answer : ℕ) (k k' : Kernel x.Table F K)
        → new_sem key value k ≡ returns (answer, k')
        → Step k k'
    drops_sem :
        (key answer : ℕ) (k k' : Kernel x.Table F K)
        → drop_sem key k ≡ returns (answer, k')
        → Step k k'
    exits :
        (ret : ℕ) (c' : Context) (k k' : Kernel x.Table F K)
        → exit x ret k ≡ returns (c', k')
        → Step k k'
    moves_break :
        (addr : Option ℕ) (answer : ℕ) (k k' : Kernel x.Table F K)
        → brk x addr k ≡ returns (answer, k')
        → Step k k'
    forks : (c c' : Context) (k k' : Kernel x.Table F K) → fork x c k ≡ returns (c', k') → Step k k'

  -- The number that a call gives to a process is neither 0 nor in use.
  abbrev pub Fresh : (k k' : Kernel x.Table F K) → Step k k' → Type 0
  Fresh k k' (timer c c' _ _ e) = Unit {0}
  Fresh k k' (waits_pid pid c c' _ _ e) = Unit {0}
  Fresh k k' (waits_sem key c c' _ _ e) = Unit {0}
  Fresh k k' (signals key c c' _ _ e) = Unit {0}
  Fresh k k' (makes_sem key v a _ _ e) = Unit {0}
  Fresh k k' (drops_sem key a _ _ e) = Unit {0}
  Fresh k k' (exits ret c' _ _ e) = Unit {0}
  Fresh k k' (moves_break addr a _ _ e) = Unit {0}
  Fresh k k' (forks c c' _ _ e) =
      (next_pid k.counter ≢ 0) × (lookup (next_pid k.counter) k.processes ≡ none)

  -- Any number of calls.
  pub data Reach : Kernel x.Table F K → Kernel x.Table F K → Type 0 where
    here : (k : Kernel x.Table F K) → Reach k k
    after : (k k1 k2 : Kernel x.Table F K) → Reach k k1 → Step k1 k2 → Reach k k2

  abbrev pub AllFresh : (k k' : Kernel x.Table F K) → Reach k k' → Type 0
  AllFresh k k' (here _) = Unit {0}
  AllFresh k k' (after _ k1 _ r s) = AllFresh k k1 r × Fresh k1 k' s

  Step-IsScheduled :
      (k k' : Kernel x.Table F K) (s : Step k k') → Fresh k k' s → IsScheduled k → IsScheduled k'
  Step-IsScheduled k k' (timer c c' _ _ e) fresh kept = subst Keeps e (switch-Keeps c k kept)
  Step-IsScheduled k k' (waits_pid pid c c' _ _ e) fresh kept =
      subst Keeps e (wait_pid-Keeps pid c k kept)
  Step-IsScheduled k k' (waits_sem key c c' _ _ e) fresh kept =
      subst Keeps e (sem_wait-Keeps key c k kept)
  Step-IsScheduled k k' (signals key c c' _ _ e) fresh kept =
      subst Keeps e (sem_signal-Keeps key c k kept)
  Step-IsScheduled k k' (makes_sem key v a _ _ e) fresh kept =
      subst Keeps e (new_sem-Keeps key v k kept)
  Step-IsScheduled k k' (drops_sem key a _ _ e) fresh kept =
      subst Keeps e (drop_sem-Keeps key k kept)
  Step-IsScheduled k k' (exits ret c' _ _ e) fresh kept = subst Keeps e (exit-Keeps ret k kept)
  Step-IsScheduled k k' (moves_break addr a _ _ e) fresh kept =
      subst Keeps e (brk-Keeps addr k kept)
  Step-IsScheduled k k' (forks c c' _ _ e) (pos, free) kept =
      subst Keeps e (fork-Keeps x c k kept pos free)

  -- In every state that timer interrupts, forks, exits, moves of the program break, waits for processes
  -- and calls on semaphores lead to, in any order, from a state in which the queues agree with the
  -- processes, they agree again, as long as the numbers that forks give are neither 0 nor in use:
  -- one process runs, and it is the current one, each ready process is in the queue once and no
  -- other is, and a process that waits is blocked and waits for one thing.
  pub Reach-IsScheduled :
      (k k' : Kernel x.Table F K) (r : Reach k k')
      → AllFresh k k' r
      → IsScheduled k
      → IsScheduled k'
  Reach-IsScheduled k k' (here _) fresh kept = kept
  Reach-IsScheduled k k' (after _ k1 _ r s) (all, fresh) kept =
      Step-IsScheduled k1 k' s fresh (Reach-IsScheduled k k1 r all kept)
