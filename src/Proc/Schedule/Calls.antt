-- ===== src/Proc/Schedule/Calls.antt =====
-- Whatever the timer and wait_pid do, as long as they return, the queues agree with the processes
-- after it.
use sysu_ysosv.Prelude.{
  ℕ, ◌+◌, ◌≡◌, refl, false, some, List, [], ◌∷◌, arith, ◌==◌, Bool-cases, Option-cases, inl, inr,
  Outcome, returns, panics,
}
use sysu_ysosv.Prelude.Map.{lookup}
use sysu_ysosv.Proc.Context.{Context}
use sysu_ysosv.Proc.State.{Process, ProcessData, Kernel, Family, running, save, tick}
use sysu_ysosv.Proc.State
use sysu_ysosv.Proc.Manager.{switch_next, fetch_ready, is_proc_alive, get_exit_code, push_ready}
use sysu_ysosv.Proc.Calls.{switch, wait_pid}
use sysu_ysosv.Proc.Schedule.{IsKept, IsIdle, IsScheduled, status_at, has_vm, bit}
use sysu_ysosv.Proc.Schedule.Changes.{pause-IsKept, block-IsKept}
use sysu_ysosv.Proc.Schedule.Parking.{park-IsKept}
use sysu_ysosv.Proc.Schedule.Switching.{Resumes, switch_next-Resumes}
use sysu_ysosv.Proc.Schedule.RoundRobin.{current_there, get_pid-eq, save_current-eq, saved}
use sysu_ysosv.Proc.Schedule.Waiting.{stopped, waits_on, block_proc-eq, add_waiting-eq}

module _ {T F K : Type 0} where
  -- A call that returns leaves the queues in agreement with the processes.
  abbrev pub Keeps : {A : Type 0} → Outcome (A × Kernel T F K) → Type 0
  Keeps panics = Unit {0}
  Keeps (returns (a, k')) = IsScheduled k'

  resumed-Keeps :
      (next : ℕ) (rest : List ℕ) (k : Kernel T F K) (r : Outcome (Context × Kernel T F K))
      → Resumes next rest k r
      → Keeps r
  resumed-Keeps next rest k panics h = tt
  resumed-Keeps next rest k (returns (c, k')) h = h.scheduled

  no_queue : (k : Kernel T F K) → k.ready_queue ≡ [] → switch_next k ≡ panics
  unfolding switch_next fetch_ready
  no_queue k e = rw (switch_next, e) refl

  pub switch_next-Keeps : (k : Kernel T F K) → IsIdle k → Keeps (switch_next k)
  switch_next-Keeps k idle = by_queue k.ready_queue refl
    where
      by_queue : (q : List ℕ) → k.ready_queue ≡ q → Keeps (switch_next k)
      by_queue [] e = rw (no_queue k e) tt
      by_queue (next ∷ rest) e =
          resumed-Keeps next rest k (switch_next k) (switch_next-Resumes next rest k idle e)

  pub switch-Keeps : (c : Context) (k : Kernel T F K) → IsScheduled k → Keeps (switch c k)
  unfolding switch push_ready
  switch-Keeps c k kept =
      let (p, vm, there, runs, has, pos) = current_there k kept in
      let idle =
        pause-IsKept (λ j. 0) k.processes k.ready_queue k.waiting k.families k.current
          (save c (tick p)) kept (ground (arith, runs)) (ground (arith, runs, has)) in
      rw (save_current-eq c k p pos there)
        (switch_next-Keeps (push_ready k.current (saved c p k)) idle)

  -- The process that runs is blocked.
  pub stopped-IsKept :
      (c : Context) (k : Kernel T F K) (p : Process)
      → IsScheduled k
      → lookup k.current k.processes ≡ some p
      → IsKept
          (λ j. false)
          (λ j. 0 + bit (k.current == j))
          (stopped c p k).processes
          k.ready_queue
          k.waiting
          k.families
  unfolding status_at has_vm
  stopped-IsKept c k p kept there =
      let runs : p.status ≡ running = ground (arith, kept.active k.current, there) in
      block-IsKept (λ j. 0) k.processes k.ready_queue k.waiting k.families k.current
        (State.block (save c (tick p))) kept refl
        (ground (arith, kept.backed k.current, there, runs))

  pub wait_pid-Keeps :
      (pid : ℕ) (c : Context) (k : Kernel T F K) → IsScheduled k → Keeps (wait_pid pid c k)
  unfolding wait_pid get_exit_code
  wait_pid-Keeps pid c k kept = elim (Bool-cases (is_proc_alive pid k)) [
    | inl alive ↦
        let (p, vm, there, runs, has, pos) = current_there k kept in
        let k1 = waits_on pid (stopped c p k) in
        rw
          (
            wait_pid,
            alive,
            save_current-eq c k p pos there,
            get_pid-eq k pos,
            block_proc-eq c p k,
            add_waiting-eq pid (stopped c p k) pos,
          )
          (switch_next-Keeps k1 (
            park-IsKept (λ j. false) (λ j. 0) (stopped c p k).processes k.ready_queue k.waiting
              k.families k.current pid (stopped-IsKept c k p kept there)))
    | inr gone ↦ elim (Option-cases (lookup pid k.processes)) [
      | inl never ↦ rw (wait_pid, gone, get_exit_code, never) tt
      | inr (q, there) ↦ elim (Option-cases q.exit_code) [
        | inl running_still ↦ rw (wait_pid, gone, get_exit_code, there, running_still) tt
        | inr (code, over) ↦ rw (wait_pid, gone, get_exit_code, there, over) kept
      ]
    ]
  ]
