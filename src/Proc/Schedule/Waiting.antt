-- ===== src/Proc/Schedule/Waiting.antt =====
-- The waitpid call.
use sysu_ysosv.Prelude.{
  ℕ, ◌≡◌, ◌≢◌, refl, true, false, some, List, ◌∷◌, arith, ◌==◌, Option-cases, inl, inr, Outcome,
  returns, panics,
}
use sysu_ysosv.Prelude.Map.{
  Map, lookup, insert, add, lookup-insert, lookup-insert_self, insert-insert,
}
use sysu_ysosv.Proc.Context.{Context}
use sysu_ysosv.Proc.State.{Process, Kernel, Family, running, blocked, save, tick, block}
use sysu_ysosv.Proc.Manager.{switch_next, block_proc, update_proc, add_waiting, is_proc_alive}
use sysu_ysosv.Proc.Calls.{wait_pid}
use sysu_ysosv.Proc.Schedule.{IsScheduled, status_at}
use sysu_ysosv.Proc.Schedule.Changes.{block-IsKept}
use sysu_ysosv.Proc.Schedule.Parking.{set_at, park-IsKept}
use sysu_ysosv.Proc.Schedule.Switching.{context_at, Resumes, switch_next-Resumes}
use sysu_ysosv.Proc.Schedule.RoundRobin.{current_there, get_pid-eq, saved, save_current-eq}

module _ {T F K : Type 0} where
  -- The kernel after the process that runs was saved and blocked.
  abbrev pub stopped : Context → Process → Kernel T F K → Kernel T F K
  stopped c p k = record k { processes = insert k.current (block (save c (tick p))) k.processes }

  pub block_proc-eq :
      (c : Context) (p : Process) (k : Kernel T F K)
      → block_proc k.current (saved c p k) ≡ returns (stopped c p k)
  unfolding block_proc update_proc
  block_proc-eq c p k =
      rw
        (
          lookup-insert_self k.current (save c (tick p)) k.processes,
          insert-insert k.current (block (save c (tick p))) (save c (tick p)) k.processes,
        )
        refl

  -- The kernel after the process that runs was put to wait for the end of another.
  abbrev pub waits_on : ℕ → Kernel T F K → Kernel T F K
  waits_on pid k = record k {
    waiting = insert pid (add k.current (set_at (lookup pid k.waiting))) k.waiting;
  }

  pub add_waiting-eq :
      (pid : ℕ) (k : Kernel T F K)
      → (k.current == 0) ≡ false
      → add_waiting pid k ≡ returns (waits_on pid k)
  unfolding add_waiting
  add_waiting-eq pid k pos = elim (Option-cases (lookup pid k.waiting)) [
    | inl gone ↦ rw (get_pid-eq k pos, gone) refl
    | inr (s, there) ↦ rw (get_pid-eq k pos, there) refl
  ]

  -- The process that ran is blocked, with the context that was interrupted, and `next` runs. What
  -- processes wait for is as given.
  abbrev pub Waits :
      Context
      → ℕ
      → List ℕ
      → Map (List ℕ)
      → Map (Family F)
      → Kernel T F K
      → Outcome (Context × Kernel T F K)
      → Type 0
  Waits c next rest waiting families k panics = ⊥
  Waits c next rest waiting families k (returns (c', k')) =
      IsScheduled k'
      × (k'.current ≡ next)
      × (k'.ready_queue ≡ rest)
      × (context_at next k.processes ≡ some c')
      × (context_at k.current k'.processes ≡ some c)
      × (status_at k.current k'.processes ≡ blocked)
      × (k'.waiting ≡ waiting)
      × (k'.families ≡ families)

  pub blocked-Waits :
      (c : Context) (next : ℕ) (rest : List ℕ) (p : Process) (k k1 : Kernel T F K)
      (r : Outcome (Context × Kernel T F K))
      → p.status ≡ running
      → next ≢ k.current
      → k1.processes ≡ insert k.current (block (save c (tick p))) k.processes
      → Resumes next rest k1 r
      → Waits c next rest k1.waiting k1.families k r
  unfolding context_at status_at
  blocked-Waits c next rest p k k1 panics runs other e h = absurd h
  blocked-Waits c next rest p k k1 (returns (c', k')) runs other e h =
      let q = block (save c (tick p)) in
      (
        h.scheduled,
        h.current,
        h.queue,
        ground (arith, h.restored, e, lookup-insert next k.current q k.processes, other),
        ground
            (arith, h.contexts k.current, e, lookup-insert k.current k.current q k.processes, runs),
        ground
            (arith, h.others k.current, e, lookup-insert k.current k.current q k.processes, other),
        h.waiting,
        h.families,
      )

  -- Suppose that the queues agree with the processes and the ready queue is not empty. A process that
  -- waits for one that is alive is blocked and put in the set of those that wait for it; the
  -- first of the queue runs, and the queues agree with the processes again.
  pub wait_pid-Waits :
      (pid : ℕ) (c : Context) (next : ℕ) (rest : List ℕ) (k : Kernel T F K)
      → IsScheduled k
      → is_proc_alive pid k ≡ true
      → k.ready_queue ≡ next ∷ rest
      → Waits c next rest (waits_on pid k).waiting k.families k (wait_pid pid c k)
  unfolding wait_pid
  wait_pid-Waits pid c next rest k kept alive e =
      let (p, vm, there, runs, has, pos) = current_there k kept in
      let k1 = waits_on pid (stopped c p k) in
      let other : next ≢ k.current = ground (arith, kept.queued next, kept.active next, e) in
      let idle =
        park-IsKept (λ j. false) (λ j. 0) (stopped c p k).processes k.ready_queue k.waiting
          k.families k.current pid
          (block-IsKept (λ j. 0) k.processes k.ready_queue k.waiting k.families k.current
            (block (save c (tick p))) kept refl (ground (arith, runs, has))) in
      rw
        (
          wait_pid,
          alive,
          save_current-eq c k p pos there,
          get_pid-eq k pos,
          block_proc-eq c p k,
          add_waiting-eq pid (stopped c p k) pos,
        )
        (blocked-Waits c next rest p k k1 (switch_next k1) runs other refl
          (switch_next-Resumes next rest k1 idle e))
