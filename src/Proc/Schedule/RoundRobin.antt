-- ===== src/Proc/Schedule/RoundRobin.antt =====
-- The timer interrupt: the process that runs goes to the end of the queue.
use sysu_ysosv.Prelude.{
  ℕ, ◌≡◌, ◌≢◌, refl, sym, ap, ◌∙◌, false, some, List, [], ◌∷◌, ◌++◌, arith, ◌==◌, Option-cases, inl,
  inr, Outcome, returns, panics,
}
use sysu_ysosv.Prelude.Map.{lookup, insert}
use sysu_ysosv.Proc.Context.{Context}
use sysu_ysosv.Proc.AddressSpace.{ProcessVm}
use sysu_ysosv.Proc.State.{Process, Kernel, running, save, tick}
use sysu_ysosv.Proc.Manager.{switch_next, save_current, current_proc, get_pid, push_ready}
use sysu_ysosv.Proc.Calls.{switch}
use sysu_ysosv.Proc.Schedule.{IsScheduled, status_at, has_vm}
use sysu_ysosv.Proc.Schedule.Changes.{pause-IsKept}
use sysu_ysosv.Proc.Schedule.Switching.{context_at, context_at-insert, Resumes, switch_next-Resumes}

module _ {T F K : Type 0} where
  -- The process that runs is there, and has its memory.
  pub current_there :
      (k : Kernel T F K)
      → IsScheduled k
      → (p : Process) × (vm : ProcessVm) × (lookup k.current k.processes ≡ some p)
        × (p.status ≡ running)
        × (p.proc_vm ≡ some vm)
        × ((k.current == 0) ≡ false)
  unfolding status_at has_vm
  current_there k kept = elim (Option-cases (lookup k.current k.processes)) [
    | inl gone ↦ absurd (ground (arith, kept.active k.current, gone))
    | inr (p, there) ↦ elim (Option-cases p.proc_vm) [
      | inl no_vm ↦
          absurd (ground (arith, kept.active k.current, kept.backed k.current, there, no_vm))
      | inr (vm, has) ↦ (
        p,
        vm,
        there,
        ground (arith, kept.active k.current, there),
        has,
        ground (arith, kept.active k.current, kept.absent),
      )
    ]
  ]

  -- get_pid and current, while a process runs
  pub get_pid-eq : (k : Kernel T F K) → (k.current == 0) ≡ false → get_pid k ≡ returns k.current
  unfolding get_pid
  get_pid-eq k pos = rw pos refl

  pub current_proc-eq :
      (k : Kernel T F K) (p : Process)
      → (k.current == 0) ≡ false
      → lookup k.current k.processes ≡ some p
      → current_proc k ≡ returns (k.current, p)
  unfolding current_proc
  current_proc-eq k p pos there = rw (get_pid-eq k pos, there) refl

  -- The kernel after `save_current`.
  abbrev pub saved : Context → Process → Kernel T F K → Kernel T F K
  saved c p k = record k { processes = insert k.current (save c (tick p)) k.processes }

  pub save_current-eq :
      (c : Context) (k : Kernel T F K) (p : Process)
      → (k.current == 0) ≡ false
      → lookup k.current k.processes ≡ some p
      → save_current c k ≡ returns (k.current, saved c p k)
  unfolding save_current
  save_current-eq c k p pos there = rw (current_proc-eq k p pos there) refl

  -- How a switch to `next` ends: it runs, with the context that was saved for it, what ran is the last of
  -- the queue, and its context is the one that was interrupted.
  abbrev pub Switches :
      Context → ℕ → List ℕ → Kernel T F K → Outcome (Context × Kernel T F K) → Type 0
  Switches c next rest k panics = ⊥
  Switches c next rest k (returns (c', k')) =
      IsScheduled k'
      × (k'.current ≡ next)
      × (k'.ready_queue ≡ rest ++ k.current ∷ [])
      × (context_at next k.processes ≡ some c')
      × (context_at k.current k'.processes ≡ some c)

  resumed-Switches :
      (c : Context) (next : ℕ) (rest : List ℕ) (k k1 : Kernel T F K)
      (r : Outcome (Context × Kernel T F K))
      → Resumes next (rest ++ k.current ∷ []) k1 r
      → context_at next k1.processes ≡ context_at next k.processes
      → context_at k.current k1.processes ≡ some c
      → Switches c next rest k r
  resumed-Switches c next rest k k1 panics h en ec = absurd h
  resumed-Switches c next rest k k1 (returns (c', k')) h en ec =
      (h.scheduled, h.current, h.queue, sym en ∙ h.restored, h.contexts k.current ∙ ec)

  -- If the queues agree with the processes and the ready queue is not empty, a switch always comes to
  -- an end: the first of the queue runs, what ran is the last of it, each with its own context, and
  -- the queues agree with the processes again.
  pub switch-Switches :
      (c : Context) (next : ℕ) (rest : List ℕ) (k : Kernel T F K)
      → IsScheduled k
      → k.ready_queue ≡ next ∷ rest
      → Switches c next rest k (switch c k)
  unfolding switch push_ready
  switch-Switches c next rest k kept e =
      let (p, vm, there, runs, has, pos) = current_there k kept in
      let k1 = push_ready k.current (saved c p k) in
      let other : next ≢ k.current = ground (arith, kept.queued next, kept.active next, e) in
      let idle =
        pause-IsKept (λ j. 0) k.processes k.ready_queue k.waiting k.families k.current
          (save c (tick p)) kept (ground (arith, runs)) (ground (arith, runs, has)) in
      rw (save_current-eq c k p pos there) (
        resumed-Switches c next rest k k1 (switch_next k1)
          (switch_next-Resumes next (rest ++ k.current ∷ []) k1 idle
            (ap (λ q. q ++ k.current ∷ []) e))
          (ground (arith, context_at-insert next k.current (save c (tick p)) k.processes, other))
          (ground
            (arith, runs, context_at-insert k.current k.current (save c (tick p)) k.processes)))
