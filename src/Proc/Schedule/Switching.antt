-- ===== src/Proc/Schedule/Switching.antt =====
-- Which process runs next.
use sysu_ysosv.Prelude.{
  ℕ, suc, ◌≡◌, ◌≢◌, refl, sym, subst, true, false, Option, none, some, List, ◌∷◌, arith, ◌==◌,
  if◌then◌else◌, Option-cases, inl, inr, Outcome, returns, panics, length,
}
use sysu_ysosv.Prelude.Map.{Map, lookup, insert, lookup-insert}
use sysu_ysosv.Proc.Context.{Context}
use sysu_ysosv.Proc.AddressSpace.{ProcessVm}
use sysu_ysosv.Proc.State.{Process, Kernel, is_ready, resume}
use sysu_ysosv.Proc.Manager.{fetch_ready, switch_next}
use sysu_ysosv.Proc.Schedule.{IsKept, IsIdle, IsScheduled, status_at, has_vm}
use sysu_ysosv.Proc.Schedule.Changes.{resume-IsKept}

-- The saved context of a process.
unfoldable pub context_at : ℕ → Map Process → Option Context
context_at pid ps = elim (lookup pid ps) [ none ↦ none | some p ↦ some p.context ]

pub context_at-insert :
    (j pid : ℕ) (p : Process) (ps : Map Process)
    → context_at j (insert pid p ps) ≡ (if pid == j then some p.context else context_at j ps)
unfolding context_at
context_at-insert j pid p ps = ground (arith, lookup-insert j pid p ps)

module _ {T F K : Type 0} where
  -- The process `pid` goes on with its saved context, `rest` is left in the queue, the queues agree
  -- with the processes, and the other processes and what they wait for are as before.
  pub record IsResumed (pid : ℕ) (rest : List ℕ) (k k' : Kernel T F K) (c : Context) : Type 0 where
    pub scheduled : IsScheduled k'
    pub current : k'.current ≡ pid
    pub queue : k'.ready_queue ≡ rest
    pub restored : context_at pid k.processes ≡ some c
    pub contexts : (j : ℕ) → context_at j k'.processes ≡ context_at j k.processes
    pub others : (j : ℕ) → pid ≢ j → lookup j k'.processes ≡ lookup j k.processes
    pub waiting : k'.waiting ≡ k.waiting
    pub families : k'.families ≡ k.families

  abbrev pub Resumes : ℕ → List ℕ → Kernel T F K → Outcome (Context × Kernel T F K) → Type 0
  Resumes pid rest k panics = ⊥
  Resumes pid rest k (returns (c, k')) = IsResumed pid rest k k' c

  ready_there :
      (pid : ℕ) (rest : List ℕ) (k : Kernel T F K)
      → IsKept (λ j. false) (λ j. 0) k.processes (pid ∷ rest) k.waiting k.families
      → (p : Process) × (vm : ProcessVm) × (lookup pid k.processes ≡ some p)
        × (is_ready p.status ≡ true)
        × (p.proc_vm ≡ some vm)
  unfolding status_at has_vm
  ready_there pid rest k kept = elim (Option-cases (lookup pid k.processes)) [
    | inl gone ↦ absurd (ground (arith, kept.queued pid, gone))
    | inr (p, there) ↦ elim (Option-cases p.proc_vm) [
      | inl no_vm ↦ absurd (ground (arith, kept.queued pid, kept.backed pid, there, no_vm))
      | inr (vm, has) ↦ (p, vm, there, ground (arith, kept.queued pid, there), has)
    ]
  ]

  fetch_first :
      (pid n : ℕ) (rest : List ℕ) (k : Kernel T F K) (p : Process)
      → lookup pid k.processes ≡ some p
      → is_ready p.status ≡ true
      → fetch_ready (suc n) (record k { ready_queue = pid ∷ rest })
        ≡ returns (pid, p, record k { ready_queue = rest })
  unfolding fetch_ready
  fetch_first pid n rest k p there is = rw (fetch_ready, there, is) refl

  next_first :
      (pid : ℕ) (rest : List ℕ) (k : Kernel T F K) (p : Process) (vm : ProcessVm)
      → lookup pid k.processes ≡ some p
      → is_ready p.status ≡ true
      → p.proc_vm ≡ some vm
      → switch_next (record k { ready_queue = pid ∷ rest })
        ≡ returns (
          p.context,
          record k {
            processes = insert pid (resume p) k.processes;
            ready_queue = rest;
            current = pid;
            cr3 = vm.root;
          },
        )
  unfolding switch_next
  next_first pid rest k p vm there is has =
      rw (fetch_first pid (length rest) rest k p there is, has) refl

  first :
      (pid : ℕ) (rest : List ℕ) (k : Kernel T F K)
      → IsKept (λ j. false) (λ j. 0) k.processes (pid ∷ rest) k.waiting k.families
      → Resumes pid rest
          (record k { ready_queue = pid ∷ rest })
          (switch_next (record k { ready_queue = pid ∷ rest }))
  unfolding context_at
  first pid rest k kept =
      let (p, vm, there, is, has) = ready_there pid rest k kept in
      rw (next_first pid rest k p vm there is has) (record {
        scheduled =
            resume-IsKept (λ j. 0) k.processes rest k.waiting k.families pid (resume p) kept refl
              (ground (arith, has));
        current = refl;
        queue = refl;
        restored = ground (arith, there);
        contexts = λ j. ground (arith, there, lookup-insert j pid (resume p) k.processes);
        others = λ j other. ground (arith, other, lookup-insert j pid (resume p) k.processes);
        waiting = refl;
        families = refl;
      })

  -- A kernel in which no process runs goes on with the first of the queue.
  pub switch_next-Resumes :
      (pid : ℕ) (rest : List ℕ) (k : Kernel T F K)
      → IsIdle k
      → k.ready_queue ≡ pid ∷ rest
      → Resumes pid rest k (switch_next k)
  switch_next-Resumes pid rest k idle e =
      subst
        (λ q.
          Resumes pid rest (record k { ready_queue = q })
            (switch_next (record k { ready_queue = q })))
        (sym e)
        (first pid rest k
          (subst (λ q. IsKept (λ j. false) (λ j. 0) k.processes q k.waiting k.families) e idle))
