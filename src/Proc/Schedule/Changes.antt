-- ===== src/Proc/Schedule/Changes.antt =====
-- One process gets another status, and the queues change with it.
use sysu_ysosv.Prelude.{
  ℕ, ◌+◌, ◌≤◌, ◌≡◌, ◌≢◌, refl, Bool, true, false, none, List, [], ◌∷◌, ◌++◌, arith, count-append,
  ◌==◌, is_some,
}
use sysu_ysosv.Prelude.Map.{Map, lookup, insert}
use sysu_ysosv.Proc.State.{Process, Family, running, ready, blocked, dead}
use sysu_ysosv.Proc.Schedule.{IsKept, bit, status_at, status_at-insert, has_vm-insert}

module _ {F : Type 0} (held : ℕ → ℕ) (processes : Map Process) (queue : List ℕ)
    (waiting : Map (List ℕ)) (families : Map (Family F)) (pid : ℕ) (p : Process) where
  -- A blocked process that is held becomes ready and is queued.
  pub wake-IsKept :
      (runs : ℕ → Bool)
      → IsKept runs (λ j. held j + bit (pid == j)) processes queue waiting families
      → p.status ≡ ready
      → is_some p.proc_vm ≡ true
      → IsKept runs held (insert pid p processes) (queue ++ pid ∷ []) waiting families
  wake-IsKept runs kept e vm = record {
    queued = λ j. ground (
      arith,
      status_at-insert j pid p processes,
      kept.queued j,
      kept.waits pid,
      kept.active pid,
      count-append j queue (pid ∷ []),
      e,
    );
    waits = λ j. ground (arith, status_at-insert j pid p processes, kept.waits j, e);
    active =
        λ j. ground (arith, status_at-insert j pid p processes, kept.active j, kept.waits j, e);
    backed = λ j. ground (arith, has_vm-insert j pid p processes, kept.backed j, vm);
    absent = ground (arith, status_at-insert 0 pid p processes, kept.absent, kept.waits 0, e);
    waiting_Ascends = kept.waiting_Ascends;
    families_Ascends = kept.families_Ascends;
    sems_Ascends = kept.sems_Ascends;
  }

  -- The process that runs becomes ready and is queued.
  pub pause-IsKept :
      IsKept (λ j. j == pid) held processes queue waiting families
      → p.status ≡ ready
      → is_some p.proc_vm ≡ true
      → IsKept (λ j. false) held (insert pid p processes) (queue ++ pid ∷ []) waiting families
  pause-IsKept kept e vm = record {
    queued = λ j. ground (
      arith,
      status_at-insert j pid p processes,
      kept.queued j,
      kept.active pid,
      count-append j queue (pid ∷ []),
      e,
    );
    waits = λ j. ground (arith, status_at-insert j pid p processes, kept.waits j, kept.active j, e);
    active = λ j. ground (arith, status_at-insert j pid p processes, kept.active j, e);
    backed = λ j. ground (arith, has_vm-insert j pid p processes, kept.backed j, vm);
    absent = ground (arith, status_at-insert 0 pid p processes, kept.absent, kept.active 0, e);
    waiting_Ascends = kept.waiting_Ascends;
    families_Ascends = kept.families_Ascends;
    sems_Ascends = kept.sems_Ascends;
  }

  -- The process that runs becomes blocked.
  pub block-IsKept :
      IsKept (λ j. j == pid) held processes queue waiting families
      → p.status ≡ blocked
      → is_some p.proc_vm ≡ true
      → IsKept
          (λ j. false)
          (λ j. held j + bit (pid == j))
          (insert pid p processes)
          queue
          waiting
          families
  block-IsKept kept e vm = record {
    queued =
        λ j. ground (arith, status_at-insert j pid p processes, kept.queued j, kept.active j, e);
    waits = λ j. ground (arith, status_at-insert j pid p processes, kept.waits j, kept.active j, e);
    active = λ j. ground (arith, status_at-insert j pid p processes, kept.active j, e);
    backed = λ j. ground (arith, has_vm-insert j pid p processes, kept.backed j, vm);
    absent = ground (arith, status_at-insert 0 pid p processes, kept.absent, kept.active 0, e);
    waiting_Ascends = kept.waiting_Ascends;
    families_Ascends = kept.families_Ascends;
    sems_Ascends = kept.sems_Ascends;
  }

  -- The process that runs becomes dead.
  pub die-IsKept :
      IsKept (λ j. j == pid) held processes queue waiting families
      → p.status ≡ dead
      → IsKept (λ j. false) held (insert pid p processes) queue waiting families
  die-IsKept kept e = record {
    queued =
        λ j. ground (arith, status_at-insert j pid p processes, kept.queued j, kept.active j, e);
    waits = λ j. ground (arith, status_at-insert j pid p processes, kept.waits j, kept.active j, e);
    active = λ j. ground (arith, status_at-insert j pid p processes, kept.active j, e);
    backed = λ j. ground (arith, has_vm-insert j pid p processes, kept.backed j, e);
    absent = ground (arith, status_at-insert 0 pid p processes, kept.absent, e);
    waiting_Ascends = kept.waiting_Ascends;
    families_Ascends = kept.families_Ascends;
    sems_Ascends = kept.sems_Ascends;
  }

  -- The first process of the queue becomes the one that runs.
  pub resume-IsKept :
      IsKept (λ j. false) held processes (pid ∷ queue) waiting families
      → p.status ≡ running
      → is_some p.proc_vm ≡ true
      → IsKept (λ j. j == pid) held (insert pid p processes) queue waiting families
  resume-IsKept kept e vm = record {
    queued =
        λ j. ground (arith, status_at-insert j pid p processes, kept.queued j, kept.active j, e);
    waits = λ j. ground (arith, status_at-insert j pid p processes, kept.waits j, kept.queued j, e);
    active = λ j. ground (arith, status_at-insert j pid p processes, kept.active j, e);
    backed = λ j. ground (arith, has_vm-insert j pid p processes, kept.backed j, vm);
    absent = ground (arith, status_at-insert 0 pid p processes, kept.absent, kept.queued 0, e);
    waiting_Ascends = kept.waiting_Ascends;
    families_Ascends = kept.families_Ascends;
    sems_Ascends = kept.sems_Ascends;
  }

  -- A process that was not there becomes ready and is queued.
  pub begin-IsKept :
      (runs : ℕ → Bool)
      → IsKept runs held processes queue waiting families
      → lookup pid processes ≡ none
      → pid ≢ 0
      → p.status ≡ ready
      → is_some p.proc_vm ≡ true
      → IsKept runs held (insert pid p processes) (queue ++ pid ∷ []) waiting families
  unfolding status_at
  begin-IsKept runs kept new pos e vm =
      let was : status_at pid processes ≡ dead = rw (status_at, new) refl in
      record {
        queued = λ j. ground (
          arith,
          status_at-insert j pid p processes,
          kept.queued j,
          kept.queued pid,
          was,
          count-append j queue (pid ∷ []),
          e,
        );
        waits = λ j. ground (arith, status_at-insert j pid p processes, kept.waits j, was, e);
        active = λ j. ground (arith, status_at-insert j pid p processes, kept.active j, was, e);
        backed = λ j. ground (arith, has_vm-insert j pid p processes, kept.backed j, vm);
        absent = ground (arith, status_at-insert 0 pid p processes, kept.absent, e);
        waiting_Ascends = kept.waiting_Ascends;
        families_Ascends = kept.families_Ascends;
        sems_Ascends = kept.sems_Ascends;
      }

module _ {F : Type 0} (held : ℕ → ℕ) (processes : Map Process) (queue : List ℕ)
    (waiting : Map (List ℕ)) (families : Map (Family F)) where
  -- Fewer processes are held.
  pub fewer-IsKept :
      (runs : ℕ → Bool) (held' : ℕ → ℕ)
      → IsKept runs held processes queue waiting families
      → ((j : ℕ) → held' j ≤ held j)
      → IsKept runs held' processes queue waiting families
  fewer-IsKept runs held' kept le = record {
    queued = kept.queued;
    waits = λ j. omega (arith, kept.waits j, le j);
    active = kept.active;
    backed = kept.backed;
    absent = kept.absent;
    waiting_Ascends = kept.waiting_Ascends;
    families_Ascends = kept.families_Ascends;
    sems_Ascends = kept.sems_Ascends;
  }
