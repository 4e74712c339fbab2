-- ===== src/Proc/Schedule.antt =====
-- When the queues of pkg/kernel/src/proc/manager.rs and the semaphores agree with the status of the
-- processes, and the changes of status that keep them so.
pub mod Changes
pub mod Parking
pub mod Fetching
pub mod Switching
pub mod RoundRobin
pub mod Fairness
pub mod Forking
pub mod Forked
pub mod Calls
pub mod SemCalls
pub mod Reach
pub mod FileCalls
pub mod Spawned
pub mod Spawning
pub mod Waking
pub mod Semaphores
pub mod Dropping
pub mod Exiting
pub mod Waiting
use sysu_ysosv.Prelude.{
  ℕ, zero, suc, ◌+◌, ◌≤◌, ◌<◌, ◌≡◌, ◌≢◌, refl, sym, ◌∙◌, Bool, true, false, Option, none, some,
  List, [], ◌∷◌, ◌++◌, arith, count, count-append, ◌==◌, ◌||◌, not, if◌then◌else◌, is_some,
  Bool-cases, inl, inr,
}
use sysu_ysosv.Prelude.Map.{Map, lookup, insert, Ascends, lookup-insert}
use sysu_ysosv.Prelude.Map.Totals.{total}
use sysu_ysosv.Sync.{Sems}
use sysu_ysosv.Proc.State.{
  ProgramStatus, Process, Kernel, Family, running, ready, blocked, dead, is_ready, is_dead,
}

abbrev pub is_running : ProgramStatus → Bool
is_running running = true
is_running ready = false
is_running blocked = false
is_running dead = false

abbrev pub is_blocked : ProgramStatus → Bool
is_blocked blocked = true
is_blocked running = false
is_blocked ready = false
is_blocked dead = false

abbrev pub bit : Bool → ℕ
bit true = 1
bit false = 0

-- The status of a process; one that is not there counts as dead.
unfoldable pub status_at : ℕ → Map Process → ProgramStatus
status_at pid ps = elim (lookup pid ps) [ none ↦ dead | some p ↦ p.status ]

pub status_at-insert :
    (j pid : ℕ) (p : Process) (ps : Map Process)
    → status_at j (insert pid p ps) ≡ (if pid == j then p.status else status_at j ps)
unfolding status_at
status_at-insert j pid p ps = ground (arith, lookup-insert j pid p ps)

-- A process that is not dead has its memory.
unfoldable pub has_vm : ℕ → Map Process → Bool
has_vm pid ps = elim (lookup pid ps) [
  | none ↦ true
  | some p ↦ is_dead p.status || is_some p.proc_vm
]

pub has_vm-insert :
    (j pid : ℕ) (p : Process) (ps : Map Process)
    → has_vm j (insert pid p ps)
      ≡ (if pid == j then is_dead p.status || is_some p.proc_vm else has_vm j ps)
unfolding has_vm
has_vm-insert j pid p ps = ground (arith, lookup-insert j pid p ps)

-- How often a process waits for a semaphore of a set.
abbrev pub waits_for : ℕ → Sems → ℕ
waits_for pid sems = total (λ s. count pid s.wait_queue) sems

-- How often a process waits, for the end of a process or for a semaphore.
abbrev pub parked : {F : Type 0} → ℕ → Map (List ℕ) → Map (Family F) → ℕ
parked pid waiting families =
    total (count pid) waiting + total (λ f. waits_for pid f.semaphores) families

-- The ready queue holds the ready processes, each once; a process that waits is blocked and waits for
-- one thing; the running processes are those of `runs`; each process that is not dead has memory,
-- and none has number 0. `held` counts processes that are blocked and about to be woken up, or
-- about to wait.
pub record IsKept {F : Type 0} (runs : ℕ → Bool) (held : ℕ → ℕ) (processes : Map Process)
    (ready_queue : List ℕ) (waiting : Map (List ℕ)) (families : Map (Family F)) : Type 0 where
  pub queued : (j : ℕ) → count j ready_queue ≡ bit (is_ready (status_at j processes))
  pub waits :
      (j : ℕ) → parked j waiting families + held j ≤ bit (is_blocked (status_at j processes))
  pub active : (j : ℕ) → is_running (status_at j processes) ≡ runs j
  pub backed : (j : ℕ) → has_vm j processes ≡ true
  pub absent : is_dead (status_at 0 processes) ≡ true
  pub waiting_Ascends : Ascends 0 waiting
  pub families_Ascends : Ascends 0 families
  pub sems_Ascends : (id : ℕ) (f : Family F) → lookup id families ≡ some f → Ascends 0 f.semaphores

module _ {T F K : Type 0} where
  -- No process runs.
  abbrev pub IsIdle : Kernel T F K → Type 0
  IsIdle k = IsKept (λ j. false) (λ j. 0) k.processes k.ready_queue k.waiting k.families

  -- The process that runs is that of the processor.
  abbrev pub IsScheduled : Kernel T F K → Type 0
  IsScheduled k =
      IsKept (λ j. j == k.current) (λ j. 0) k.processes k.ready_queue k.waiting k.families

pub status_there :
    (pid : ℕ) (p : Process) (ps : Map Process)
    → lookup pid ps ≡ some p
    → status_at pid ps ≡ p.status
unfolding status_at
status_there pid p ps there = rw (status_at, there) refl
