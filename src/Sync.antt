-- ===== src/Sync.antt =====
-- pkg/kernel/src/proc/sync.rs: counting semaphores with a queue of waiting processes, and the set
-- of semaphores of a process family. `count` is a usize; a release build wraps.
pub mod Trace
pub mod Sets
use sysu_ysosv.Prelude.{
  ℕ, ◌+◌, ◌-◌, ◌%◌, ◌^◌, ◌≡◌, refl, Bool, Option, none, some, List, [], ◌∷◌, ◌++◌, arith, ◌==◌,
  if◌then◌else◌, is_none, is_some,
}
use sysu_ysosv.Prelude.Map.{Map, lookup, insert, remove}

pub record Semaphore : Type 0 where
  pub count : ℕ
  pub wait_queue : List ℕ

pub data SemaphoreResult : Type 0 where
  ok not_exist : SemaphoreResult
  block wake_up : ℕ → SemaphoreResult

abbrev pub Sems : Type 0
Sems = Map Semaphore

-- Semaphore::new
unfoldable pub new : ℕ → Semaphore
new value = record { count = value; wait_queue = [] }

-- Semaphore::wait
unfoldable pub wait : Semaphore → ℕ → SemaphoreResult × Semaphore
wait s pid =
    if s.count == 0
    then (block pid, record s { wait_queue = s.wait_queue ++ pid ∷ [] })
    else (ok, record s { count = s.count - 1 })

-- Semaphore::signal
unfoldable pub signal : Semaphore → SemaphoreResult × Semaphore
signal s = elim s.wait_queue [
  | [] ↦ (ok, record s { count = (s.count + 1) % 2 ^ 64 })
  | pid ∷ rest ↦ (wake_up pid, record s { wait_queue = rest })
]

-- SemaphoreSet::insert
unfoldable pub insert_sem : ℕ → ℕ → Sems → Bool × Sems
unfolding new
insert_sem key value sems = (is_none (lookup key sems), insert key (new value) sems)

-- SemaphoreSet::remove
unfoldable pub remove_sem : ℕ → Sems → Bool × Sems
remove_sem key sems = (is_some (lookup key sems), remove key sems)

-- An operation under the lock of the semaphore at `key`.
at_key : ℕ → Sems → (Semaphore → SemaphoreResult × Semaphore) → SemaphoreResult × Sems
at_key key sems op = elim (lookup key sems) [
  | none ↦ (not_exist, sems)
  | some s ↦ let (r, s') = op s in (r, insert key s' sems)
]

-- SemaphoreSet::wait
unfoldable pub wait_sem : ℕ → ℕ → Sems → SemaphoreResult × Sems
unfolding at_key wait
wait_sem key pid sems = at_key key sems (λ s. wait s pid)

-- SemaphoreSet::signal
unfoldable pub signal_sem : ℕ → Sems → SemaphoreResult × Sems
unfolding at_key signal
signal_sem key sems = at_key key sems signal
