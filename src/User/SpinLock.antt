-- ===== src/User/SpinLock.antt =====
-- SpinLock of pkg/lib/src/sync.rs, and pkg/app/spin/src/main.rs, whose threads count under one. The accesses
-- to shared memory, which forks of a process have in common, are the steps of a thread; a timer
-- interrupt may come between any two of them. `delay` does nothing but wait.
pub mod Counting
use sysu_ysosv.Prelude.{
  ℕ, zero, suc, ◌+◌, ◌*◌, ◌%◌, ◌^◌, ◌≡◌, Bool, true, false, List, [], ◌∷◌, ◌++◌,
}

-- SPINLOCK.bolt and COUNTER
pub record Shared : Type 0 where
  pub bolt : Bool
  pub counter : ℕ

-- Whether `compare_exchange(false, true)` of acquire succeeds, and what it leaves.
unfoldable pub try_acquire : Bool → Bool × Bool
try_acquire true = (false, true)
try_acquire false = (true, true)

-- SpinLock::release
unfoldable pub release : Bool → Bool
release bolt = false

-- Where a thread stands in do_counter_inc, with the rounds that are left after this one.
pub data Thread : Type 0 where
  rounds : (left : ℕ) → Thread  -- at the head of the loop, this many rounds to go
  acquired : (left : ℕ) → Thread  -- before it reads COUNTER
  read : (left val : ℕ) → Thread  -- before it writes `val + 1`
  wrote : (left : ℕ) → Thread  -- before it releases the lock

-- One access of a thread.
pub data Move (m : Shared) : Thread → Shared → Thread → Type 0 where
  acquires :
      (left : ℕ)
      → (try_acquire m.bolt).0 ≡ true
      → Move m (rounds (suc left)) (record m { bolt = (try_acquire m.bolt).1 }) (acquired left)
  spins :
      (left : ℕ)
      → (try_acquire m.bolt).0 ≡ false
      → Move m (rounds (suc left)) (record m { bolt = (try_acquire m.bolt).1 }) (rounds (suc left))
  reads : (left : ℕ) → Move m (acquired left) m (read left m.counter)
  writes :
      (left val : ℕ)
      → Move m (read left val) (record m { counter = (val + 1) % 2 ^ 64 }) (wrote left)
  releases : (left : ℕ) → Move m (wrote left) (record m { bolt = release m.bolt }) (rounds left)

pub record System : Type 0 where
  pub shared : Shared
  pub threads : List Thread

-- Some thread makes a move.
pub data Step (s t : System) : Type 0 where
  picks :
      (before after : List Thread) (p p' : Thread)
      → s.threads ≡ before ++ p ∷ after
      → t.threads ≡ before ++ p' ∷ after
      → Move s.shared p t.shared p'
      → Step s t

pub data Reach (s : System) : System → Type 0 where
  here : Reach s s
  after : {t u : System} → Reach s t → Step t u → Reach s u

-- `count` threads that are to make `n` rounds each, at the start of the program
abbrev pub all_at : ℕ → ℕ → List Thread
all_at n zero = []
all_at n (suc count) = rounds n ∷ all_at n count

abbrev pub start : ℕ → ℕ → System
start n count = record { shared = record { bolt = false; counter = 0 }; threads = all_at n count }
