-- ===== src/Sync/Sets.antt =====
-- The set of semaphores of a process family, seen through its keys.
use sysu_ysosv.Prelude.{
  ℕ, ◌≡◌, ◌↔◌, none, some, List, [], ◌∷◌, true, false, arith, ◌==◌, if◌then◌else◌,
}
use sysu_ysosv.Prelude.Map.{lookup, lookup-insert, lookup-remove}
use sysu_ysosv.Sync.{
  Semaphore, ok, not_exist, wake_up, Sems, new, wait, signal, insert_sem, remove_sem, wait_sem,
  signal_sem,
}

-- A new semaphore answers true exactly if its key was free; it is stored with no process in its
-- queue either way, and the other keys keep theirs.
pub insert_sem_lem :
    (key value j : ℕ) (sems : Sems)
    → let (free, sems') = insert_sem key value sems in
      ((free ≡ true) ↔ (lookup key sems ≡ none))
      × (lookup j sems'
          ≡ (if key == j then some (record { count = value; wait_queue = [] }) else lookup j sems))
unfolding insert_sem
insert_sem_lem key value j sems =
    ((λ e. ground arith, λ e. ground arith), ground (arith, lookup-insert j key (new value) sems))

-- Removing answers false exactly if the key was free, after which every call at it answers that
-- it does not exist; the other keys keep their semaphores.
pub remove_sem_lem :
    (key pid j : ℕ) (sems : Sems)
    → let (found, sems') = remove_sem key sems in
      ((found ≡ false) ↔ (lookup key sems ≡ none))
      × (wait_sem key pid sems' ≡ (not_exist, sems'))
      × (signal_sem key sems' ≡ (not_exist, sems'))
      × (lookup j sems' ≡ (if key == j then none else lookup j sems))
unfolding remove_sem wait_sem signal_sem
remove_sem_lem key pid j sems = (
  (λ e. ground arith, λ e. ground arith),
  ground (arith, lookup-remove key key sems),
  ground (arith, lookup-remove key key sems),
  lookup-remove j key sems,
)

-- A wait or a signal at an existing key does what the semaphore there does, and touches no other
-- key.
pub at_key_lem :
    (key pid j : ℕ) (sems : Sems) (s : Semaphore)
    → lookup key sems ≡ some s
    → let (r, waited) = wait_sem key pid sems in
      let (r', signalled) = signal_sem key sems in
      (r ≡ (wait s pid).0)
      × (lookup j waited ≡ (if key == j then some (wait s pid).1 else lookup j sems))
      × (r' ≡ (signal s).0)
      × (lookup j signalled ≡ (if key == j then some (signal s).1 else lookup j sems))
unfolding wait_sem signal_sem
at_key_lem key pid j sems s e = (
  ground arith,
  ground (arith, lookup-insert j key (wait s pid).1 sems),
  ground arith,
  ground (arith, lookup-insert j key (signal s).1 sems),
)

-- Making a semaphore anew at a key with processes in its queue answers false and forgets them:
-- the next signal at the key wakes nobody.
insert_sem_forgets :
    (key value pid : ℕ) (rest : List ℕ) (sems : Sems) (s : Semaphore)
    → lookup key sems ≡ some s
    → s.wait_queue ≡ pid ∷ rest
    → ((signal_sem key sems).0 ≡ wake_up pid)
      × ((insert_sem key value sems).0 ≡ false)
      × ((signal_sem key (insert_sem key value sems).1).0 ≡ ok)
unfolding insert_sem signal_sem
insert_sem_forgets key value pid rest sems s e q =
    (ground arith, ground arith, ground (arith, lookup-insert key key (new value) sems))
