-- ===== src/Tests/SyncTests.antt =====
-- Semaphores: runs, and the theorems at concrete inputs.
use sysu_ysosv.Prelude.{◌+◌, ◌≡◌, refl, inr, [], ◌∷◌, ◌++◌, arith}
use sysu_ysosv.Sync.{Semaphore, ok, block, wake_up, Sems}
use sysu_ysosv.Sync.Trace.{
  waits, signals, run, woken, blocked, passed, IsTight, run-IsTight, run-order, run-conserves, Call,
}
use sysu_ysosv.Prelude.{List}

abbrev one : Semaphore
one = record { count = 1; wait_queue = [] }

abbrev calls : List Call
calls = waits 3 ∷ waits 4 ∷ waits 5 ∷ signals ∷ signals ∷ signals ∷ []

run-calls : (run one calls).0 ≡ ok ∷ block 4 ∷ block 5 ∷ wake_up 4 ∷ wake_up 5 ∷ ok ∷ []
unfolding run
run-calls = refl

run-IsTight_example : IsTight (run one calls).1
run-IsTight_example = run-IsTight one calls (inr refl)

run-order_example :
    woken (run one calls).0 ++ (run one calls).1.wait_queue ≡ blocked (run one calls).0
run-order_example = run-order one calls

run-conserves_example : 4 ≡ (run one calls).1.count + passed calls (run one calls).0
run-conserves_example = run-conserves one calls (omega arith)

-- Key 7 holds a semaphore for which process 4 waits.
abbrev sems : Sems
sems = (7, record { count = 0; wait_queue = 4 ∷ [] }) ∷ []
