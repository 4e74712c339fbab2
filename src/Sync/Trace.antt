-- ===== src/Sync/Trace.antt =====
-- What a sequence of `wait` and `signal` calls on one semaphore does.
use sysu_ysosv.Prelude.{
  ℕ, suc, ◌+◌, ◌<◌, ◌^◌, ◌≡◌, refl, sym, ap, ◌⊎◌, ◌≡⟨◌⟩◌, ◌∎, List, [], ◌∷◌, ◌++◌, arith,
  append-nil, append_assoc,
}
use sysu_ysosv.Sync.{Semaphore, SemaphoreResult, ok, block, wake_up, wait, signal}

pub data Call : Type 0 where
  waits : ℕ → Call
  signals : Call

unfoldable pub step : Semaphore → Call → SemaphoreResult × Semaphore
unfolding wait signal
step s (waits pid) = wait s pid
step s signals = signal s

-- The answers of the calls, in order, and the semaphore after them.
unfoldable pub run : Semaphore → List Call → List SemaphoreResult × Semaphore
unfolding step
run s [] = ([], s)
run s (c ∷ cs) = let (r, s') = step s c in let (rs, s'') = run s' cs in (r ∷ rs, s'')

abbrev pub blocked : List SemaphoreResult → List ℕ
blocked [] = []
blocked (block pid ∷ rs) = pid ∷ blocked rs
blocked (_ ∷ rs) = blocked rs

abbrev pub woken : List SemaphoreResult → List ℕ
woken [] = []
woken (wake_up pid ∷ rs) = pid ∷ woken rs
woken (_ ∷ rs) = woken rs

-- How many calls are signals, and how many waits have been let through, at once or by a wake-up.
abbrev pub posts : List Call → ℕ
posts [] = 0
posts (waits _ ∷ cs) = posts cs
posts (signals ∷ cs) = suc (posts cs)

abbrev pub passed : List Call → List SemaphoreResult → ℕ
passed [] rs = 0
passed (c ∷ cs) [] = 0
passed (waits _ ∷ cs) (ok ∷ rs) = suc (passed cs rs)
passed (_ ∷ cs) (wake_up _ ∷ rs) = suc (passed cs rs)
passed (_ ∷ cs) (_ ∷ rs) = passed cs rs

-- Nobody is queued while the count is positive.
abbrev pub IsTight : Semaphore → Type 0
IsTight s = (s.count ≡ 0) ⊎ (s.wait_queue ≡ [])

step-IsTight : (s : Semaphore) (c : Call) → IsTight s → IsTight (step s c).1
unfolding step
step-IsTight s (waits pid) h = ground arith
step-IsTight s signals h = ground arith

-- After any calls on a semaphore whose count was 0 or whose queue was empty, its count is 0 or its
-- queue is empty: no process waits while a unit is free.
pub run-IsTight : (s : Semaphore) (cs : List Call) → IsTight s → IsTight (run s cs).1
unfolding run
run-IsTight s [] h = h
run-IsTight s (c ∷ cs) h = run-IsTight (step s c).1 cs (step-IsTight s c h)

step-order :
    (s : Semaphore) (c : Call)
    → let (r, s') = step s c in woken (r ∷ []) ++ s'.wait_queue ≡ s.wait_queue ++ blocked (r ∷ [])
unfolding step
step-order s (waits pid) = ground (arith, append-nil s.wait_queue)
step-order s signals = ground (arith, append-nil s.wait_queue)

woken-cons :
    (r : SemaphoreResult) (rs : List SemaphoreResult) → woken (r ∷ rs) ≡ woken (r ∷ []) ++ woken rs
woken-cons ok rs = refl
woken-cons _ rs = refl

blocked-cons :
    (r : SemaphoreResult) (rs : List SemaphoreResult)
    → blocked (r ∷ rs) ≡ blocked (r ∷ []) ++ blocked rs
blocked-cons ok rs = refl
blocked-cons _ rs = refl

-- Processes are woken in the order in which they were blocked: those woken, then those still
-- queued, are those queued before, then those blocked meanwhile.
pub run-order :
    (s : Semaphore) (cs : List Call)
    → let (rs, s') = run s cs in woken rs ++ s'.wait_queue ≡ s.wait_queue ++ blocked rs
unfolding run
run-order s [] = ground (arith, append-nil s.wait_queue)
run-order s (c ∷ cs) =
    let (r, t) = step s c in
    let (rs, u) = run t cs in
    woken (r ∷ rs) ++ u.wait_queue
    ≡⟨ rw (woken-cons r rs) (append_assoc (woken (r ∷ [])) (woken rs) u.wait_queue) ⟩
      woken (r ∷ []) ++ (woken rs ++ u.wait_queue)
    ≡⟨ ap (λ l. woken (r ∷ []) ++ l) (run-order t cs) ⟩
      woken (r ∷ []) ++ (t.wait_queue ++ blocked rs)
    ≡⟨ sym (append_assoc (woken (r ∷ [])) t.wait_queue (blocked rs)) ⟩
      (woken (r ∷ []) ++ t.wait_queue) ++ blocked rs
    ≡⟨ ap (λ l. l ++ blocked rs) (step-order s c) ⟩ (s.wait_queue ++ blocked (r ∷ [])) ++ blocked rs
    ≡⟨ append_assoc s.wait_queue (blocked (r ∷ [])) (blocked rs) ⟩
      s.wait_queue ++ (blocked (r ∷ []) ++ blocked rs)
    ≡⟨ ap (λ l. s.wait_queue ++ l) (sym (blocked-cons r rs)) ⟩ s.wait_queue ++ blocked (r ∷ rs) ∎

-- While the count cannot overflow, no unit is lost or made up: the count and the signals are the
-- count afterwards and the waits let through.
pub run-conserves :
    (s : Semaphore) (cs : List Call)
    → s.count + posts cs < 2 ^ 64
    → let (rs, s') = run s cs in s.count + posts cs ≡ s'.count + passed cs rs
unfolding run step
run-conserves s [] h = omega arith
run-conserves s (waits pid ∷ cs) h = ground (arith, run-conserves (step s (waits pid)).1 cs)
run-conserves s (signals ∷ cs) h = ground (arith, run-conserves (step s signals).1 cs)
