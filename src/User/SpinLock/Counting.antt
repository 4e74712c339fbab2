-- ===== src/User/SpinLock/Counting.antt =====
-- Nobody counts while another does, so no increment is lost; and some thread can always go on.
use sysu_ysosv.Prelude.{
  ℕ, zero, suc, ◌+◌, ◌*◌, ◌==◌, ◌%◌, ◌^◌, ◌<◌, ◌≡◌, ◌≢◌, refl, sym, ap, subst, ◌∙◌, false, List, [],
  ◌∷◌, ◌++◌, arith, if◌then◌else◌, Bool-cases, inl, inr, ◌⊎◌,
}
use sysu_ysosv.User.SpinLock.{
  Shared, try_acquire, release, Thread, rounds, acquired, read, wrote, Move, acquires, spins, reads,
  writes, releases, System, Step, picks, Reach, here, after, all_at, start,
}

-- A sum over the threads
abbrev pub total : (Thread → ℕ) → List Thread → ℕ
total w [] = 0
total w (p ∷ ps) = w p + total w ps

total-append : (w : Thread → ℕ) (ps qs : List Thread) → total w (ps ++ qs) ≡ total w ps + total w qs
total-append w [] qs = omega arith
total-append w (p ∷ ps) qs = omega (arith, total-append w ps qs)

-- A thread has the lock.
abbrev pub holds : Thread → ℕ
holds (rounds _) = 0
holds (acquired _) = 1
holds (read _ _) = 1
holds (wrote _) = 1

-- How often it will still write
abbrev pub to_write : Thread → ℕ
to_write (rounds left) = left
to_write (acquired left) = left + 1
to_write (read left _) = left + 1
to_write (wrote left) = left

-- How many moves it will still make, if it does not spin
abbrev pub to_do : Thread → ℕ
to_do (rounds left) = 4 * left
to_do (acquired left) = 4 * left + 3
to_do (read left _) = 4 * left + 2
to_do (wrote left) = 4 * left + 1

-- What it has read is what is there.
abbrev pub UpToDate : ℕ → Thread → Type 0
UpToDate c (read _ val) = val ≡ c
UpToDate c _ = Unit {0}

abbrev pub AllUpToDate : ℕ → List Thread → Type 0
AllUpToDate c [] = Unit {0}
AllUpToDate c (p ∷ ps) = UpToDate c p × AllUpToDate c ps

-- Exactly one thread holds the lock if it is taken, and none else; COUNTER and the writes still to come
-- make `sum`; and what a thread has read is what is there.
pub record IsCounting (sum : ℕ) (s : System) : Type 0 where
  pub exclusive : total holds s.threads ≡ (if s.shared.bolt then 1 else 0)
  pub kept : s.shared.counter + total to_write s.threads ≡ sum
  pub up_to_date : AllUpToDate s.shared.counter s.threads

unheld-UpToDate : (c : ℕ) (p : Thread) → holds p ≡ 0 → UpToDate c p
unheld-UpToDate c (rounds _) h = tt
unheld-UpToDate c (acquired _) h = tt
unheld-UpToDate c (read left val) h = absurd (omega arith)
unheld-UpToDate c (wrote _) h = tt

unheld-AllUpToDate : (c : ℕ) (ps : List Thread) → total holds ps ≡ 0 → AllUpToDate c ps
unheld-AllUpToDate c [] h = tt
unheld-AllUpToDate c (p ∷ ps) h =
    (unheld-UpToDate c p (omega arith), unheld-AllUpToDate c ps (omega arith))

AllUpToDate-append :
    (c : ℕ) (ps qs : List Thread) → AllUpToDate c ps → AllUpToDate c qs → AllUpToDate c (ps ++ qs)
AllUpToDate-append c [] qs a b = b
AllUpToDate-append c (p ∷ ps) qs (this, a) b = (this, AllUpToDate-append c ps qs a b)

around-AllUpToDate :
    (c : ℕ) (ps : List Thread) (p : Thread) (qs : List Thread)
    → AllUpToDate c (ps ++ p ∷ qs)
    → AllUpToDate c ps × UpToDate c p × AllUpToDate c qs
around-AllUpToDate c [] p qs (this, rest) = (tt, this, rest)
around-AllUpToDate c (q ∷ ps) p qs (this, rest) =
    let (a, b, d) = around-AllUpToDate c ps p qs rest in ((this, a), b, d)

module _ (sum : ℕ) (ps qs : List Thread) where
  -- The system with one thread singled out
  abbrev At : Shared → Thread → Type 0
  At m p =
      (total holds ps + holds p + total holds qs ≡ (if m.bolt then 1 else 0))
      × (m.counter + total to_write ps + to_write p + total to_write qs ≡ sum)
      × AllUpToDate m.counter ps
      × UpToDate m.counter p
      × AllUpToDate m.counter qs

  Move-At : (m m' : Shared) (p p' : Thread) → sum < 2 ^ 64 → Move m p m' p' → At m p → At m' p'
  unfolding try_acquire release
  Move-At m m' p p' lt (acquires left free) (e, k, a, u, b) = elim (Bool-cases m.bolt) [
    | inl taken ↦ absurd (ground arith)
    | inr open_now ↦ (ground arith, ground arith, a, tt, b)
  ]
  Move-At m m' p p' lt (spins left taken) (e, k, a, u, b) = elim (Bool-cases m.bolt) [
    | inl it ↦ (ground arith, ground arith, a, tt, b)
    | inr it ↦ absurd (ground arith)
  ]
  Move-At m m' p p' lt (reads left) (e, k, a, u, b) = (ground arith, ground arith, a, refl, b)
  Move-At m m' p p' lt (writes left val) (e, k, a, u, b) = (
    ground arith,
    ground arith,
    unheld-AllUpToDate ((val + 1) % 2 ^ 64) ps (ground arith),
    tt,
    unheld-AllUpToDate ((val + 1) % 2 ^ 64) qs (ground arith),
  )
  Move-At m m' p p' lt (releases left) (e, k, a, u, b) = (ground arith, ground arith, a, tt, b)

module _ (sum : ℕ) (small : sum < 2 ^ 64) where
  Step-IsCounting : (s t : System) → Step s t → IsCounting sum s → IsCounting sum t
  Step-IsCounting s t (picks ps qs p p' here_was here_is move) c =
      let (a, u, b) =
        around-AllUpToDate s.shared.counter ps p qs
          (subst (AllUpToDate s.shared.counter) here_was c.up_to_date) in
      let sums : (w : Thread → ℕ) (q : Thread)
          → total w (ps ++ q ∷ qs) ≡ total w ps + w q + total w qs =
        λ w q. omega (arith, total-append w ps (q ∷ qs)) in
      let (e', k', a', u', b') = Move-At sum ps qs s.shared t.shared p p' small move (
        sym (sums holds p) ∙ ap (total holds) (sym here_was) ∙ c.exclusive,
        omega (arith, c.kept, sums to_write p, ap (total to_write) here_was),
        a,
        u,
        b,
      ) in
      record {
        exclusive = ap (total holds) here_is ∙ sums holds p' ∙ e';
        kept = omega (arith, k', sums to_write p', ap (total to_write) here_is);
        up_to_date =
            subst (AllUpToDate t.shared.counter) (sym here_is)
              (AllUpToDate-append t.shared.counter ps (p' ∷ qs) a' (u', b'));
      }

  Reach-IsCounting : {s t : System} → Reach s t → IsCounting sum s → IsCounting sum t
  Reach-IsCounting here c = c
  Reach-IsCounting {s} {t = v} (after {t} r step) c =
      Step-IsCounting t v step (Reach-IsCounting r c)

total-holds-all_at : (n count : ℕ) → total holds (all_at n count) ≡ 0
total-holds-all_at n zero = refl
total-holds-all_at n (suc count) = omega (arith, total-holds-all_at n count)

total-to_write-all_at : (n count : ℕ) → total to_write (all_at n count) ≡ n * count
total-to_write-all_at n zero = omega arith
total-to_write-all_at n (suc count) = grind (arith, total-to_write-all_at n count)

-- Suppose that a number of threads are to make `n` rounds each, and that all rounds together are fewer than
-- 2 ^ 64. Then in every state that their steps lead to, in any order, at most one of them has the
-- lock, and exactly one if it is taken, and COUNTER and the writes still to come make all rounds together.
pub spin_counts :
    (n count : ℕ) (t : System)
    → n * count < 2 ^ 64
    → Reach (start n count) t
    → (total holds t.threads ≡ (if t.shared.bolt then 1 else 0))
      × (t.shared.counter + total to_write t.threads ≡ n * count)
spin_counts n count t small r =
    let c = Reach-IsCounting (n * count) small r (record {
      exclusive = total-holds-all_at n count;
      kept = omega (arith, total-to_write-all_at n count);
      up_to_date = unheld-AllUpToDate 0 (all_at n count) (total-holds-all_at n count);
    }) in
    (c.exclusive, c.kept)

find :
    (w : Thread → ℕ) (ps : List Thread)
    → total w ps ≢ 0
    → (before : List Thread) × (p : Thread) × (rest : List Thread) × (ps ≡ before ++ p ∷ rest)
      × (w p ≢ 0)
find w [] some_left = absurd (some_left refl)
find w (p ∷ ps) some_left = elim (Bool-cases (w p == 0)) [
  | inl none_here ↦
      let (before, q, rest, e, there) = find w ps (ground arith) in
      ((p ∷ before), q, rest, ap (λ qs. p ∷ qs) e, there)
  | inr this ↦ ([], p, ps, refl, ground arith)
]

-- A thread that has the lock, or finds it free, makes a move that brings it on.
advance :
    (m : Shared) (p : Thread)
    → (m.bolt ≡ false) ⊎ (holds p ≢ 0)
    → to_do p ≢ 0
    → (m' : Shared) × (p' : Thread) × Move m p m' p' × (to_do p' < to_do p)
unfolding try_acquire
advance m (rounds zero) can left = absurd (left refl)
advance m (rounds (suc n)) (inl free) left =
    (record m { bolt = (try_acquire m.bolt).1 }, acquired n, acquires n (rw free refl), omega arith)
advance m (rounds (suc n)) (inr has) left = absurd (has refl)
advance m (acquired n) can left = (m, read n m.counter, reads n, omega arith)
advance m (read n val) can left =
    (record m { counter = (val + 1) % 2 ^ 64 }, wrote n, writes n val, omega arith)
advance m (wrote n) can left =
    (record m { bolt = release m.bolt }, rounds n, releases n, omega arith)

some-Step :
    (w : Thread → ℕ) (s : System)
    → ((p : Thread) → w p ≢ 0 → ((s.shared.bolt ≡ false) ⊎ (holds p ≢ 0)) × (to_do p ≢ 0))
    → total w s.threads ≢ 0
    → (t : System) × Step s t × (total to_do t.threads < total to_do s.threads)
some-Step w s good left =
    let (before, p, rest, e, there) = find w s.threads left in
    let (can, more) = good p there in
    let (m', p', move, less) = advance s.shared p can more in
    let t : System = record { shared = m'; threads = before ++ p' ∷ rest } in
    (
      t,
      picks before rest p p' e refl move,
      omega (
        arith,
        less,
        ap (total to_do) e,
        total-append to_do before (p ∷ rest),
        total-append to_do before (p' ∷ rest),
      ),
    )

holds-to_do : (p : Thread) → holds p ≢ 0 → to_do p ≢ 0
holds-to_do (rounds _) h = absurd (h refl)
holds-to_do (acquired _) h = omega arith
holds-to_do (read _ _) h = omega arith
holds-to_do (wrote _) h = omega arith

-- Under the same conditions, as long as there is something left to do, some thread can make a step after which there is
-- less to do: the threads never block one another for good.
pub spin_progress :
    (n count : ℕ) (t : System)
    → n * count < 2 ^ 64
    → Reach (start n count) t
    → total to_do t.threads ≢ 0
    → (u : System) × Step t u × (total to_do u.threads < total to_do t.threads)
spin_progress n count t small r left =
    let (exclusive, kept) = spin_counts n count t small r in
    elim (Bool-cases t.shared.bolt) [
      | inl taken ↦
          some-Step holds t (λ p h. (inr h, holds-to_do p h)) (ground (arith, exclusive, taken))
      | inr free ↦ some-Step to_do t (λ p h. (inl free, h)) left
    ]
