-- ===== src/Storage/Walk/Visits.antt =====
-- pkg/storage/src/fs/fat16/impls.rs: the entries of a directory one after the other, as the specification of
-- the walk.
use sysu_ysosv.Prelude.{
  ℕ, zero, suc, ◌+◌, ◌≡◌, ◌⊎◌, inl, inr, refl, true, false, List, [], ◌∷◌, arith, if◌then◌else◌,
  Bool-cases,
}
use sysu_ysosv.Prelude.Result.{Result, ok, err, Result-cases}
use sysu_ysosv.Storage.Device.{FsError}
use sysu_ysosv.Storage.Entries.{Externals, DirEntry, is_valid}
use sysu_ysosv.Storage.Walk.{Scan, more, done, failed}

-- The specification: the closure is run on the entries of a list.
unfoldable pub fold_entries : {A E B : Type 0} → (A → E → Result B A) → A → List E → Result B A
fold_entries f a [] = ok a
fold_entries f a (e ∷ es) = elim (f a e) [ err b ↦ err b | ok a' ↦ fold_entries f a' es ]

unfoldable pub answer : {A : Type 0} → Scan A → Result FsError A
answer (more a) = ok a
answer (done a) = ok a
answer (failed e) = err e

module _ (x : Externals) (entries : ℕ → DirEntry x) where
  -- The entries from number `i` on, `n` at most, up to the first that is not valid.
  unfoldable pub listing : ℕ → ℕ → List (DirEntry x)
  listing zero i = []
  listing (suc n) i =
      let rest = listing n (suc i) in if is_valid x (entries i) then entries i ∷ rest else []

  module _ {A : Type 0} (f : A → DirEntry x → Result FsError A) where
    unfoldable pub visit : ℕ → ℕ → A → Scan A
    visit zero i a = more a
    visit (suc n) i a = elim (is_valid x (entries i)) [
      | false ↦ done a
      | true ↦ elim (f a (entries i)) [ err e ↦ failed e | ok a' ↦ visit n (suc i) a' ]
    ]

    pub visit-zero : (i : ℕ) (a : A) → visit 0 i a ≡ more a
    unfolding visit
    visit-zero i a = refl

    pub visit-same : (n i j : ℕ) (a : A) → (n ≡ 0) ⊎ (i ≡ j) → visit n i a ≡ visit n j a
    visit-same n i j a (inl e) = rw (e, visit-zero i a, visit-zero j a) refl
    visit-same n i j a (inr e) = rw e refl

    -- The three ways of a round.
    pub visit-off : (n i : ℕ) (a : A) → is_valid x (entries i) ≡ false → visit (suc n) i a ≡ done a
    unfolding visit
    visit-off n i a off = rw (visit, off) refl

    pub visit-bad :
        (n i : ℕ) (a : A) {e : FsError}
        → is_valid x (entries i) ≡ true
        → f a (entries i) ≡ err e
        → visit (suc n) i a ≡ failed e
    unfolding visit
    visit-bad n i a on bad = rw (visit, on, bad) refl

    pub visit-good :
        (n i : ℕ) (a : A) {a' : A}
        → is_valid x (entries i) ≡ true
        → f a (entries i) ≡ ok a'
        → visit (suc n) i a ≡ visit n (suc i) a'
    unfolding visit
    visit-good n i a on good = rw (visit, on, good) refl

    pub visit-listing : (n i : ℕ) (a : A) → answer (visit n i a) ≡ fold_entries f a (listing n i)
    unfolding answer visit listing fold_entries
    visit-listing zero i a = refl
    visit-listing (suc n) i a = elim (Bool-cases (is_valid x (entries i))) [
      | inr off ↦ rw (visit-off n i a off, off) refl
      | inl on ↦ elim (Result-cases (f a (entries i))) [
        | inl (e, bad) ↦ rw (visit-bad n i a on bad, on, fold_entries, bad) refl
        | inr (a', good) ↦
            rw (visit-good n i a on good, on, fold_entries, good) (visit-listing n (suc i) a')
      ]
    ]

    -- What follows the first entries.
    unfoldable pub then_visit : ℕ → ℕ → Scan A → Scan A
    then_visit n i (more a) = visit n i a
    then_visit n i (done a) = done a
    then_visit n i (failed e) = failed e

    pub visit-split : (m n i : ℕ) (a : A) → visit (m + n) i a ≡ then_visit n (i + m) (visit m i a)
    unfolding visit then_visit
    visit-split zero n i a =
        let same : i + 0 ≡ i = omega arith in
        let same' : 0 + n ≡ n = omega arith in rw (same, same') refl
    visit-split (suc m) n i a =
        let both : suc m + n ≡ suc (m + n) = omega arith in
        let next : i + suc m ≡ suc i + m = omega arith in
        elim (Bool-cases (is_valid x (entries i))) [
          | inr off ↦ rw (both, visit-off (m + n) i a off, visit-off m i a off) refl
          | inl on ↦ elim (Result-cases (f a (entries i))) [
            | inl (e, bad) ↦ rw (both, visit-bad (m + n) i a on bad, visit-bad m i a on bad) refl
            | inr (a', good) ↦
                rw (both, visit-good (m + n) i a on good, visit-good m i a on good, next)
                  (visit-split m n (suc i) a')
          ]
        ]
