-- ===== src/Prelude/Map/Totals.antt =====
-- The sum of a measure over the values of a map with ascending keys.
use sysu_ysosv.Prelude.{
  ℕ, suc, ◌+◌, ◌≤◌, ◌≡◌, refl, Option, none, some, [], ◌∷◌, arith, ltb, ◌==◌, Bool-cases, inl, inr,
}
use sysu_ysosv.Prelude.Map.{Map, lookup, insert, remove, Ascends}

-- The measure of what an option holds.
abbrev pub held {ℓ} : {V : Type ℓ} → (V → ℕ) → Option V → ℕ
held f none = 0
held f (some v) = f v

module _ {ℓ} {V : Type ℓ} where
  abbrev pub total : (V → ℕ) → Map V → ℕ
  total f [] = 0
  total f ((k, v) ∷ m) = f v + total f m

  weaken : (n k : ℕ) (m : Map V) → Ascends k m → n ≤ k → Ascends n m
  weaken n k [] a le = tt
  weaken n k ((j, v) ∷ m) a le = (omega (arith, a.0), a.1)

  lookup_below : (n k : ℕ) (m : Map V) → Ascends n m → suc k ≤ n → lookup k m ≡ none
  unfolding lookup
  lookup_below n k [] a le = refl
  lookup_below n k ((j, v) ∷ m) a le =
      ground (arith, a.0, lookup_below (suc j) k m a.1 (omega (arith, a.0)))

  pub insert-Ascends :
      (n k : ℕ) (v : V) (m : Map V) → Ascends n m → n ≤ k → Ascends n (insert k v m)
  unfolding insert
  insert-Ascends n k v [] a le = (le, tt)
  insert-Ascends n k v ((j, w) ∷ m) a le = elim (Bool-cases (ltb k j)) [
    | inl lt ↦ rw lt (le, (ground arith, a.1))
    | inr ge ↦ elim (Bool-cases (j == k)) [
      | inl same ↦ rw (ge, same) (le, weaken (suc k) (suc j) m a.1 (ground arith))
      | inr other ↦ rw (ge, other) (a.0, insert-Ascends (suc j) k v m a.1 (ground arith))
    ]
  ]

  pub remove-Ascends : (n k : ℕ) (m : Map V) → Ascends n m → Ascends n (remove k m)
  unfolding remove
  remove-Ascends n k [] a = tt
  remove-Ascends n k ((j, w) ∷ m) a = elim (Bool-cases (j == k)) [
    | inl same ↦ rw same (remove-Ascends n k m (weaken n (suc j) m a.1 (omega (arith, a.0))))
    | inr other ↦ rw other (a.0, remove-Ascends (suc j) k m a.1)
  ]

  pub total-insert :
      (f : V → ℕ) (n k : ℕ) (v : V) (m : Map V)
      → Ascends n m
      → total f (insert k v m) + held f (lookup k m) ≡ total f m + f v
  unfolding insert lookup
  total-insert f n k v [] a = omega arith
  total-insert f n k v ((j, w) ∷ m) a =
      ground (arith, lookup_below (suc j) k m a.1, total-insert f (suc j) k v m a.1)

  pub total-remove :
      (f : V → ℕ) (n k : ℕ) (m : Map V)
      → Ascends n m
      → total f (remove k m) + held f (lookup k m) ≡ total f m
  unfolding remove lookup
  total-remove f n k [] a = refl
  total-remove f n k ((j, w) ∷ m) a =
      ground (arith, lookup_below (suc j) k m a.1, total-remove f (suc j) k m a.1)
