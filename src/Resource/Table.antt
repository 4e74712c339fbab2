-- ===== src/Resource/Table.antt =====
-- Which descriptor `open_handle` gives, and what it does to the others.
use sysu_ysosv.Prelude.{
  ℕ, suc, ◌+◌, ◌-◌, ◌≤◌, ◌<◌, ◌%◌, ◌≡◌, ◌≢◌, ◌↔◌, refl, none, some, [], ◌∷◌, false, arith, length,
  ◌==◌, if◌then◌else◌,
}
use sysu_ysosv.Prelude.Map.{Map, lookup, insert, remove, lookup-insert, lookup-remove}
use sysu_ysosv.Resource.{Resource, Handles, open_handle, close_handle}

-- The keys are k, k + 1, k + 2, ...
abbrev pub CountsFrom {ℓ} : {V : Type ℓ} → ℕ → Map V → Type 0
CountsFrom k [] = Unit {0}
CountsFrom k ((j, v) ∷ m) = (j ≡ k) × CountsFrom (suc k) m

module _ {ℓ} {V : Type ℓ} where
  CountsFrom-insert :
      (k n : ℕ) (v : V) (m : Map V)
      → CountsFrom k m
      → n ≡ k + length m
      → CountsFrom k (insert n v m) × (length (insert n v m) ≡ suc (length m))
  unfolding insert
  CountsFrom-insert k n v [] h e = ((omega arith, tt), refl)
  CountsFrom-insert k n v ((j, w) ∷ m) h e =
      ground (arith, CountsFrom-insert (suc k) n v m h.1 (omega arith))

  CountsFrom-lookup_above :
      (k n : ℕ) (m : Map V) → CountsFrom k m → k + length m ≤ n → lookup n m ≡ none
  unfolding lookup
  CountsFrom-lookup_above k n [] h le = refl
  CountsFrom-lookup_above k n ((j, w) ∷ m) h le =
      ground (arith, CountsFrom-lookup_above (suc k) n m h.1 (omega arith))

  CountsFrom-lookup :
      (k n : ℕ) (m : Map V) → CountsFrom k m → k ≤ n → n < k + length m → lookup n m ≢ none
  unfolding lookup
  CountsFrom-lookup k n [] h le lt = absurd (omega arith)
  CountsFrom-lookup k n ((j, w) ∷ m) h le lt = grind (arith, CountsFrom-lookup (suc k) n m h.1)

  length-remove_above :
      (k n : ℕ) (m : Map V) → CountsFrom k m → n < k → length (remove n m) ≡ length m
  unfolding remove
  length-remove_above k n [] h lt = refl
  length-remove_above k n ((j, w) ∷ m) h lt =
      ground (arith, length-remove_above (suc k) n m h.1 (omega arith))

  length-remove :
      (k n : ℕ) (m : Map V)
      → CountsFrom k m
      → k ≤ n
      → n < k + length m
      → suc (length (remove n m)) ≡ length m
  unfolding remove
  length-remove k n [] h le lt = absurd (omega arith)
  length-remove k n ((j, w) ∷ m) h le lt =
      ground (arith, length-remove (suc k) n m h.1, length-remove_above (suc k) n m h.1)

module _ {F : Type 0} where
  -- While the descriptors in use are 0, 1, ..., n - 1 with n below 256, opening gives the new
  -- descriptor n, which holds the resource; the others keep theirs and the descriptors in use are
  -- 0, 1, ..., n.
  open_handle_fresh :
      (res : Resource F) (j : ℕ) (handles : Handles F)
      → CountsFrom 0 handles
      → length handles < 256
      → let (fd, handles') = open_handle res handles in
        (fd ≡ length handles)
        × (lookup fd handles ≡ none)
        × (lookup j handles' ≡ (if fd == j then some res else lookup j handles))
        × CountsFrom 0 handles'
        × (length handles' ≡ suc (length handles))
  unfolding open_handle
  open_handle_fresh res j handles h lt =
      let n : ℕ = length handles in
      let fd : ℕ = n % 256 in
      let e : fd ≡ n = omega arith in
      let grown = CountsFrom-insert 0 fd res handles h (omega arith) in
      (
        e,
        CountsFrom-lookup_above 0 fd handles h (omega arith),
        lookup-insert j fd res handles,
        grown.0,
        grown.1,
      )

  -- Closing a descriptor answers false exactly if it was free; afterwards it is free, and the
  -- others keep their resources.
  pub close_handle_lem :
      (fd j : ℕ) (handles : Handles F)
      → let (closed, handles') = close_handle fd handles in
        ((closed ≡ false) ↔ (lookup fd handles ≡ none))
        × (lookup j handles' ≡ (if fd == j then none else lookup j handles))
  unfolding close_handle
  close_handle_lem fd j handles =
      ((λ e. ground arith, λ e. ground arith), lookup-remove j fd handles)

  -- After descriptors 0, ..., n - 1 with n at most 256, closing one of them that is not the last
  -- makes the next open hand out n - 1, which is in use: its resource is replaced.
  pub open_after_close_clobbers :
      (fd : ℕ) (res : Resource F) (handles : Handles F)
      → CountsFrom 0 handles
      → fd + 1 < length handles
      → length handles ≤ 256
      → let handles' = (close_handle fd handles).1 in
        let (next, handles'') = open_handle res handles' in
        (next ≡ length handles - 1)
        × (lookup next handles' ≢ none)
        × (lookup next handles'' ≡ some res)
  unfolding close_handle open_handle
  open_after_close_clobbers fd res handles h lt le =
      let left = remove fd handles in
      let next : ℕ = length left % 256 in
      let shrunk = length-remove 0 fd handles h (omega arith) (omega arith) in
      let e : next ≡ length handles - 1 = omega arith in
      (
        e,
        ground (arith, lookup-remove next fd handles, CountsFrom-lookup 0 next handles h),
        ground (arith, lookup-insert next next res left),
      )
