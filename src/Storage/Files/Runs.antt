-- ===== src/Storage/Files/Runs.antt =====
-- Lists of the bytes from an offset on.
use sysu_ysosv.Prelude.{
  ℕ, zero, suc, ◌+◌, ◌<◌, ◌≤◌, ◌≡◌, refl, ap, ◌∙◌, List, [], ◌∷◌, ◌++◌, arith, length, get_or, take,
  drop,
}

-- `n` bytes from offset `i` on.
unfoldable pub run_of : (ℕ → ℕ) → ℕ → ℕ → List ℕ
run_of byte zero i = []
run_of byte (suc n) i = byte i ∷ run_of byte n (suc i)

pub length-run_of : (byte : ℕ → ℕ) (n i : ℕ) → length (run_of byte n i) ≡ n
unfolding run_of
length-run_of byte zero i = refl
length-run_of byte (suc n) i = ap suc (length-run_of byte n (suc i))

pub run_of-append :
    (byte : ℕ → ℕ) (m n i : ℕ) → run_of byte m i ++ run_of byte n (i + m) ≡ run_of byte (m + n) i
unfolding run_of
run_of-append byte zero n i =
    let here : i + 0 ≡ i = omega arith in let all : 0 + n ≡ n = omega arith in rw (here, all) refl
run_of-append byte (suc m) n i =
    let next : i + suc m ≡ suc i + m = omega arith in
    let all : suc m + n ≡ suc (m + n) = omega arith in
    rw (next, all, run_of) (ap (λ r. byte i ∷ r) (run_of-append byte m n (suc i)))

pub get_or-drop : (b j : ℕ) (xs : List ℕ) → get_or (drop b xs) j 0 ≡ get_or xs (b + j) 0
get_or-drop zero j xs = let same : 0 + j ≡ j = omega arith in rw same refl
get_or-drop (suc b) j [] = refl
get_or-drop (suc b) j (x ∷ xs) =
    let next : suc b + j ≡ suc (b + j) = omega arith in rw next (get_or-drop b j xs)

-- The first elements of a list that are known.
pub take-run_of :
    (byte : ℕ → ℕ) (n i : ℕ) (xs : List ℕ)
    → n ≤ length xs
    → ((j : ℕ) → j < n → get_or xs j 0 ≡ byte (i + j))
    → take n xs ≡ run_of byte n i
unfolding run_of
take-run_of byte zero i xs h at = refl
take-run_of byte (suc n) i [] h at = absurd (omega (arith, h))
take-run_of byte (suc n) i (x ∷ xs) h at =
    let here : i + 0 ≡ i = omega arith in
    let first : x ≡ byte i = at 0 (omega arith) ∙ ap byte here in
    let rest : (j : ℕ) → j < n → get_or xs j 0 ≡ byte (suc i + j) = λ j lt.
      let next : i + suc j ≡ suc i + j = omega arith in
      at (suc j) (omega (arith, lt)) ∙ ap byte next in
    cc (first, take-run_of byte n (suc i) xs (omega (arith, h)) rest)
