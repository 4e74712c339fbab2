-- ===== src/Storage/Walk/Blocks.antt =====
-- pkg/storage/src/fs/fat16/impls.rs: the loops over sectors and entries visit the entries of a directory one
-- after the other.
use sysu_ysosv.Prelude.{
  ℕ, zero, suc, ◌+◌, ◌-◌, ◌*◌, ◌<◌, ◌≤◌, ◌≡◌, ◌⊎◌, inl, inr, refl, sym, ap, subst, ◌∙◌, min, false,
  List, arith, length, take, drop, ◌==◌, Outcome, returns, ◌>>=◌, Bool-cases,
}
use sysu_ysosv.Prelude.Result.{Result, ok, Result-cases}
use sysu_ysosv.Storage.Device.{BlockDevice, FsError}
use sysu_ysosv.Storage.Fat.{Fat16}
use sysu_ysosv.Storage.Entries.{Externals, DirEntry, parse_entry, is_valid}
use sysu_ysosv.Storage.Walk.{Scan, more, done, failed, slice, entry_len, scan_block, scan_blocks}
use sysu_ysosv.Storage.Walk.Visits.{
  visit, then_visit, visit-zero, visit-same, visit-off, visit-bad, visit-good, visit-split,
}

module _ (x : Externals) (d : BlockDevice) (as_ref : d.Block → List ℕ) (fat : Fat16) (s : d.State)
    (block : ℕ → d.Block) (entries : ℕ → DirEntry x) (first n : ℕ)
    (reads : (j : ℕ) → j * 16 < n → d.read_block (first + j) s ≡ ok (block j))
    (sized : (j : ℕ) → j * 16 < n → length (as_ref (block j)) ≡ 512)
    (parsed : (j m : ℕ)
      → m < 16
      → j * 16 + m < n
      → parse_entry x (take 32 (drop (m * 32) (as_ref (block j)))) ≡ returns (entries (j * 16 + m)))
    {A : Type 0} (f : A → DirEntry x → Result FsError A) where
  slice-block :
      (j m : ℕ)
      → m < 16
      → j * 16 + m < n
      → slice (m * 32) entry_len (as_ref (block j))
        ≡ returns (take 32 (drop (m * 32) (as_ref (block j))))
  unfolding slice
  slice-block j m lt inside = ground (arith, lt, sized j (omega (arith, inside)))

  scan_block-visit :
      (k j m : ℕ) (a : A)
      → m + k ≤ 16
      → j * 16 + (m + k) ≤ n
      → scan_block x d as_ref fat f s k (m * 32) (as_ref (block j)) a
        ≡ returns (visit x entries f k (j * 16 + m) a)
  unfolding scan_block
  scan_block-visit zero j m a fits inside = rw (visit-zero x entries f (j * 16 + m) a) refl
  scan_block-visit (suc k) j m a fits inside =
      let part = slice-block j m (omega (arith, fits)) (omega (arith, inside)) in
      let entry = parsed j m (omega (arith, fits)) (omega (arith, inside)) in
      elim (Bool-cases (is_valid x (entries (j * 16 + m)))) [
        | inr off ↦ rw (part, entry, ◌>>=◌, off, visit-off x entries f k (j * 16 + m) a off) refl
        | inl on ↦ elim (Result-cases (f a (entries (j * 16 + m)))) [
          | inl (e, bad) ↦
              rw (part, entry, ◌>>=◌, on, bad, visit-bad x entries f k (j * 16 + m) a on bad) refl
          | inr (a', good) ↦
              let far : m * 32 + 32 ≡ suc m * 32 = omega arith in
              let next : suc (j * 16 + m) ≡ j * 16 + suc m = omega arith in
              rw
                (
                  part,
                  entry,
                  ◌>>=◌,
                  on,
                  good,
                  visit-good x entries f k (j * 16 + m) a on good,
                  far,
                  next,
                )
                (scan_block-visit k j (suc m) a' (omega (arith, fits)) (omega (arith, inside)))
        ]
      ]

  -- What the loop does with the rest of a cluster.
  rest_of : ℕ → ℕ → ℕ → Scan A → Outcome (Scan A)
  rest_of fuel num sector (more a) = scan_blocks x d as_ref fat f s fuel num sector a
  rest_of fuel num sector (done a) = returns (done a)
  rest_of fuel num sector (failed e) = returns (failed e)

  scan_blocks-step :
      (fuel num j : ℕ) (a : A) (scan : Scan A)
      → 0 < num
      → j * 16 < n
      → scan_block x d as_ref fat f s (min num 16) 0 (as_ref (block j)) a ≡ returns scan
      → scan_blocks x d as_ref fat f s (suc fuel) num (first + j) a
        ≡ rest_of fuel (num - 16) (first + j + 1) scan
  unfolding scan_blocks rest_of
  scan_blocks-step fuel num j a (more a') some_left inside e =
      let left : (num == 0) ≡ false = ground (arith, some_left) in
      rw (scan_blocks, left, reads j inside, e) refl
  scan_blocks-step fuel num j a (done a') some_left inside e =
      let left : (num == 0) ≡ false = ground (arith, some_left) in
      rw (scan_blocks, left, reads j inside, e) refl
  scan_blocks-step fuel num j a (failed error) some_left inside e =
      let left : (num == 0) ≡ false = ground (arith, some_left) in
      rw (scan_blocks, left, reads j inside, e) refl

  scan_rest :
      (fuel num j : ℕ)
      → ((a : A)
          → scan_blocks x d as_ref fat f s fuel (num - 16) (first + suc j) a
            ≡ returns (visit x entries f (num - 16) (suc j * 16) a))
      → (w : Scan A)
      → rest_of fuel (num - 16) (first + j + 1) w
        ≡ returns (then_visit x entries f (num - 16) (j * 16 + min num 16) w)
  unfolding rest_of then_visit
  scan_rest fuel num j later (more a) =
      let there : first + j + 1 ≡ first + suc j = omega arith in
      rw there (
        later a
        ∙ ap returns
            (visit-same x entries f (num - 16) (suc j * 16) (j * 16 + min num 16) a (ground arith)))
  scan_rest fuel num j later (done a) = refl
  scan_rest fuel num j later (failed e) = refl

  pub scan_blocks-visit :
      (fuel num j : ℕ) (a : A)
      → num ≤ fuel
      → (num ≡ 0) ⊎ (j * 16 + num ≤ n)
      → scan_blocks x d as_ref fat f s fuel num (first + j) a
        ≡ returns (visit x entries f num (j * 16) a)
  unfolding scan_blocks
  scan_blocks-visit zero num j a enough inside =
      let none_left : num ≡ 0 = omega (arith, enough) in
      rw (none_left, visit-zero x entries f (j * 16) a) refl
  scan_blocks-visit (suc fuel) num j a enough inside = elim (Bool-cases (num == 0)) [
    | inl over ↦
        let none_left : num ≡ 0 = ground (arith, over) in
        rw (none_left, visit-zero x entries f (j * 16) a) refl
    | inr left ↦
        let some_left : 0 < num = ground (arith, left) in
        let here : j * 16 + 0 ≡ j * 16 = omega arith in
        let all : min num 16 + (num - 16) ≡ num = omega arith in
        let v : Scan A = visit x entries f (min num 16) (j * 16) a in
        let block_done : scan_block x d as_ref fat f s (min num 16) 0 (as_ref (block j)) a
            ≡ returns v =
          subst
            (λ i.
              scan_block x d as_ref fat f s (min num 16) 0 (as_ref (block j)) a
              ≡ returns (visit x entries f (min num 16) i a))
            here
            (scan_block-visit (min num 16) j 0 a (omega arith)
              (omega (arith, inside, some_left))) in
        let rest : (w : Scan A)
            → rest_of fuel (num - 16) (first + j + 1) w
              ≡ returns (then_visit x entries f (num - 16) (j * 16 + min num 16) w) =
          scan_rest fuel num j (λ a'.
            scan_blocks-visit fuel (num - 16) (suc j) a' (omega (arith, enough))
              (ground (arith, inside))) in
        scan_blocks-step fuel num j a v some_left (omega (arith, inside, some_left)) block_done
        ∙ rest v
        ∙ ap returns (
            sym (visit-split x entries f (min num 16) (num - 16) (j * 16) a)
            ∙ ap (λ k. visit x entries f k (j * 16) a) all)
  ]
