-- ===== src/Memory/Mapping/Unmapping.antt =====
-- What unmapping a range does, and that it undoes mapping.
use sysu_ysosv.Prelude.{
  ℕ, zero, suc, ◌+◌, ◌-◌, ◌/◌, ap, returns, >>=-eq-returns, ◌<◌, ◌≡◌, ◌≢◌, refl, sym, subst, ==→eq,
  ◌∙◌, inl, inr, Bool, true, false, none, some, arith, ◌==◌, if◌then◌else◌, Option-cases,
  Bool-cases,
}
use sysu_ysosv.Prelude.Result.{ok}
use sysu_ysosv.Memory.X86.{X86, Laws, Mem, Flags}
use sysu_ysosv.Memory.Mapping.{
  data_flags, PageRange, addressed, map_from, map_pages, unmap_page, unmap_each, unmap_range,
  unmap_pages,
}
use sysu_ysosv.Memory.Mapping.Ranges.{within, HasFlags, Filled, MapsPages, map_from_lem}

module _ (x : X86) (laws : Laws x) where
  -- Between two states, the `n` pages from `page` on were unmapped, and nothing else changed.
  pub record Emptied (root page n : ℕ) (m m' : Mem x.Table) : Type 0 where
    pub is_free : (p : ℕ) → within page n p ≡ true → x.entry m'.table root p ≡ none
    pub same : (p : ℕ) → within page n p ≡ false → x.entry m'.table root p ≡ x.entry m.table root p

  -- A mapped page is unmapped, and no other.
  unmap_page_lem :
      (root page frame : ℕ) (flags : Flags) (dealloc : Bool) (m : Mem x.Table)
      → x.entry m.table root page ≡ some (frame, flags)
      → let (r, m') = unmap_page x root page dealloc m in
        (r ≡ ok tt)
        × ((p : ℕ) → x.entry m'.table root p ≡ (if page == p then none else x.entry m.table root p))
  unfolding unmap_page
  unmap_page_lem root page frame flags dealloc m e =
      let done = laws.unmap_ok root page frame flags m.table e in
      let table = (x.unmap root page m.table).1 in
      (
        ground arith,
        λ p. ground (arith, laws.unmap_entry root page frame m.table table (ground arith) p),
      )

  Emptied-suc :
      (root page n : ℕ) (dealloc : Bool) (m m₁ m' : Mem x.Table)
      → ((p : ℕ) → x.entry m₁.table root p ≡ (if page == p then none else x.entry m.table root p))
      → Emptied root (suc page) n m₁ m'
      → Emptied root page (suc n) m m'
  Emptied-suc root page n dealloc m m₁ m' step e = record {
    is_free = λ p w. elim (Bool-cases (page == p)) [
      | inl hit ↦
          subst (λ a. x.entry m'.table root a ≡ none) (==→eq page p hit)
            (ground (arith, e.same page (ground arith), step page))
      | inr miss ↦ e.is_free p (ground arith)
    ];
    same = λ p w. ground (arith, e.same p (ground arith), step p);
  }

  -- All of the pages are mapped.
  abbrev pub AreMapped : ℕ → ℕ → ℕ → Mem x.Table → Type 0
  AreMapped root page n m = (p : ℕ) → within page n p ≡ true → x.entry m.table root p ≢ none

  unmap_each_lem :
      (root page n : ℕ) (dealloc : Bool) (m : Mem x.Table)
      → AreMapped root page n m
      → ((unmap_each x root dealloc page n m).0 ≡ ok tt)
        × Emptied root page n m (unmap_each x root dealloc page n m).1
  unfolding unmap_each
  unmap_each_lem root page zero dealloc m h =
      (refl, record { is_free = λ p w. absurd (ground arith); same = λ p w. refl })
  unmap_each_lem root page (suc n) dealloc m h = elim (Option-cases (x.entry m.table root page)) [
    | inl hole ↦ absurd (h page (ground arith) hole)
    | inr (f, e) ↦
        let m₁ = (unmap_page x root page dealloc m).1 in
        let first = unmap_page_lem root page f.0 f.1 dealloc m (ground arith) in
        let rest =
          unmap_each_lem root (suc page) n dealloc m₁
            (λ p w free. h p (ground arith) (ground (arith, first.1 p))) in
        (
          ground arith,
          rw (unmap_each, first.0) (Emptied-suc root page n dealloc m m₁ _ first.1 rest.1),
        )
  ]

  -- Unmapping one page or more that are all mapped, at an address that does not panic, succeeds, after which exactly these pages are
  -- free and every other page translates as before.
  pub unmap_pages_lem :
      (root addr pages : ℕ) (dealloc : Bool) (m : Mem x.Table)
      → 0 < pages
      → (last : ℕ) → addressed x addr pages ≡ returns last
      → AreMapped root (addr / 4096) pages m
      → (m' : Mem x.Table) × (unmap_pages x root addr pages dealloc m ≡ returns (ok tt, m'))
        × Emptied root (addr / 4096) pages m m'
  unfolding unmap_pages unmap_range
  unmap_pages_lem root addr pages dealloc m pos last there h =
      let start = addr / 4096 in
      let n : suc (start + pages - 1) - start ≡ pages = omega arith in
      let r = unmap_each x root dealloc start pages m in
      let (done, emptied) = unmap_each_lem root start pages dealloc m h in
      (
        r.1,
        rw (unmap_pages, there, laws.page_of_lem addr, n) (ap (λ o. returns (o, r.1)) done),
        emptied,
      )

  pub AreMapped-Filled :
      (root page n : ℕ) (flags : Flags) (m m' : Mem x.Table)
      → Filled x laws root flags page n m m'
      → AreMapped root page n m'
  AreMapped-Filled root page n flags m m' f p w free = subst (HasFlags flags) free (f.is_set p w)

  -- If mapping some pages succeeds, unmapping them succeeds and every page of the table
  -- translates as it did before.
  pub unmap_pages-map_pages :
      (root addr pages : ℕ) (user dealloc : Bool) (m m' : Mem x.Table) (range : PageRange)
      → 0 < pages
      → map_pages x root addr pages user m ≡ returns (ok range, m')
      → (m'' : Mem x.Table) × (unmap_pages x root addr pages dealloc m' ≡ returns (ok tt, m''))
        × ((p : ℕ) → x.entry m''.table root p ≡ x.entry m.table root p)
  unfolding map_pages
  unmap_pages-map_pages root addr pages user dealloc m m' range pos e =
      let (last, there, is) = >>=-eq-returns (addressed x addr pages) _ e in
      let done : map_from x root (x.page_of addr) pages user m ≡ (ok range, m') =
        ground (arith, is) in
      let mapped =
        subst (λ page. MapsPages x laws root page pages user m (ok range, m'))
          (laws.page_of_lem addr)
          (subst (MapsPages x laws root (x.page_of addr) pages user m) done
            (map_from_lem x laws root (x.page_of addr) pages user m pos)) in
      let f = mapped.1 in
      let (m'', unmapped, emptied) =
        unmap_pages_lem root addr pages dealloc m' pos last there
          (AreMapped-Filled root (addr / 4096) pages (data_flags user) m m' f) in
      (
        m'',
        unmapped,
        λ p. elim (Bool-cases (within (addr / 4096) pages p)) [
          | inl w ↦ emptied.is_free p w ∙ sym (f.was_free p w)
          | inr w ↦ emptied.same p w ∙ f.same p w
        ],
      )
