-- ===== src/Memory/Mapping/Ranges.antt =====
-- What mapping and unmapping a range of pages does to the translation of every page.
use sysu_ysosv.Prelude.{
  ℕ, zero, suc, ◌+◌, ◌-◌, ◌*◌, ◌^◌, ◌/◌, Outcome, returns, panics, ◌<◌, ◌≡◌, ◌≢◌, refl, ap, subst,
  ==→eq, ◌∙◌, inl, inr, Bool, true, false, Option, none, some, arith, ◌==◌, ltb, leb, ◌&&◌,
  Option-cases, Bool-cases,
}
use sysu_ysosv.Prelude.Result.{Result, ok, err}
use sysu_ysosv.Memory.Frames.{allocate_frame}
use sysu_ysosv.Memory.X86.{X86, Laws, Mem, Flags, MapToError}
use sysu_ysosv.Memory.Mapping.{
  data_flags, PageRange, map_page, map_each, map_range, addressed, map_from, map_pages,
}

-- `p` is one of the `n` pages from `page` on.
abbrev pub within : ℕ → ℕ → ℕ → Bool
within page n p = leb page p && ltb p (page + n)

abbrev pub HasFlags : Flags → Option (ℕ × Flags) → Type 0
HasFlags flags none = ⊥
HasFlags flags (some (frame, flags')) = flags' ≡ flags

module _ (x : X86) (laws : Laws x) where
  map_page_ok :
      (root page : ℕ) (flags : Flags) (m m' : Mem x.Table)
      → map_page x root page flags m ≡ (ok tt, m')
      → (x.entry m.table root page ≡ none)
        × HasFlags flags (x.entry m'.table root page)
        × ((p : ℕ) → page ≢ p → x.entry m'.table root p ≡ x.entry m.table root p)
  unfolding map_page
  map_page_ok root page flags m m' e = elim (Option-cases (allocate_frame m.frames).0) [
    | inl empty ↦ ground arith
    | inr (frame, got) ↦
        let m₁ : Mem x.Table = record m { frames = (allocate_frame m.frames).1 } in
        let done = laws.map_to_ok root page frame flags m₁ m' (ground arith) in
        (done.0, ground (arith, done.1 page), λ p ne. ground (arith, done.1 p))
  ]

  map_page_err :
      (root page : ℕ) (flags : Flags) (m m' : Mem x.Table) (e : MapToError)
      → map_page x root page flags m ≡ (err e, m')
      → (p : ℕ) → x.entry m'.table root p ≡ x.entry m.table root p
  unfolding map_page
  map_page_err root page flags m m' e h p = elim (Option-cases (allocate_frame m.frames).0) [
    | inl empty ↦ ground arith
    | inr (frame, got) ↦
        let m₁ : Mem x.Table = record m { frames = (allocate_frame m.frames).1 } in
        laws.map_to_err root page frame flags m₁ m' e (ground arith) p
  ]

  -- Between two states, the `n` pages from `page` on were mapped, and nothing else changed.
  pub record Filled (root : ℕ) (flags : Flags) (page n : ℕ) (m m' : Mem x.Table) : Type 0 where
    pub was_free : (p : ℕ) → within page n p ≡ true → x.entry m.table root p ≡ none
    pub is_set : (p : ℕ) → within page n p ≡ true → HasFlags flags (x.entry m'.table root p)
    pub same : (p : ℕ) → within page n p ≡ false → x.entry m'.table root p ≡ x.entry m.table root p

  Filled-none :
      (root : ℕ) (flags : Flags) (page : ℕ) (m m' : Mem x.Table)
      → ((p : ℕ) → x.entry m'.table root p ≡ x.entry m.table root p)
      → Filled root flags page 0 m m'
  Filled-none root flags page m m' h = record {
    was_free = λ p w. ground arith;
    is_set = λ p w. absurd (ground arith);
    same = λ p w. h p;
  }

  Filled-suc :
      (root : ℕ) (flags : Flags) (page n : ℕ) (m m₁ m' : Mem x.Table)
      → map_page x root page flags m ≡ (ok tt, m₁)
      → Filled root flags (suc page) n m₁ m'
      → Filled root flags page (suc n) m m'
  Filled-suc root flags page n m m₁ m' e f =
      let first = map_page_ok root page flags m m₁ e in
      record {
        was_free = λ p w. elim (Bool-cases (page == p)) [
          | inl hit ↦ subst (λ a. x.entry m.table root a ≡ none) (==→eq page p hit) first.0
          | inr miss ↦ ground (arith, f.was_free p (ground arith), first.2 p (ground arith))
        ];
        is_set = λ p w. elim (Bool-cases (page == p)) [
          | inl hit ↦
              subst (λ a. HasFlags flags (x.entry m'.table root a)) (==→eq page p hit)
                (rw (f.same page (ground arith)) first.1)
          | inr miss ↦ f.is_set p (ground arith)
        ];
        same = λ p w. f.same p (ground arith) ∙ first.2 p (ground arith);
      }

  -- How map_each stops at a page that cannot be mapped: the pages before it were mapped, mapping it was the first
  -- failure, and what was mapped stays.
  pub record Stops (root : ℕ) (flags : Flags) (page n : ℕ) (m : Mem x.Table) (e : MapToError)
      (m' : Mem x.Table) : Type 0 where
    pub done : ℕ
    pub less : done < n
    pub before : Mem x.Table
    pub mapped : map_each x root flags page done m ≡ (ok tt, before)
    pub fails : map_page x root (page + done) flags before ≡ (err e, m')
    pub filled : Filled root flags page done m m'

  -- What a run of map_each has done when it stops: all pages mapped, or those before the failure.
  abbrev pub MapsSome :
      ℕ → Flags → ℕ → ℕ → Mem x.Table → Result MapToError (Unit {0}) × Mem x.Table → Type 0
  MapsSome root flags page n m (ok _, m') = Filled root flags page n m m'
  MapsSome root flags page n m (err e, m') = Stops root flags page n m e m'

  map_each-suc :
      (root : ℕ) (flags : Flags) (page n : ℕ) (m m₁ : Mem x.Table)
      → map_page x root page flags m ≡ (ok tt, m₁)
      → map_each x root flags page (suc n) m ≡ map_each x root flags (suc page) n m₁
  unfolding map_each
  map_each-suc root flags page n m m₁ e =
      ap
        (λ (r : Result MapToError (Unit {0}) × Mem x.Table). elim r.0 [
          | ok _ ↦ map_each x root flags (suc page) n r.1
          | err e ↦ (err e, r.1)
        ])
        e

  MapsSome-suc :
      (root : ℕ) (flags : Flags) (page n : ℕ) (m m₁ : Mem x.Table)
      (result : Result MapToError (Unit {0}) × Mem x.Table)
      → map_page x root page flags m ≡ (ok tt, m₁)
      → MapsSome root flags (suc page) n m₁ result
      → MapsSome root flags page (suc n) m result
  unfolding map_each
  MapsSome-suc root flags page n m m₁ (ok _, m') e f = Filled-suc root flags page n m m₁ m' e f
  MapsSome-suc root flags page n m m₁ (err error, m') e h =
      let later : suc page + h.done ≡ page + suc h.done = omega arith in
      record {
        done = suc h.done;
        less = omega (arith, h.less);
        before = h.before;
        mapped = map_each-suc root flags page h.done m m₁ e ∙ h.mapped;
        fails = subst (λ p. map_page x root p flags h.before ≡ (err error, m')) later h.fails;
        filled = Filled-suc root flags page h.done m m₁ m' e h.filled;
      }

  map_each_step :
      (root : ℕ) (flags : Flags) (page n : ℕ) (m : Mem x.Table)
      (r : Result MapToError (Unit {0}) × Mem x.Table)
      → map_page x root page flags m ≡ r
      → ((m₁ : Mem x.Table)
          → MapsSome root flags (suc page) n m₁ (map_each x root flags (suc page) n m₁))
      → MapsSome root flags page
          (suc n)
          m
          (elim r.0 [ ok _ ↦ map_each x root flags (suc page) n r.1 | err e ↦ (err e, r.1) ])
  unfolding map_each
  map_each_step root flags page n m (ok _, m₁) e rest =
      MapsSome-suc root flags page n m m₁ _ e (rest m₁)
  map_each_step root flags page n m (err e, m₁) h rest =
      let here : page ≡ page + 0 = omega arith in
      record {
        done = 0;
        less = omega arith;
        before = m;
        mapped = refl;
        fails = subst (λ p. map_page x root p flags m ≡ (err e, m₁)) here h;
        filled = Filled-none root flags page m m₁ (map_page_err root page flags m m₁ e h);
      }

  pub map_each_lem :
      (root : ℕ) (flags : Flags) (page n : ℕ) (m : Mem x.Table)
      → MapsSome root flags page n m (map_each x root flags page n m)
  unfolding map_each
  map_each_lem root flags page zero m = Filled-none root flags page m m (λ p. refl)
  map_each_lem root flags page (suc n) m =
      map_each_step root flags page n m (map_page x root page flags m) refl
        (map_each_lem root flags (suc page) n)

  -- What map_pages has done when it stops.
  abbrev pub MapsPages :
      ℕ → ℕ → ℕ → Bool → Mem x.Table → Result MapToError PageRange × Mem x.Table → Type 0
  MapsPages root start pages user m (ok range, m') =
      (range ≡ record { start = start; end = start + pages })
      × Filled root (data_flags user) start pages m m'
  MapsPages root start pages user m (err e, m') = Stops root (data_flags user) start pages m e m'

  map_pages_step :
      (root start pages : ℕ) (user : Bool) (m : Mem x.Table)
      (r : Result MapToError (Unit {0}) × Mem x.Table)
      → MapsSome root (data_flags user) start pages m r
      → MapsPages root start pages user m (elim r.0 [
        | ok _ ↦ (ok (record { start = start; end = start + pages }), r.1)
        | err e ↦ (err e, r.1)
      ])
  map_pages_step root start pages user m (ok _, m₁) h = (refl, h)
  map_pages_step root start pages user m (err e, m₁) h = h

  pub map_from_lem :
      (root start pages : ℕ) (user : Bool) (m : Mem x.Table)
      → 0 < pages
      → MapsPages root start pages user m (map_from x root start pages user m)
  unfolding map_from map_range
  map_from_lem root start pages user m pos =
      let n : suc (start + pages - 1) - start ≡ pages = omega arith in
      map_pages_step root start pages user m
        (map_each x root (data_flags user) start (suc (start + pages - 1) - start) m)
        (rw n (map_each_lem root (data_flags user) start pages m))

  -- A range of user memory, which does not end at 0, has addresses.
  pub addressed-eq :
      (addr pages : ℕ)
      → 0 < addr / 4096 + pages
      → addr + pages * 4096 < 2 ^ 47
      → addressed x addr pages ≡ returns (addr / 4096 * 4096 + pages * 4096 - 4096)
  unfolding addressed
  addressed-eq addr pages pos small =
      let base = addr / 4096 * 4096 in
      rw
        (
          addressed,
          laws.virt_addr_lem addr (omega arith),
          laws.page_of_lem addr,
          laws.virt_add_lem base (pages * 4096) (omega arith),
        )
        (laws.virt_sub_lem (base + pages * 4096) 4096 (omega arith) (omega arith))

  pub map_pages-map_from :
      (root addr pages : ℕ) (user : Bool) (m : Mem x.Table)
      → 0 < pages
      → addr + pages * 4096 < 2 ^ 47
      → map_pages x root addr pages user m ≡ returns (map_from x root (addr / 4096) pages user m)
  unfolding map_pages
  map_pages-map_from root addr pages user m pos small =
      rw (map_pages, addressed-eq addr pages (omega arith) small, laws.page_of_lem addr) refl

  -- A call of map_pages does not panic and ends so.
  abbrev pub MapsAll :
      ℕ → ℕ → ℕ → Bool → Mem x.Table → Outcome (Result MapToError PageRange × Mem x.Table) → Type 0
  MapsAll root start pages user m panics = ⊥
  MapsAll root start pages user m (returns r) = MapsPages root start pages user m r

  -- map_pages of one page or more of user memory, in the lower half of the address space, does not panic. If it succeeds, exactly
  -- the pages asked for, all free before, are mapped writable, and for the user if so asked, and their
  -- range is returned. If it fails, then at the first page that cannot be mapped, with the error of that page: exactly the
  -- pages before it have been mapped, one after the other, and stay so.
  pub map_pages_lem :
      (root addr pages : ℕ) (user : Bool) (m : Mem x.Table)
      → 0 < pages
      → addr + pages * 4096 < 2 ^ 47
      → MapsAll root (addr / 4096) pages user m (map_pages x root addr pages user m)
  map_pages_lem root addr pages user m pos small =
      rw (map_pages-map_from root addr pages user m pos small)
        (map_from_lem root (addr / 4096) pages user m pos)
