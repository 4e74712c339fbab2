-- ===== src/Vm/Heap/Backing.antt =====
-- The pages of the heap below its end are mapped and those above are free.
use sysu_ysosv.Prelude.{
  ℕ, ◌^◌, Outcome, returns, panics, ◌+◌, ◌-◌, ◌*◌, ◌/◌, ◌≤◌, ◌<◌, ◌≡◌, refl, sym, subst, ◌∙◌, ◌⊎◌,
  inl, inr, Bool, true, false, Option, none, some, arith, ◌==◌, ltb, leb, ◌&&◌, Bool-cases,
}
use sysu_ysosv.Prelude.Result.{Result, ok, err}
use sysu_ysosv.Memory.X86.{X86, Laws, Mem, MapToError}
use sysu_ysosv.Memory.Mapping.{data_flags, PageRange, map_from}
use sysu_ysosv.Memory.Mapping.Ranges.{
  within, Filled, Stops, MapsPages, addressed-eq, map_from_lem, map_pages-map_from,
}
use sysu_ysosv.Memory.Mapping.Unmapping.{Emptied, AreMapped, unmap_pages_lem, AreMapped-Filled}
use sysu_ysosv.Vm.Heap.{heap_start, heap_pages, heap_end, grow, shrink, move_end, brk, Broken}

-- The first page of the heap, and the number of its pages up to an end.
abbrev pub first_page : ℕ
first_page = heap_start / 4096

abbrev pub pages_to : ℕ → ℕ
pages_to end = (end - heap_start + 4095) / 4096

-- The addresses that brk accepts.
abbrev pub in_heap : Option ℕ → Bool
in_heap none = true
in_heap (some addr) = leb heap_start addr && leb addr heap_end

module _ (x : X86) (laws : Laws x) where
  pub record IsBacked (root end : ℕ) (m : Mem x.Table) : Type 0 where
    pub above : heap_start ≤ end
    pub below : end ≤ heap_end
    pub used : AreMapped x laws root first_page (pages_to end) m
    pub free :
        (p : ℕ)
        → within (first_page + pages_to end) (heap_pages - pages_to end) p ≡ true
        → x.entry m.table root p ≡ none

  -- What a successful growth by mapping keeps.
  grow-IsBacked :
      (root new_end end : ℕ) (user : Bool) (m m' : Mem x.Table)
      → heap_start ≤ new_end
      → new_end ≤ heap_end
      → pages_to end ≤ pages_to new_end
      → IsBacked root end m
      → Filled x laws root
          (data_flags user)
          (first_page + pages_to end)
          (pages_to new_end - pages_to end)
          m
          m'
      → IsBacked root new_end m'
  grow-IsBacked root new_end end user m m' lo hi le b f = record {
    above = lo;
    below = hi;
    used = λ p w. elim (Bool-cases (within first_page (pages_to end) p)) [
      | inl old ↦ λ gone. b.used p old (sym (f.same p (ground arith)) ∙ gone)
      | inr new ↦
          AreMapped-Filled x laws root (first_page + pages_to end) (pages_to new_end - pages_to end)
            (data_flags user) m m' f p (ground arith)
    ];
    free = λ p w. f.same p (ground arith) ∙ b.free p (ground arith);
  }

  shrink-IsBacked :
      (root new_end end : ℕ) (m m' : Mem x.Table)
      → heap_start ≤ new_end
      → pages_to new_end ≤ pages_to end
      → IsBacked root end m
      → new_end ≤ heap_end
      → Emptied x laws root (first_page + pages_to new_end) (pages_to end - pages_to new_end) m m'
      → IsBacked root new_end m'
  shrink-IsBacked root new_end end m m' lo le b hi f = record {
    above = lo;
    below = hi;
    used = λ p w gone. b.used p (ground arith) (sym (f.same p (ground arith)) ∙ gone);
    free = λ p w.
        elim (Bool-cases
          (within (first_page + pages_to new_end) (pages_to end - pages_to new_end) p)) [
            | inl cut ↦ f.is_free p cut
            | inr old ↦ f.same p old ∙ b.free p (ground arith)
          ];
  }

  -- How a call of brk ends. If it answers, the answer is the new end, the one asked for if one
  -- was, and the heap is backed up to it. If it fails, the end stays; then either the address was
  -- not in the heap and nothing changed, or the heap was to grow up to it and a page could not be mapped. It
  -- panics only on an address that is not in the heap, and then if messages of level Trace are logged.
  abbrev pub Answers : Bool → ℕ → Bool → Option ℕ → ℕ → Mem x.Table → Outcome (Broken x) → Type 0
  Answers trace root user addr end m panics = (in_heap addr ≡ false) × (trace ≡ true)
  Answers trace root user addr end m (returns (some v, end', m')) =
      (v ≡ end') × ((addr ≡ none) × (end' ≡ end) ⊎ (addr ≡ some end')) × IsBacked root end' m'
  Answers trace root user addr end m (returns (none, end', m')) =
      (end' ≡ end)
      × ((in_heap addr ≡ false) × (trace ≡ false) × (m' ≡ m)
          ⊎ ((new_end : ℕ) × (e : MapToError) × (addr ≡ some new_end)
              × (in_heap addr ≡ true)
              × (pages_to end < pages_to new_end)
              × Stops x laws root (data_flags user) (first_page + pages_to end)
                  (pages_to new_end - pages_to end) m e m'))

  grow-Answers :
      (trace : Bool) (root new_end end : ℕ) (user : Bool) (m : Mem x.Table)
      (r : Result MapToError PageRange × Mem x.Table)
      → heap_start ≤ new_end
      → new_end ≤ heap_end
      → pages_to end < pages_to new_end
      → IsBacked root end m
      → MapsPages x laws root (first_page + pages_to end) (pages_to new_end - pages_to end) user m r
      → Answers trace root user
          (some new_end)
          end
          m
          (returns (elim r.0 [ ok _ ↦ (some new_end, new_end, r.1) | err _ ↦ (none, end, r.1) ]))
  grow-Answers trace root new_end end user m (ok range, m') lo hi lt b h =
      (refl, inr refl, grow-IsBacked root new_end end user m m' lo hi (omega arith) b h.1)
  grow-Answers trace root new_end end user m (err e, m') lo hi lt b h =
      (refl, inr (new_end, e, refl, ground arith, lt, h))

  -- The two bounds, as page numbers.
  pub align_up_page :
      (end : ℕ) → heap_start ≤ end → x.align_up end 4096 ≡ (first_page + pages_to end) * 4096
  align_up_page end h = omega (arith, laws.align_up_lem end)

  module _ (trace : Bool) (root new_end end : ℕ) (user : Bool) (m : Mem x.Table)
      (lo : heap_start ≤ new_end) (hi : new_end ≤ heap_end) (b : IsBacked root end m) where
    grown :
        (upper_bound pages : ℕ)
        → upper_bound ≡ (first_page + pages_to end) * 4096
        → pages + pages_to end ≡ pages_to new_end
        → 0 < pages
        → Answers trace root user
            (some new_end)
            end
            m
            (grow x root user upper_bound pages new_end end m)
    unfolding grow
    grown upper_bound pages eu ep pos =
        let start : upper_bound / 4096 ≡ first_page + pages_to end = omega arith in
        let count : pages ≡ pages_to new_end - pages_to end = omega arith in
        let r = map_from x root (upper_bound / 4096) pages user m in
        let small : upper_bound + pages * 4096 < 2 ^ 47 = ground (arith, b.below, hi) in
        rw (grow, map_pages-map_from x laws root upper_bound pages user m pos small)
          (grow-Answers trace root new_end end user m r lo hi (omega arith) b (
            subst (λ a. MapsPages x laws root a (pages_to new_end - pages_to end) user m r) start
              (subst (λ n. MapsPages x laws root (upper_bound / 4096) n user m r) count
                (map_from_lem x laws root (upper_bound / 4096) pages user m pos))))

    shrunk :
        (upper_bound pages : ℕ)
        → upper_bound ≡ (first_page + pages_to new_end) * 4096
        → pages + pages_to new_end ≡ pages_to end
        → 0 < pages
        → Answers trace root user
            (some new_end)
            end
            m
            (shrink x root upper_bound pages new_end end m)
    unfolding shrink
    shrunk upper_bound pages eu ep pos =
        let start : upper_bound / 4096 ≡ first_page + pages_to new_end = omega arith in
        let count : pages ≡ pages_to end - pages_to new_end = omega arith in
        let small : upper_bound + pages * 4096 < 2 ^ 47 = ground (arith, b.below, hi) in
        let (m', done, emptied) =
          unmap_pages_lem x laws root upper_bound pages true m pos _
            (addressed-eq x laws upper_bound pages (omega arith) small)
            (λ p w. b.used p (ground arith)) in
        let cut =
          subst (λ a. Emptied x laws root a (pages_to end - pages_to new_end) m m') start
            (subst (λ n. Emptied x laws root (upper_bound / 4096) n m m') count emptied) in
        rw (shrink, done)
          (refl, inr refl, shrink-IsBacked root new_end end m m' lo (omega arith) b hi cut)

    stayed : pages_to end ≡ pages_to new_end → IsBacked root new_end m
    stayed same = record {
      above = lo;
      below = hi;
      used = subst (λ n. AreMapped x laws root first_page n m) same b.used;
      free = λ p w. b.free p (ground arith);
    }

    move_end-Answers :
        Answers trace root user (some new_end) end m (move_end x root user new_end end m)
    unfolding move_end
    move_end-Answers =
        let upper_bound = x.align_up end 4096 in
        let new_upper_bound = x.align_up new_end 4096 in
        let e : upper_bound ≡ (first_page + pages_to end) * 4096 = align_up_page end b.above in
        let e' : new_upper_bound ≡ (first_page + pages_to new_end) * 4096 =
          align_up_page new_end lo in
        elim (Bool-cases (new_upper_bound == upper_bound)) [
          | inl same ↦ rw same (refl, inr refl, stayed (ground arith))
          | inr other ↦ elim (Bool-cases (ltb upper_bound new_upper_bound)) [
            | inl up ↦
                rw (other, up)
                  (grown upper_bound ((new_upper_bound - upper_bound) / 4096) e (ground arith)
                    (ground arith))
            | inr down ↦
                rw (other, down)
                  (shrunk new_upper_bound ((upper_bound - new_upper_bound) / 4096) e' (ground arith)
                    (ground arith))
          ]
        ]

  -- From a heap that is backed up to its end, brk either answers with the new end, up to which the
  -- heap is backed again, or fails and leaves the end alone, or panics. It fails only for an address outside
  -- the heap, with no effect at all, or if a page of a growth cannot be mapped: then with that page as the first failure,
  -- and the pages before it mapped, which stay. It panics only for an address outside the heap while messages
  -- of level Trace are logged, and then always, since it does not fail.
  pub brk-Answers :
      (trace : Bool) (root end : ℕ) (user : Bool) (addr : Option ℕ) (m : Mem x.Table)
      → IsBacked root end m
      → Answers trace root user addr end m (brk x trace root user addr end m)
  unfolding brk
  brk-Answers trace root end user none m b = (refl, inl (refl, refl), b)
  brk-Answers trace root end user (some new_end) m b =
      elim (Bool-cases (leb heap_start new_end && leb new_end heap_end)) [
        | inl in_range ↦
            rw in_range
              (move_end-Answers trace root new_end end user m (ground arith) (ground arith) b)
        | inr out ↦ elim (Bool-cases trace) [
          | inl on ↦ rw (out, on) (out, refl)
          | inr off ↦ rw (out, off) (refl, inl (out, refl, refl))
        ]
      ]
