-- ===== src/Vm/Heap/Stuck.antt =====
-- A growth that fails half-way leaves its pages mapped, and the heap can never grow again.
use sysu_ysosv.Prelude.{
  ℕ, ◌+◌, ◌-◌, ◌*◌, ◌/◌, ◌≤◌, ◌<◌, ◌≡◌, ◌≢◌, refl, subst, Bool, true, false, none, some, arith, ◌^◌,
  returns, leb, ltb, ◌&&◌, ◌==◌,
}
use sysu_ysosv.Prelude.Result.{Result, ok, err}
use sysu_ysosv.Memory.X86.{X86, Laws, Mem, MapToError}
use sysu_ysosv.Memory.Mapping.{data_flags, PageRange, map_from}
use sysu_ysosv.Memory.Mapping.Ranges.{HasFlags, Filled, MapsPages, map_from_lem, map_pages-map_from}
use sysu_ysosv.Vm.Heap.{heap_start, heap_end, grow, move_end, brk}
use sysu_ysosv.Vm.Heap.Backing.{first_page, pages_to, align_up_page}

module _ (x : X86) (laws : Laws x) where
  map_pages_blocked :
      (root start pages : ℕ) (user : Bool) (m : Mem x.Table)
      (r : Result MapToError PageRange × Mem x.Table)
      → 0 < pages
      → x.entry m.table root start ≢ none
      → MapsPages x laws root start pages user m r
      → (e : MapToError) × (r.0 ≡ err e)
  map_pages_blocked root start pages user m (ok range, m') pos taken h =
      absurd (taken (h.1.was_free start (ground arith)))
  map_pages_blocked root start pages user m (err e, m') pos taken h = (e, refl)

  grow_fails :
      (root new_end end upper_bound pages : ℕ) (user : Bool) (m : Mem x.Table)
      → 0 < pages
      → upper_bound + pages * 4096 < 2 ^ 47
      → x.entry m.table root (upper_bound / 4096) ≢ none
      → (m' : Mem x.Table) × (grow x root user upper_bound pages new_end end m
          ≡ returns (none, end, m'))
  unfolding grow
  grow_fails root new_end end upper_bound pages user m pos small taken =
      let r = map_from x root (upper_bound / 4096) pages user m in
      let (e, failed) =
        map_pages_blocked root (upper_bound / 4096) pages user m r pos taken
          (map_from_lem x laws root (upper_bound / 4096) pages user m pos) in
      (
        r.1,
        rw (grow, map_pages-map_from x laws root upper_bound pages user m pos small, failed) refl,
      )

  -- Suppose that a growth of the heap has failed after mapping a page or more. Then every later
  -- call that asks for more pages fails as well, however few it asks for, and the end stays.
  brk_stuck :
      (trace : Bool) (root end k new_end : ℕ) (user again : Bool) (m m' : Mem x.Table)
      → heap_start ≤ end
      → end ≤ heap_end
      → new_end ≤ heap_end
      → 0 < k
      → Filled x laws root (data_flags user) (first_page + pages_to end) k m m'
      → pages_to end < pages_to new_end
      → (m'' : Mem x.Table) × (brk x trace root again (some new_end) end m'
          ≡ returns (none, end, m''))
  unfolding brk move_end
  brk_stuck trace root end k new_end user again m m' lo top hi pos f more =
      let upper_bound = x.align_up end 4096 in
      let new_upper_bound = x.align_up new_end 4096 in
      let e : upper_bound ≡ (first_page + pages_to end) * 4096 = align_up_page x laws end lo in
      let e' : new_upper_bound ≡ (first_page + pages_to new_end) * 4096 =
        align_up_page x laws new_end (omega arith) in
      let here : upper_bound / 4096 ≡ first_page + pages_to end = omega arith in
      let taken : x.entry m'.table root (upper_bound / 4096) ≢ none = λ gone.
        subst (HasFlags (data_flags user)) gone (f.is_set (upper_bound / 4096) (ground arith)) in
      let (m'', refused) =
        grow_fails root new_end end upper_bound ((new_upper_bound - upper_bound) / 4096) again m'
          (omega arith) (omega arith) taken in
      let in_range : (leb heap_start new_end && leb new_end heap_end) ≡ true = ground arith in
      let other : (new_upper_bound == upper_bound) ≡ false = ground arith in
      let up : ltb upper_bound new_upper_bound ≡ true = ground arith in
      (m'', rw (in_range, other, up) refused)
