-- ===== src/Memory/User.antt =====
-- pkg/kernel/src/memory/user.rs: the pages of the heap that user programs share.
use sysu_ysosv.Prelude.{ℕ, ◌+◌, ◌-◌, ◌*◌, ◌/◌, ◌<◌, ◌≤◌, ◌≡◌, refl, subst, true, arith}
use sysu_ysosv.Prelude.Result.{Result, ok, err}
use sysu_ysosv.Memory.X86.{X86, Laws, Mem, MapToError}
use sysu_ysosv.Memory.Mapping.{data_flags, map_each}
use sysu_ysosv.Memory.Mapping.Ranges.{HasFlags, MapsSome, map_each_lem}

-- USER_HEAP_START, USER_HEAP_SIZE and USER_HEAP_PAGE
abbrev pub user_heap_start : ℕ
user_heap_start = 0x4000_0000_0000

abbrev pub user_heap_size : ℕ
user_heap_size = 1024 * 1024

abbrev pub user_heap_page : ℕ
user_heap_page = user_heap_size / 4096

-- What the allocator of the linked_list_allocator crate is told it may hand out.
pub record UserHeap : Type 0 where
  pub bottom : ℕ
  pub size : ℕ

module _ (x : X86) where
  -- init_user_heap; the end of `page_range` is exclusive.
  unfoldable pub init_user_heap : ℕ → Mem x.Table → Result MapToError UserHeap × Mem x.Table
  init_user_heap root m =
      let heap_start_page = x.page_of user_heap_start in
      let heap_end_page = heap_start_page + user_heap_page - 1 in
      let (r, m') =
        map_each x root (data_flags true) heap_start_page (heap_end_page - heap_start_page) m in
      elim r [
        | err e ↦ (err e, m')
        | ok _ ↦ (ok (record { bottom = user_heap_start; size = user_heap_size }), m')
      ]

module _ (x : X86) (laws : Laws x) where
  -- Each page of the heap but the last is writable for users, and the last is as before.
  abbrev pub LeavesOut : ℕ → Mem x.Table → Result MapToError UserHeap × Mem x.Table → Type 0
  LeavesOut root m (err _, m') = Unit {0}
  LeavesOut root m (ok heap, m') =
      ((p : ℕ)
        → heap.bottom / 4096 ≤ p
        → p < (heap.bottom + heap.size) / 4096 - 1
        → HasFlags (data_flags true) (x.entry m'.table root p))
      × (x.entry m'.table root ((heap.bottom + heap.size) / 4096 - 1)
          ≡ x.entry m.table root ((heap.bottom + heap.size) / 4096 - 1))

  -- If init_user_heap succeeds, then all pages of the heap that the allocator is given are mapped for users, but for
  -- the last one, which is left as it was.
  pub init_user_heap-LeavesOut :
      (root : ℕ) (m : Mem x.Table) → LeavesOut root m (init_user_heap x root m)
  unfolding init_user_heap
  init_user_heap-LeavesOut root m =
      let page = x.page_of user_heap_start in
      let same : page ≡ user_heap_start / 4096 = laws.page_of_lem user_heap_start in
      by_range page (page + user_heap_page - 1 - page) same (omega arith)
    where
      by_result :
          (r : Result MapToError (Unit {0}) × Mem x.Table)
          → MapsSome x laws root (data_flags true) (user_heap_start / 4096) 255 m r
          → LeavesOut root m (elim r.0 [
            | err e ↦ (err e, r.1)
            | ok _ ↦ (ok (record { bottom = user_heap_start; size = user_heap_size }), r.1)
          ])
      by_result (err e, m') h = tt
      by_result (ok _, m') h = ((λ p lo hi. h.is_set p (ground arith)), h.same _ refl)

      by_range :
          (page count : ℕ)
          → page ≡ user_heap_start / 4096
          → count ≡ 255
          → LeavesOut root m (
              let r = map_each x root (data_flags true) page count m in
              elim r.0 [
                | err e ↦ (err e, r.1)
                | ok _ ↦ (ok (record { bottom = user_heap_start; size = user_heap_size }), r.1)
              ])
      by_range page count same long = by_result (map_each x root (data_flags true) page count m) (
          subst
            (λ p.
              MapsSome x laws root (data_flags true) p 255 m
                (map_each x root (data_flags true) page count m))
            same
            (subst
              (λ n.
                MapsSome x laws root (data_flags true) page n m
                  (map_each x root (data_flags true) page count m))
              long (map_each_lem x laws root (data_flags true) page count m)))
