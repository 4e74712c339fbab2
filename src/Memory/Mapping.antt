-- ===== src/Memory/Mapping.antt =====
-- pkg/elf/src/lib.rs: mapping and unmapping of page ranges. A range is its first page and its end,
-- inclusive or not as in the source; the loops recur on the number of pages left. VirtAddr::new
-- and the operators of Page panic on an address that is not canonical.
pub mod Ranges
pub mod Unmapping
use sysu_ysosv.Prelude.{
  ℕ, zero, suc, ◌+◌, ◌-◌, ◌*◌, ◌≡◌, refl, Outcome, returns, panics, ◌>>=◌, Bool, true, false,
  Option, none, some, List, [], ◌∷◌, ◌==◌, if◌then◌else◌,
}
use sysu_ysosv.Prelude.Result.{Result, ok, err}
use sysu_ysosv.Memory.Frames.{Frames, allocate_frame, deallocate_frame}
use sysu_ysosv.Memory.X86.{X86, Mem, Flags, MapToError, UnmapError, frame_allocation_failed}

-- PRESENT | WRITABLE, and USER_ACCESSIBLE for a user
abbrev pub data_flags : Bool → Flags
data_flags user_access = record {
  present = true;
  writable = true;
  user_accessible = user_access;
  no_execute = false;
}

-- PageRange
pub record PageRange : Type 0 where
  pub start : ℕ
  pub end : ℕ

module _ (x : X86) where
  abbrev pub Mapped : Type 0 → Type 0
  Mapped A = Result MapToError A × Mem x.Table

  -- One round of the loop of map_range.
  pub map_page : ℕ → ℕ → Flags → Mem x.Table → Mapped (Unit {0})
  map_page root page flags m =
      let (got, frames) = allocate_frame m.frames in
      elim got [
        | none ↦ (err frame_allocation_failed, record m { frames = frames })
        | some frame ↦ x.map_to root page frame flags (record m { frames = frames })
      ]

  -- `for page in page_range` of map_range
  unfoldable pub map_each : ℕ → Flags → ℕ → ℕ → Mem x.Table → Mapped (Unit {0})
  unfolding map_page
  map_each root flags page zero m = (ok tt, m)
  map_each root flags page (suc n) m =
      let (r, m') = map_page root page flags m in
      elim r [ ok _ ↦ map_each root flags (suc page) n m' | err e ↦ (err e, m') ]

  -- map_range, of the pages from `start` to `end` inclusive
  unfoldable pub map_range : ℕ → ℕ → ℕ → Bool → Mem x.Table → Mapped (Unit {0})
  unfolding map_each
  map_range root start end user_access m =
      map_each root (data_flags user_access) start (suc end - start) m

  -- The addresses that map_pages and unmap_pages go through: that of VirtAddr::new, of the page behind the
  -- range, and of its last page.
  unfoldable pub addressed : ℕ → ℕ → Outcome ℕ
  addressed addr pages = do
    start ← x.virt_addr addr
    end ← x.virt_add (x.page_of addr * 4096) (pages * 4096)
    x.virt_sub end 4096

  -- map_pages, once its addresses are there
  unfoldable pub map_from : ℕ → ℕ → ℕ → Bool → Mem x.Table → Mapped PageRange
  unfolding map_range
  map_from root range_start pages user_access m =
      let range_end = range_start + pages in
      let (r, m') = map_range root range_start (range_end - 1) user_access m in
      elim r [
        | ok _ ↦ (ok (record { start = range_start; end = range_end }), m')
        | err e ↦ (err e, m')
      ]

  -- map_pages
  unfoldable pub map_pages : ℕ → ℕ → ℕ → Bool → Mem x.Table → Outcome (Mapped PageRange)
  unfolding map_from addressed
  map_pages root addr pages user_access m = do
    _ ← addressed addr pages
    returns (map_from root (x.page_of addr) pages user_access m)

  abbrev pub Unmapped : Type 0
  Unmapped = Result UnmapError (Unit {0}) × Mem x.Table

  -- One round of the loop of unmap_range.
  unmap_page : ℕ → ℕ → Bool → Mem x.Table → Unmapped
  unmap_page root page do_dealloc m =
      let (r, table) = x.unmap root page m.table in
      elim r [
        | err e ↦ (err e, record m { table = table })
        | ok frame ↦ (
          ok tt,
          record {
            table = table;
            frames = if do_dealloc then deallocate_frame frame m.frames else m.frames;
          },
        )
      ]

  -- `for page in page_range` of unmap_range
  unmap_each : ℕ → Bool → ℕ → ℕ → Mem x.Table → Unmapped
  unfolding unmap_page
  unmap_each root do_dealloc page zero m = (ok tt, m)
  unmap_each root do_dealloc page (suc n) m =
      let (r, m') = unmap_page root page do_dealloc m in
      elim r [ ok _ ↦ unmap_each root do_dealloc (suc page) n m' | err e ↦ (err e, m') ]

  -- unmap_range, of the pages from `start` to `end` inclusive
  unfoldable pub unmap_range : ℕ → ℕ → ℕ → Bool → Mem x.Table → Unmapped
  unfolding unmap_each
  unmap_range root start end do_dealloc m = unmap_each root do_dealloc start (suc end - start) m

  -- unmap_pages
  unfoldable pub unmap_pages : ℕ → ℕ → ℕ → Bool → Mem x.Table → Outcome Unmapped
  unfolding unmap_range addressed
  unmap_pages root addr pages do_dealloc m = do
    _ ← addressed addr pages
    let start = x.page_of addr
    let end = start + pages - 1
    returns (unmap_range root start end do_dealloc m)
