-- ===== src/Memory/X86.antt =====
-- What the kernel uses of the x86_64 crate's paging types, as an interface. A page is its number, a
-- page table is named by the frame of its root, and `Table` is the content of all page tables.
-- `entry` is what a 4 KiB page translates to. A frame is its start address; `frame_of` and `huge_of` are
-- PhysFrame::containing_address for 4 KiB and 2 MiB, and `map_huge` is map_to for 2 MiB, with the start address
-- of the page. VirtAddr and PhysAddr are numbers; `virt_add` and the like are their operators, which panic
-- out of range. `copy_root` copies a root table to another frame,
-- `clean_tables` is CleanUp::clean_up. The laws are the documented behaviour of
-- Mapper::map_to, Mapper::unmap, Page::containing_address and align_up.
use sysu_ysosv.Prelude.{
  ℕ, ◌+◌, ◌-◌, ◌*◌, ◌/◌, ◌^◌, ◌<◌, ◌≤◌, returns, count, ◌≡◌, ◌≢◌, Bool, Option, none, some, ◌==◌,
  if◌then◌else◌, Outcome,
}
use sysu_ysosv.Prelude.Result.{Result, ok, err}
use sysu_ysosv.Memory.Frames.{Frames}

pub record Flags : Type 0 where
  pub present : Bool
  pub writable : Bool
  pub user_accessible : Bool
  pub no_execute : Bool

pub data MapToError : Type 0 where
  frame_allocation_failed parent_entry_huge_page page_already_mapped : MapToError

pub data UnmapError : Type 0 where
  unmap_huge_page page_not_mapped invalid_frame_address : UnmapError

-- How often a frame is still to be handed out.
abbrev pub free_copies : ℕ → Frames → ℕ
free_copies frame a = count frame a.recycled + count frame a.frames

-- The page tables, and the allocator that new tables come from.
pub record Mem (T : Type 0) : Type 0 where
  pub table : T
  pub frames : Frames

pub record X86 : Type 1 where
  pub Table : Type 0
  pub page_of : ℕ → ℕ
  pub align_up : ℕ → ℕ → ℕ
  pub frame_of : ℕ → ℕ
  pub huge_of : ℕ → ℕ
  pub virt_addr : ℕ → Outcome ℕ
  pub virt_add : ℕ → ℕ → Outcome ℕ
  pub virt_sub : ℕ → ℕ → Outcome ℕ
  pub phys_addr : ℕ → Outcome ℕ
  pub phys_add : ℕ → ℕ → Outcome ℕ
  pub phys_sub : ℕ → ℕ → Outcome ℕ
  pub entry : Table → ℕ → ℕ → Option (ℕ × Flags)
  pub map_to : ℕ → ℕ → ℕ → Flags → Mem Table → Result MapToError (Unit {0}) × Mem Table
  pub map_huge : ℕ → ℕ → ℕ → Flags → Mem Table → Result MapToError (Unit {0}) × Mem Table
  pub unmap : ℕ → ℕ → Table → Result UnmapError ℕ × Table
  pub copy_root : ℕ → ℕ → Table → Table
  pub clean_tables : ℕ → Mem Table → Mem Table

pub record Laws (x : X86) : Type 0 where
  pub page_of_lem : (addr : ℕ) → x.page_of addr ≡ addr / 4096
  pub align_up_lem : (addr : ℕ) → x.align_up addr 4096 ≡ (addr + 4095) / 4096 * 4096
  -- An address in the lower half of the address space is canonical.
  pub virt_addr_lem : (addr : ℕ) → addr < 2 ^ 47 → x.virt_addr addr ≡ returns addr
  pub virt_add_lem : (addr n : ℕ) → addr + n < 2 ^ 47 → x.virt_add addr n ≡ returns (addr + n)
  pub virt_sub_lem :
      (addr n : ℕ) → n ≤ addr → addr < 2 ^ 47 → x.virt_sub addr n ≡ returns (addr - n)
  pub phys_add_lem : (addr n : ℕ) → addr + n < 2 ^ 52 → x.phys_add addr n ≡ returns (addr + n)
  pub phys_sub_lem :
      (addr n : ℕ) → n ≤ addr → addr < 2 ^ 52 → x.phys_sub addr n ≡ returns (addr - n)
  pub frame_of_lem : (addr : ℕ) → x.frame_of addr ≡ addr / 4096 * 4096
  -- A page that is not mapped cannot be unmapped.
  pub unmap_none :
      (root page frame : ℕ) (t : x.Table)
      → x.entry t root page ≡ none
      → (x.unmap root page t).0 ≢ ok frame
  -- Mapping a page only takes frames from the allocator.
  pub map_to_frames :
      (root page frame : ℕ) (flags : Flags) (m : Mem x.Table) (f : ℕ)
      → free_copies f (x.map_to root page frame flags m).1.frames ≤ free_copies f m.frames
  -- A page is mapped only if it was not, and then only this page changes.
  pub map_to_ok :
      (root page frame : ℕ) (flags : Flags) (m m' : Mem x.Table)
      → x.map_to root page frame flags m ≡ (ok tt, m')
      → (x.entry m.table root page ≡ none)
        × ((p : ℕ)
            → x.entry m'.table root p
              ≡ (if page == p then some (frame, flags) else x.entry m.table root p))
  pub map_to_err :
      (root page frame : ℕ) (flags : Flags) (m m' : Mem x.Table) (e : MapToError)
      → x.map_to root page frame flags m ≡ (err e, m')
      → (p : ℕ) → x.entry m'.table root p ≡ x.entry m.table root p
  -- A mapped page can be unmapped, which gives its frame back and changes this page only.
  pub unmap_ok :
      (root page frame : ℕ) (flags : Flags) (t : x.Table)
      → x.entry t root page ≡ some (frame, flags)
      → (x.unmap root page t).0 ≡ ok frame
  pub unmap_entry :
      (root page frame : ℕ) (t t' : x.Table)
      → x.unmap root page t ≡ (ok frame, t')
      → (p : ℕ) → x.entry t' root p ≡ (if page == p then none else x.entry t root p)
  pub unmap_err :
      (root page : ℕ) (t t' : x.Table) (e : UnmapError)
      → x.unmap root page t ≡ (err e, t')
      → (p : ℕ) → x.entry t' root p ≡ x.entry t root p
