-- ===== src/Memory/Frames.antt =====
-- pkg/kernel/src/memory/frames.rs: the frame allocator over the boot memory map. A frame is its
-- start address. The head of `recycled` is the end of the Rust vector; `frames` is what is left of
-- the iterator. `used` is a usize; a release build wraps.
pub mod Ownership
use sysu_ysosv.Prelude.{
  ℕ, zero, suc, ◌+◌, ◌-◌, ◌*◌, ◌%◌, ◌^◌, ◌<◌, ◌≡◌, refl, Bool, true, false, Option, none, some,
  List, [], ◌∷◌, ◌++◌, map, arith, length, ◌==◌, if◌then◌else◌,
}

pub record Frames : Type 0 where
  pub size : ℕ
  pub used : ℕ
  pub frames : List ℕ
  pub recycled : List ℕ

-- An entry of the UEFI memory map, as far as the kernel reads it.
pub record MemoryRegion : Type 0 where
  pub conventional : Bool
  pub phys_start : ℕ
  pub page_count : ℕ

-- 0..n, shifted by k
abbrev range_from : ℕ → ℕ → List ℕ
range_from k zero = []
range_from k (suc n) = k ∷ range_from (suc k) n

-- create_frame_iter, over PhysFrame::containing_address of the x86_64 crate
pub create_frame_iter : (ℕ → ℕ) → List MemoryRegion → List ℕ
create_frame_iter containing [] = []
create_frame_iter containing (r ∷ rs) =
    (if r.conventional
      then map (λ v. containing (v * 4096 + r.phys_start)) (range_from 0 r.page_count)
      else [])
    ++ create_frame_iter containing rs

-- BootInfoFrameAllocator::init
pub init_frames : (ℕ → ℕ) → List MemoryRegion → ℕ → Frames
unfolding create_frame_iter
init_frames containing memory_map size = record {
  size = size;
  used = 0;
  frames = create_frame_iter containing memory_map;
  recycled = [];
}

-- BootInfoFrameAllocator::frames_recycled
pub frames_recycled : Frames → ℕ
frames_recycled a = length a.recycled

-- FrameAllocator::allocate_frame
unfoldable pub allocate_frame : Frames → Option ℕ × Frames
allocate_frame a = elim a.recycled [
  | frame ∷ rest ↦ (some frame, record a { recycled = rest })
  | [] ↦ elim a.frames [
    | frame ∷ rest ↦ (some frame, record a { used = (a.used + 1) % 2 ^ 64; frames = rest })
    | [] ↦ (none, record a { used = (a.used + 1) % 2 ^ 64 })
  ]
]

-- FrameDeallocator::deallocate_frame
unfoldable pub deallocate_frame : ℕ → Frames → Frames
deallocate_frame frame a = record a { recycled = frame ∷ a.recycled }
