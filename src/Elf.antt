-- ===== src/Elf.antt =====
-- pkg/elf/src/lib.rs: segments of ELF files in memory. Memory is a function from addresses to bytes;
-- the kernel reaches a frame at its address plus `physical_offset`, and the boot loader at its
-- address. Such sums fit into 64 bits.
pub mod Load
pub mod Boot
use sysu_ysosv.Prelude.{
  ℕ, zero, suc, ◌+◌, ◌-◌, ◌*◌, ◌/◌, ◌%◌, ◌^◌, Bool, true, false, Option, none, some, ltb, leb, ◌&&◌,
  not, if◌then◌else◌,
}
use sysu_ysosv.Memory.X86.{Mem, Flags}

-- What the source reads of a program header of the xmas_elf crate. `get_type` is none where that of
-- the crate is an error.
pub data SegmentType : Type 0 where
  load other : SegmentType

pub record ProgramHeader : Type 0 where
  pub get_type : Option SegmentType
  pub offset : ℕ
  pub virtual_addr : ℕ
  pub mem_size : ℕ
  pub file_size : ℕ
  pub is_execute : Bool
  pub is_write : Bool

abbrev pub is_load : SegmentType → Bool
is_load load = true
is_load other = false

-- `page_table_flags`, for a user or not
abbrev pub segment_flags : ProgramHeader → Bool → Flags
segment_flags segment user_access = record {
  present = true;
  writable = segment.is_write;
  user_accessible = user_access;
  no_execute = not segment.is_execute;
}

-- `segment.offset() & !0xfff`
abbrev pub file_offset : ProgramHeader → ℕ
file_offset segment = segment.offset / 4096 * 4096

abbrev pub Ram : Type 0
Ram = ℕ → ℕ

-- copy_nonoverlapping of `n` bytes, from place `source` of a file
abbrev pub copy_bytes : Ram → ℕ → ℕ → ℕ → Ram → Ram
copy_bytes input source target n ram a =
    if leb target a && ltb a (target + n) then input (source + (a - target)) else ram a

-- write_bytes of `n` zeros
abbrev pub zero_bytes : ℕ → ℕ → Ram → Ram
zero_bytes target n ram a = if leb target a && ltb a (target + n) then 0 else ram a

-- Memory with what it holds.
pub record Filled (T : Type 0) : Type 0 where
  pub mem : Mem T
  pub ram : Ram
