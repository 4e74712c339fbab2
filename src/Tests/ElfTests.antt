-- ===== src/Tests/ElfTests.antt =====
-- Programs that are loaded, at concrete inputs.
use sysu_ysosv.Prelude.{
  ℕ, ◌+◌, ◌%◌, ◌≡◌, refl, true, false, some, List, [], ◌∷◌, arith, Outcome, returns, panics,
}
use sysu_ysosv.Prelude.Result.{Result, ok, err}
use sysu_ysosv.Memory.Frames.{allocate_frame}
use sysu_ysosv.Memory.X86.{MapToError}
use sysu_ysosv.Memory.Mapping.{PageRange}
use sysu_ysosv.Elf.{ProgramHeader, load, other, segment_flags, Ram, Filled}
use sysu_ysosv.Elf.Load.{load_segment, load_elf}
use sysu_ysosv.Elf.Load.Pages.{AreFree}
use sysu_ysosv.Elf.Load.Content.{IsSized, IsAligned, HasByte}
use sysu_ysosv.Elf.Load.Files.{LoadsAll, load_elf-LoadsAll}
use sysu_ysosv.Elf.Load.Edges.{load_segment_cuts}
use sysu_ysosv.Elf.Boot.{unmap_segment}
use sysu_ysosv.Elf.Boot.Unmapping.{Fails, unmap_segment-Fails}
use sysu_ysosv.Tests.Machine.{machine, machine_laws, Tables, blank}

-- Byte `i` of the file is `i % 251`.
abbrev pub file_bytes : Ram
file_bytes i = i % 251

abbrev pub free_frames : List ℕ
free_frames = 40960 ∷ 45056 ∷ 49152 ∷ 53248 ∷ 57344 ∷ []

abbrev pub empty : Filled Tables
empty = record { mem = blank free_frames; ram = λ a. 7 }

pub empty-AreFree : AreFree (blank free_frames).frames
empty-AreFree = record { once = λ f. ground arith; aligned = λ f h. ground arith }

-- A code segment of 6000 bytes, a note, and data that ends on a page border in memory.
abbrev pub code : ProgramHeader
code = record {
  get_type = some load;
  offset = 4096;
  virtual_addr = 0x400000;
  mem_size = 6000;
  file_size = 6000;
  is_execute = true;
  is_write = false;
}

abbrev pub note : ProgramHeader
note = record code { get_type = some other }

abbrev pub bss : ProgramHeader
bss = record code {
  offset = 12288;
  virtual_addr = 0x600000;
  mem_size = 8192;
  file_size = 100;
  is_write = true;
}

pub code-IsAligned : IsAligned code
code-IsAligned = record {
  sized = record { some_bytes = omega arith; sizes = omega arith; in_range = omega arith };
  at_border = refl;
  file_at_border = refl;
}

bss-IsSized : IsSized bss
bss-IsSized = record { some_bytes = omega arith; sizes = omega arith; in_range = omega arith }

load_elf-LoadsAll_example :
    LoadsAll machine machine_laws 0x10000 9
      (HasByte machine machine_laws 0x10000 9)
      file_bytes
      true
      (code ∷ note ∷ [])
      empty
      (load_elf machine 0x10000 9 file_bytes true (code ∷ note ∷ []) empty)
load_elf-LoadsAll_example =
    load_elf-LoadsAll machine machine_laws 0x10000 9 file_bytes true (code ∷ note ∷ []) empty
      (code-IsAligned, (tt, tt)) empty-AreFree

abbrev outcome :
    Outcome (Result MapToError PageRange × Filled Tables)
    → Result MapToError PageRange × Filled Tables
outcome (returns r) = r
outcome panics = (ok (record { start = 0; end = 0 }), empty)

abbrev range_of : Result MapToError PageRange → PageRange
range_of (ok range) = range
range_of (err _) = record { start = 0; end = 0 }

abbrev loading : Outcome (Result MapToError PageRange × Filled Tables)
loading = load_segment machine 0x10000 9 file_bytes true bss empty

loading-returns : loading ≡ returns (ok (range_of (outcome loading).0), (outcome loading).1)
unfolding load_segment allocate_frame
loading-returns = refl

-- A segment of 4000 bytes that starts 100 bytes after a page border
abbrev shifted : ProgramHeader
shifted = record code { offset = 4196; virtual_addr = 0x400064; mem_size = 3900; file_size = 3900 }

abbrev cut : Outcome (Result MapToError PageRange × Filled Tables)
cut = load_segment machine 0x10000 9 file_bytes true shifted empty

cut-returns : cut ≡ returns (ok (range_of (outcome cut).0), (outcome cut).1)
unfolding load_segment allocate_frame
cut-returns = refl

load_segment_cuts_example :
    HasByte machine machine_laws 0x10000 9
      (0x400064 + 3850)
      (segment_flags shifted true)
      0
      (outcome cut).1
load_segment_cuts_example =
    load_segment_cuts machine machine_laws 0x10000 9 file_bytes true shifted empty (outcome cut).1
      (range_of (outcome cut).0) 100 3850
      (record { some_bytes = omega arith; sizes = omega arith; in_range = omega arith })
      empty-AreFree refl cut-returns (omega arith) (omega arith) (omega arith)

unmap_segment-Fails_example :
    Fails machine machine_laws 9
      (unmap_segment machine 9 8192 bss (λ root page. some (0, segment_flags bss false)))
unmap_segment-Fails_example =
    unmap_segment-Fails machine machine_laws 9 8192 bss
      (λ root page. some (0, segment_flags bss false)) refl (omega arith) (omega arith) refl refl
      (omega arith) (omega arith) (omega arith)
