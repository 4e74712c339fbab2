-- ===== src/Elf/Load/Content.antt =====
-- What a segment has become in memory when it is loaded.
use sysu_ysosv.Prelude.{
  ℕ, suc, ◌+◌, ◌-◌, ◌*◌, ◌/◌, ◌%◌, ◌^◌, ◌<◌, ◌≤◌, ◌≡◌, refl, subst, ◌∙◌, Bool, true, false, some,
  arith, ltb, if◌then◌else◌, Bool-cases, inl, inr,
}
use sysu_ysosv.Memory.X86.{X86, Laws, Flags}
use sysu_ysosv.Elf.{ProgramHeader, segment_flags, file_offset, Ram, Filled}
use sysu_ysosv.Elf.Load.{bytes_for}
use sysu_ysosv.Elf.Load.Pages.{Holds, Placed, page_bytes}

-- A segment with bytes in the file that is at least as long in memory, and fits into the lower half
-- of the address space with a page to spare
pub record IsSized (segment : ProgramHeader) : Type 0 where
  pub some_bytes : 0 < segment.file_size
  pub sizes : segment.file_size ≤ segment.mem_size
  pub in_range : segment.virtual_addr + segment.mem_size + 4096 ≤ 2 ^ 47

-- It starts on a page border, too.
pub record IsAligned (segment : ProgramHeader) : Type 0 where
  pub sized : IsSized segment
  pub at_border : segment.virtual_addr % 4096 ≡ 0
  pub file_at_border : segment.offset % 4096 ≡ 0

-- The byte of a segment in memory
abbrev pub segment_byte : Ram → ProgramHeader → ℕ → ℕ
segment_byte input segment i = if ltb i segment.file_size then input (segment.offset + i) else 0

-- The pages that the file's part and the rest of a segment take
abbrev pub file_pages : ProgramHeader → ℕ
file_pages segment =
    suc ((segment.virtual_addr + segment.file_size - 1) / 4096) - segment.virtual_addr / 4096

abbrev pub more_pages : ProgramHeader → ℕ
more_pages segment =
    if ltb segment.file_size segment.mem_size
    then suc ((segment.virtual_addr + segment.mem_size) / 4096)
      - (segment.virtual_addr + segment.file_size + 4095) / 4096
    else 0

pub bytes_for_lem :
    (fs idx : ℕ)
    → idx * 4096 ≤ fs
    → fs < 2 ^ 64
    → bytes_for fs idx ≡ (if ltb (fs - idx * 4096) 4096 then fs - idx * 4096 else 4096)
bytes_for_lem fs idx le lt =
    let e : (fs + 2 ^ 64 - idx * 4096) % 2 ^ 64 ≡ fs - idx * 4096 = omega arith in rw e refl

page_bytes-segment_byte :
    (input : Ram) (segment : ProgramHeader) (i : ℕ)
    → IsAligned segment
    → i / 4096 < file_pages segment
    → page_bytes input
        (file_offset segment)
        segment.file_size
        (i / 4096)
        ((segment.virtual_addr + i) % 4096)
      ≡ segment_byte input segment i
page_bytes-segment_byte input segment i al lt =
    let v = segment.virtual_addr in
    let fs = segment.file_size in
    let k : (v + i) % 4096 ≡ i % 4096 = omega (arith, al.at_border) in
    let o : segment.offset / 4096 * 4096 ≡ segment.offset = omega (arith, al.file_at_border) in
    let q : segment.offset + i / 4096 * 4096 + i % 4096 ≡ segment.offset + i = omega arith in
    let le : i / 4096 * 4096 ≤ fs = omega (arith, al.at_border, al.sized.some_bytes) in
    let small : fs < 2 ^ 64 = omega (arith, al.sized.in_range, al.sized.sizes) in
    rw (k, o, bytes_for_lem fs (i / 4096) le small, q) (ground arith)

zero_part :
    (input : Ram) (segment : ProgramHeader) (i : ℕ)
    → IsAligned segment
    → i < segment.mem_size
    → file_pages segment ≤ i / 4096
    → ((segment.virtual_addr + segment.file_size + 4095) / 4096 + (i / 4096 - file_pages segment)
        ≡ (segment.virtual_addr + i) / 4096)
      × (i / 4096 - file_pages segment < more_pages segment)
      × (0 ≡ segment_byte input segment i)
zero_part input segment i al lt hi =
    let v = segment.virtual_addr in
    let fs = segment.file_size in
    let bss : ltb fs segment.mem_size ≡ true = ground (arith, al.at_border, al.sized.some_bytes) in
    let past : ltb i fs ≡ false = ground (arith, al.at_border, al.sized.some_bytes) in
    (
      omega (arith, al.at_border, al.sized.some_bytes),
      rw bss (omega (arith, al.at_border, al.sized.some_bytes)),
      rw past refl,
    )

module _ (x : X86) (laws : Laws x) (physical_offset root : ℕ) where
  -- An address translates, with these flags, to a place that holds the byte.
  pub record HasByte (addr : ℕ) (flags : Flags) (byte : ℕ) (s : Filled x.Table) : Type 0 where
    pub frame : ℕ
    pub is_mapped : x.entry s.mem.table root (addr / 4096) ≡ some (frame, flags)
    pub byte_there : s.ram (frame + physical_offset + addr % 4096) ≡ byte

  -- The same, in a frame that is no longer free.
  abbrev pub InPlace : ℕ → Flags → ℕ → Filled x.Table → Type 0
  InPlace addr flags byte s =
      (g : Ram) × Holds x laws physical_offset root (addr / 4096) flags g s
      × (g (addr % 4096) ≡ byte)

  pub InPlace-HasByte :
      (addr : ℕ) (flags : Flags) (byte : ℕ) (s : Filled x.Table)
      → InPlace addr flags byte s
      → HasByte addr flags byte s
  InPlace-HasByte addr flags byte s (g, h, e) = record {
    frame = h.frame;
    is_mapped = h.is_mapped;
    byte_there = h.holds (addr % 4096) (omega arith) ∙ e;
  }

  -- Both parts of a segment are in place.
  pub record IsPlaced (input : Ram) (user : Bool) (segment : ProgramHeader) (s s' : Filled x.Table)
      : Type 0 where
    pub between : Filled x.Table
    pub file_part :
        Placed x laws physical_offset root
          (segment_flags segment user)
          (segment.virtual_addr / 4096)
          (file_pages segment)
          (page_bytes input (file_offset segment) segment.file_size)
          s
          between
    pub rest :
        Placed x laws physical_offset root
          (segment_flags segment user)
          ((segment.virtual_addr + segment.file_size + 4095) / 4096)
          (more_pages segment)
          (λ j k. 0)
          between
          s'

  pub IsPlaced-InPlace :
      (input : Ram) (user : Bool) (segment : ProgramHeader) (s s' : Filled x.Table) (i : ℕ)
      → IsAligned segment
      → IsPlaced input user segment s s'
      → i < segment.mem_size
      → InPlace
          (segment.virtual_addr + i)
          (segment_flags segment user)
          (segment_byte input segment i)
          s'
  IsPlaced-InPlace input user segment s s' i al p lt =
      let flags = segment_flags segment user in
      let v = segment.virtual_addr in
      let pages = file_pages segment in
      elim (Bool-cases (ltb (i / 4096) pages)) [
        | inl lo ↦
            let e : v / 4096 + i / 4096 ≡ (v + i) / 4096 = omega (arith, al.at_border) in
            (
              page_bytes input (file_offset segment) segment.file_size (i / 4096),
              subst
                  (λ q.
                    Holds x laws physical_offset root q flags
                      (page_bytes input (file_offset segment) segment.file_size (i / 4096)) s')
                  e
                  (p.rest.kept (v / 4096 + i / 4096) flags
                    (page_bytes input (file_offset segment) segment.file_size (i / 4096))
                    (p.file_part.filled (i / 4096) (ground arith))),
              page_bytes-segment_byte input segment i al (ground arith),
            )
        | inr hi ↦
            let (e, there, zero_byte) = zero_part input segment i al lt (ground arith) in
            (
              (λ k. 0),
              subst (λ q. Holds x laws physical_offset root q flags (λ k. 0) s') e
                  (p.rest.filled (i / 4096 - pages) there),
              zero_byte,
            )
      ]
