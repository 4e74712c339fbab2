-- ===== src/Elf/Load.antt =====
-- load_elf and load_segment: each segment is copied to new frames, which the kernel reaches through its
-- physical offset.
pub mod Pages
pub mod Content
pub mod Segments
pub mod Files
pub mod Edges
use sysu_ysosv.Prelude.{
  ℕ, zero, suc, ◌+◌, ◌-◌, ◌*◌, ◌%◌, ◌^◌, Bool, true, false, Option, none, some, List, [], ◌∷◌, ltb,
  if◌then◌else◌, Outcome, returns, panics, unwrap, ◌>>=◌,
}
use sysu_ysosv.Prelude.Result.{Result, ok, err}
use sysu_ysosv.Memory.Frames.{allocate_frame}
use sysu_ysosv.Memory.X86.{X86, Mem, Flags, MapToError, frame_allocation_failed}
use sysu_ysosv.Memory.Mapping.{PageRange}
use sysu_ysosv.Elf.{
  ProgramHeader, SegmentType, is_load, segment_flags, file_offset, Ram, copy_bytes, zero_bytes,
  Filled,
}

-- `count` of load_segment, in u64
abbrev pub bytes_for : ℕ → ℕ → ℕ
bytes_for file_size idx =
    let left = (file_size + 2 ^ 64 - idx * 4096) % 2 ^ 64 in if ltb left 4096 then left else 4096

module _ (x : X86) (physical_offset root : ℕ) where
  abbrev pub Loaded : Type 0 → Type 0
  Loaded A = Result MapToError A × Filled x.Table

  -- One round of a loop of load_segment: a frame is allocated, written to, mapped, and written to again.
  unfoldable pub place_page :
      ℕ → Flags → (ℕ → Ram → Ram) → (ℕ → Ram → Ram) → Filled x.Table → Loaded (Unit {0})
  place_page page flags before after s =
      let (got, frames) = allocate_frame s.mem.frames in
      elim got [
        | none ↦ (err frame_allocation_failed, record s { mem = record s.mem { frames = frames } })
        | some frame ↦
            let target = frame + physical_offset in
            let ram = before target s.ram in
            let (r, mem) = x.map_to root page frame flags (record s.mem { frames = frames }) in
            elim r [
              | err e ↦ (err e, record { mem = mem; ram = ram })
              | ok _ ↦ (ok tt, record { mem = mem; ram = after target ram })
            ]
      ]

  -- The file's bytes for a page, and zeros for the rest of it
  load_page : Flags → Ram → ℕ → ℕ → ℕ → ℕ → Filled x.Table → Loaded (Unit {0})
  unfolding place_page
  load_page flags input start file_size page idx s =
      let count = bytes_for file_size idx in
      place_page page flags (λ target. copy_bytes input (start + idx * 4096) target count)
        (λ target ram.
          if ltb count 4096 then zero_bytes (target + count) (4096 - count) ram else ram)
        s

  -- `for (idx, page) in pages.enumerate()`
  pub load_pages : Flags → Ram → ℕ → ℕ → ℕ → ℕ → ℕ → Filled x.Table → Loaded (Unit {0})
  unfolding load_page
  load_pages flags input start file_size page idx zero s = (ok tt, s)
  load_pages flags input start file_size page idx (suc n) s =
      let (r, s') = load_page flags input start file_size page idx s in
      elim r [
        | ok _ ↦ load_pages flags input start file_size (suc page) (suc idx) n s'
        | err e ↦ (err e, s')
      ]

  zero_page : Flags → ℕ → Filled x.Table → Loaded (Unit {0})
  unfolding place_page
  zero_page flags page s =
      place_page page flags (λ target ram. ram) (λ target. zero_bytes target 4096) s

  -- The loop over the additional frames
  pub zero_pages : Flags → ℕ → ℕ → Filled x.Table → Loaded (Unit {0})
  unfolding zero_page
  zero_pages flags page zero s = (ok tt, s)
  zero_pages flags page (suc n) s =
      let (r, s') = zero_page flags page s in
      elim r [ ok _ ↦ zero_pages flags (suc page) n s' | err e ↦ (err e, s') ]

  -- `if mem_size > file_size` of load_segment
  unfoldable pub load_bss : Flags → ProgramHeader → ℕ → Filled x.Table → Outcome (Loaded (Unit {0}))
  unfolding zero_pages
  load_bss flags segment virt_start s = elim (ltb segment.file_size segment.mem_size) [
    | false ↦ returns (ok tt, s)
    | true ↦ do
      zero_start ← x.virt_add virt_start segment.file_size
      zero_end ← x.virt_add virt_start segment.mem_size
      aligned ← x.virt_addr (x.align_up zero_start 4096)
      let start_page = x.page_of aligned
      returns (zero_pages flags start_page (suc (x.page_of zero_end) - start_page) s)
  ]

  -- load_segment; the range is inclusive.
  unfoldable pub load_segment :
      Ram → Bool → ProgramHeader → Filled x.Table → Outcome (Loaded PageRange)
  unfolding load_pages load_bss
  load_segment input user_access segment s = do
    let flags = segment_flags segment user_access
    virt_start ← x.virt_addr segment.virtual_addr
    file_end ← x.virt_add virt_start segment.file_size
    file_last ← x.virt_sub file_end 1
    let start_page = x.page_of virt_start
    let (r, s1) =
        load_pages flags input (file_offset segment) segment.file_size start_page 0
          (suc (x.page_of file_last) - start_page) s
    elim r [
      | err e ↦ returns (err e, s1)
      | ok _ ↦ do
        (r', s2) ← load_bss flags segment virt_start s1
        elim r' [
          | err e ↦ returns (err e, s2)
          | ok _ ↦ do
            mem_end ← x.virt_add virt_start segment.mem_size
            mem_last ← x.virt_sub mem_end 1
            returns (ok (record { start = start_page; end = x.page_of mem_last }), s2)
        ]
    ]

  -- load_elf: the segments that are to be loaded, one after the other, up to the first error.
  unfoldable pub load_elf :
      Ram → Bool → List ProgramHeader → Filled x.Table → Outcome (Loaded (List PageRange))
  unfolding load_segment
  load_elf input user_access [] s = returns (ok [], s)
  load_elf input user_access (segment ∷ segments) s = do
    kind ← unwrap segment.get_type
    elim (is_load kind) [
      | false ↦ load_elf input user_access segments s
      | true ↦ do
        (r, s') ← load_segment input user_access segment s
        elim r [
          | err e ↦ returns (err e, s')
          | ok range ↦ do
            (r', s2) ← load_elf input user_access segments s'
            elim r' [ err e ↦ returns (err e, s2) | ok ranges ↦ returns (ok (range ∷ ranges), s2) ]
        ]
    ]
