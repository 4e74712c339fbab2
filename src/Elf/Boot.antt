-- ===== src/Elf/Boot.antt =====
-- What the boot loader does with its kernel's file: map_physical_memory, map_elf and unmap_elf. It reaches
-- physical memory at its own addresses, and writes zeros through the new page tables. `start` is the place of
-- the file in physical memory.
pub mod Unmapping
use sysu_ysosv.Prelude.{
  ℕ, zero, suc, ◌+◌, ◌-◌, ◌*◌, ◌/◌, ◌%◌, Bool, true, false, Option, none, some, List, [], ◌∷◌, ltb,
  ◌==◌, not, if◌then◌else◌, Outcome, returns, panics, unwrap, ◌>>=◌,
}
use sysu_ysosv.Prelude.Result.{Result, ok, err}
use sysu_ysosv.Memory.Frames.{allocate_frame}
use sysu_ysosv.Memory.X86.{
  X86, Mem, Flags, MapToError, frame_allocation_failed, parent_entry_huge_page, UnmapError,
  unmap_huge_page,
}
use sysu_ysosv.Elf.{
  ProgramHeader, is_load, segment_flags, file_offset, Ram, copy_bytes, zero_bytes, Filled,
}

module _ (x : X86) (root : ℕ) where
  -- The loop of map_physical_memory, over 2 MiB frames from `frame` on; an error panics.
  unfoldable pub map_frames : ℕ → ℕ → ℕ → Mem x.Table → Outcome (Mem x.Table)
  map_frames offset frame zero m = returns m
  map_frames offset frame (suc n) m = do
    address ← x.virt_addr (frame + offset)
    let (r, m') =
        x.map_huge root (x.huge_of address) frame
          (record { present = true; writable = true; user_accessible = false; no_execute = false })
          m
    elim r [ err _ ↦ panics | ok _ ↦ map_frames offset (frame + 2097152) n m' ]

  -- map_physical_memory
  unfoldable pub map_physical_memory : ℕ → ℕ → Mem x.Table → Outcome (Mem x.Table)
  unfolding map_frames
  map_physical_memory offset max_addr m = do
    first ← x.phys_addr 0
    last ← x.phys_addr max_addr
    let start_frame = x.huge_of first
    let end_frame = x.huge_of last
    map_frames offset start_frame ((end_frame + 2097152 - start_frame) / 2097152) m

  abbrev pub Mapped : Type 0 → Type 0
  Mapped A = Result MapToError A × Filled x.Table

  abbrev with_mem : Filled x.Table → Result MapToError (Unit {0}) × Mem x.Table → Mapped (Unit {0})
  with_mem s (r, mem) = (r, record s { mem = mem })

  -- `for frame in PhysFrame::range_inclusive(start_frame, end_frame)` of map_segment
  map_in_place : Flags → ℕ → ℕ → ℕ → Filled x.Table → Mapped (Unit {0})
  map_in_place flags page frame zero s = (ok tt, s)
  map_in_place flags page frame (suc n) s =
      let (r, mem) = x.map_to root page frame flags s.mem in
      elim r [
        | err e ↦ (err e, record s { mem = mem })
        | ok _ ↦ map_in_place flags (suc page) (frame + 4096) n (record s { mem = mem })
      ]

  -- The loop over the additional frames of map_segment
  map_more : Flags → ℕ → ℕ → Filled x.Table → Mapped (Unit {0})
  map_more flags page zero s = (ok tt, s)
  map_more flags page (suc n) s =
      let (got, frames) = allocate_frame s.mem.frames in
      elim got [
        | none ↦ (err frame_allocation_failed, record s { mem = record s.mem { frames = frames } })
        | some frame ↦
            let (r, mem) = x.map_to root page frame flags (record s.mem { frames = frames }) in
            elim r [
              | err e ↦ (err e, record s { mem = mem })
              | ok _ ↦ map_more flags (suc page) n (record s { mem = mem })
            ]
      ]

  -- The last page of the file's part gets a copy of its frame.
  remap_last : Flags → ℕ → ℕ → Filled x.Table → Outcome (Mapped (Unit {0}))
  remap_last flags last_page last_frame s =
      let (got, frames) = allocate_frame s.mem.frames in
      elim got [
        | none ↦
            returns
              (err frame_allocation_failed, record s { mem = record s.mem { frames = frames } })
        | some frame ↦
            let ram = copy_bytes s.ram last_frame frame 4096 s.ram in
            let (u, table) = x.unmap root last_page s.mem.table in
            elim u [
              | ok _ ↦
                  let s' : Filled x.Table = record {
                    mem = record { table = table; frames = frames };
                    ram = ram;
                  } in
                  returns (with_mem s' (x.map_to root last_page frame flags s'.mem))
              | err unmap_huge_page ↦ returns (
                err parent_entry_huge_page,
                record { mem = record { table = table; frames = frames }; ram = ram },
              )
              | err _ ↦ panics
            ]
      ]

  -- write_bytes of `n` zeros, each through the page tables; a page that is not mapped is a fault.
  zero_mapped : ℕ → ℕ → Filled x.Table → Outcome (Filled x.Table)
  zero_mapped addr zero s = returns s
  zero_mapped addr (suc n) s = elim (x.entry s.mem.table root (x.page_of addr)) [
    | none ↦ panics
    | some e ↦ zero_mapped (suc addr) n (record s { ram = zero_bytes (e.0 + addr % 4096) 1 s.ram })
  ]

  -- `if mem_size > file_size` of map_segment
  map_bss : Flags → ProgramHeader → ℕ → ℕ → Filled x.Table → Outcome (Mapped (Unit {0}))
  unfolding map_more remap_last zero_mapped
  map_bss flags segment virt_start end_frame s = do
    zero_start ← x.virt_add virt_start segment.file_size
    zero_end ← x.virt_add virt_start segment.mem_size
    (r, s1) ← if zero_start % 4096 == 0 then returns (ok tt, s) else (do
      file_end ← x.virt_add virt_start segment.file_size
      file_last ← x.virt_sub file_end 1
      remap_last flags (x.page_of file_last) end_frame s)
    elim r [
      | err e ↦ returns (err e, s1)
      | ok _ ↦ do
        aligned ← x.virt_addr (x.align_up zero_start 4096)
        let start_page = x.page_of aligned
        let (r', s2) = map_more flags start_page (suc (x.page_of zero_end) - start_page) s1
        elim r' [
          | err e ↦ returns (err e, s2)
          | ok _ ↦ do
            s3 ← zero_mapped zero_start (segment.mem_size - segment.file_size) s2
            returns (ok tt, s3)
        ]
    ]

  -- map_segment
  unfoldable pub map_segment : ℕ → ProgramHeader → Filled x.Table → Outcome (Mapped (Unit {0}))
  unfolding map_in_place map_bss
  map_segment start segment s = do
    kind ← unwrap segment.get_type
    elim (is_load kind) [
      | false ↦ returns (ok tt, s)
      | true ↦ do
        phys_start ← x.phys_add start (file_offset segment)
        virt_start ← x.virt_addr segment.virtual_addr
        phys_end ← x.phys_add phys_start segment.file_size
        phys_last ← x.phys_sub phys_end 1
        let start_frame = x.frame_of phys_start
        let end_frame = x.frame_of phys_last
        let flags = segment_flags segment false
        let (r, s1) =
            map_in_place flags (x.page_of virt_start) start_frame
              ((end_frame + 4096 - start_frame) / 4096) s
        elim r [
          | err e ↦ returns (err e, s1)
          | ok _ ↦ elim (ltb segment.file_size segment.mem_size) [
            | false ↦ returns (ok tt, s1)
            | true ↦ map_bss flags segment virt_start end_frame s1
          ]
        ]
    ]

  -- map_elf
  unfoldable pub map_elf : ℕ → List ProgramHeader → Filled x.Table → Outcome (Mapped (Unit {0}))
  unfolding map_segment
  map_elf start [] s = returns (ok tt, s)
  map_elf start (segment ∷ segments) s = do
    (r, s') ← map_segment start segment s
    elim r [ err e ↦ returns (err e, s') | ok _ ↦ map_elf start segments s' ]

  abbrev pub Unmapped : Type 0
  Unmapped = Result UnmapError (Unit {0}) × x.Table

  -- `page_table.unmap(page)?` for each page of a range
  pub unmap_in_place : ℕ → ℕ → x.Table → Unmapped
  unmap_in_place page zero t = (ok tt, t)
  unmap_in_place page (suc n) t =
      let (r, t') = x.unmap root page t in
      elim r [ err e ↦ (err e, t') | ok _ ↦ unmap_in_place (suc page) n t' ]

  -- `if mem_size > file_size` of unmap_segment
  pub unmap_bss : ProgramHeader → ℕ → x.Table → Outcome Unmapped
  unfolding unmap_in_place
  unmap_bss segment virt_start t = do
    zero_start ← x.virt_add virt_start segment.file_size
    zero_end ← x.virt_add virt_start segment.mem_size
    (r, t1) ← if zero_start % 4096 == 0 then returns (ok tt, t) else (do
      file_end ← x.virt_add virt_start segment.file_size
      file_last ← x.virt_sub file_end 1
      returns (unmap_in_place (x.page_of file_last) 1 t))
    elim r [
      | err e ↦ returns (err e, t1)
      | ok _ ↦ do
        aligned ← x.virt_addr (x.align_up zero_start 4096)
        let start_page = x.page_of aligned
        returns (unmap_in_place start_page (suc (x.page_of zero_end) - start_page) t1)
    ]

  -- unmap_segment
  unfoldable pub unmap_segment : ℕ → ProgramHeader → x.Table → Outcome Unmapped
  unfolding unmap_in_place unmap_bss
  unmap_segment kernel_start segment t = do
    kind ← unwrap segment.get_type
    elim (is_load kind) [
      | false ↦ returns (ok tt, t)
      | true ↦ do
        phys_start ← x.phys_add kernel_start (file_offset segment)
        virt_start ← x.virt_addr segment.virtual_addr
        phys_end ← x.phys_add phys_start segment.file_size
        phys_last ← x.phys_sub phys_end 1
        let start_frame = x.frame_of phys_start
        let end_frame = x.frame_of phys_last
        let (r, t1) =
            unmap_in_place (x.page_of virt_start) ((end_frame + 4096 - start_frame) / 4096) t
        elim r [
          | err e ↦ returns (err e, t1)
          | ok _ ↦ elim (ltb segment.file_size segment.mem_size) [
            | false ↦ returns (ok tt, t1)
            | true ↦ unmap_bss segment virt_start t1
          ]
        ]
    ]

  -- unmap_elf
  unfoldable pub unmap_elf : ℕ → List ProgramHeader → x.Table → Outcome Unmapped
  unfolding unmap_segment
  unmap_elf kernel_start [] t = returns (ok tt, t)
  unmap_elf kernel_start (segment ∷ segments) t = do
    (r, t') ← unmap_segment kernel_start segment t
    elim r [ err e ↦ returns (err e, t') | ok _ ↦ unmap_elf kernel_start segments t' ]
