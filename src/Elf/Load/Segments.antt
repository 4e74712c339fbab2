-- ===== src/Elf/Load/Segments.antt =====
-- load_segment, from its loops to the bytes of the segment.
use sysu_ysosv.Prelude.{
  ℕ, suc, ◌+◌, ◌-◌, ◌*◌, ◌/◌, ◌^◌, ◌<◌, ◌≡◌, refl, ap, Bool, arith, ltb, Bool-cases, inl, inr,
  Outcome, returns, panics, ◌>>=◌,
}
use sysu_ysosv.Prelude.Result.{Result, ok, err}
use sysu_ysosv.Memory.X86.{X86, Laws, MapToError}
use sysu_ysosv.Memory.Mapping.{PageRange}
use sysu_ysosv.Elf.{ProgramHeader, segment_flags, file_offset, Ram, Filled}
use sysu_ysosv.Elf.Load.{load_pages, zero_pages, load_bss, load_segment}
use sysu_ysosv.Elf.Load.Pages.{
  AreFree, Placed, Places, page_bytes, Placed-none, Places-same, load_pages-Places,
  zero_pages-Places,
}
use sysu_ysosv.Elf.Load.Content.{IsSized, file_pages, more_pages, IsPlaced}

module _ (x : X86) (laws : Laws x) (physical_offset root : ℕ) where
  -- The rest of a segment
  abbrev RestPlaced :
      Bool
      → ProgramHeader
      → Filled x.Table
      → Outcome (Result MapToError (Unit {0}) × Filled x.Table)
      → Type 0
  RestPlaced user segment s panics = ⊥
  RestPlaced user segment s (returns r) =
      Places x laws physical_offset root (segment_flags segment user)
        ((segment.virtual_addr + segment.file_size + 4095) / 4096) (more_pages segment) (λ j k. 0) s
        r

  load_bss-RestPlaced :
      (user : Bool) (segment : ProgramHeader) (s : Filled x.Table)
      → IsSized segment
      → AreFree s.mem.frames
      → RestPlaced user segment s (
          load_bss x physical_offset root
            (segment_flags segment user)
            segment
            segment.virtual_addr
            s)
  unfolding load_bss zero_pages
  load_bss-RestPlaced user segment s al free =
      let flags = segment_flags segment user in
      let v = segment.virtual_addr in
      let fs = segment.file_size in
      let ms = segment.mem_size in
      let first = (v + fs + 4095) / 4096 in
      elim (Bool-cases (ltb fs ms)) [
        | inl more ↦
            let small : first * 4096 < 2 ^ 47 = omega (arith, al.in_range, al.sizes) in
            let same : first * 4096 / 4096 ≡ first = omega arith in
            let count : more_pages segment ≡ suc ((v + ms) / 4096) - first = rw more refl in
            let top : v + ms < 2 ^ 47 = omega (arith, al.in_range) in
            rw
              (
                load_bss,
                more,
                laws.virt_add_lem v fs (omega (arith, al.in_range, al.sizes)),
                laws.virt_add_lem v ms top,
                laws.align_up_lem (v + fs),
                laws.virt_addr_lem (first * 4096) small,
                ◌>>=◌,
                laws.page_of_lem (first * 4096),
                same,
                laws.page_of_lem (v + ms),
              )
              (rw count (
                zero_pages-Places x laws physical_offset root flags first
                  (suc ((v + ms) / 4096) - first) s free))
        | inr none_left ↦
            rw (load_bss, none_left)
              (rw none_left (Placed-none x laws physical_offset root flags first (λ j k. 0) s free))
      ]

  -- What load_segment has done when it stops: unless there was an error, the segment is in place, and the
  -- pages that it says are those of the segment.
  abbrev pub Loads :
      Ram
      → Bool
      → ProgramHeader
      → Filled x.Table
      → Outcome (Result MapToError PageRange × Filled x.Table)
      → Type 0
  Loads input user segment s panics = ⊥
  Loads input user segment s (returns (err _, s')) = Unit {0}
  Loads input user segment s (returns (ok range, s')) =
      (range ≡ record {
        start = segment.virtual_addr / 4096;
        end = (segment.virtual_addr + segment.mem_size - 1) / 4096;
      })
      × IsPlaced x laws physical_offset root input user segment s s'

  bss_Loads :
      (input : Ram) (user : Bool) (segment : ProgramHeader) (s s1 : Filled x.Table) (start : ℕ)
      (r : Outcome (Result MapToError (Unit {0}) × Filled x.Table))
      → IsSized segment
      → start ≡ segment.virtual_addr / 4096
      → Placed x laws physical_offset root
          (segment_flags segment user)
          (segment.virtual_addr / 4096)
          (file_pages segment)
          (page_bytes input (file_offset segment) segment.file_size)
          s
          s1
      → RestPlaced user segment s1 r
      → Loads input user segment s (do
        (r', s2) ← r
        elim r' [
          | err e ↦ returns (err e, s2)
          | ok _ ↦ do
            mem_end ← x.virt_add segment.virtual_addr segment.mem_size
            mem_last ← x.virt_sub mem_end 1
            returns (ok (record { start = start; end = x.page_of mem_last }), s2)
        ])
  bss_Loads input user segment s s1 start panics al e placed h = absurd h
  bss_Loads input user segment s s1 start (returns (err _, s2)) al e placed h = tt
  bss_Loads input user segment s s1 start (returns (ok _, s2)) al e placed h =
      let top : segment.virtual_addr + segment.mem_size < 2 ^ 47 = omega (arith, al.in_range) in
      let v = segment.virtual_addr in
      let ms = segment.mem_size in
      rw
        (
          laws.virt_add_lem v ms top,
          ◌>>=◌,
          laws.virt_sub_lem (v + ms) 1 (omega (arith, al.some_bytes, al.sizes)) top,
          ◌>>=◌,
          laws.page_of_lem (v + ms - 1),
          e,
        )
        (refl, record { between = s1; file_part = placed; rest = h })

  file_Loads :
      (input : Ram) (user : Bool) (segment : ProgramHeader) (s : Filled x.Table) (start : ℕ)
      (r : Result MapToError (Unit {0}) × Filled x.Table)
      → IsSized segment
      → start ≡ segment.virtual_addr / 4096
      → Places x laws physical_offset root
          (segment_flags segment user)
          (segment.virtual_addr / 4096)
          (file_pages segment)
          (page_bytes input (file_offset segment) segment.file_size)
          s
          r
      → Loads input user segment s (elim r.0 [
        | err e ↦ returns (err e, r.1)
        | ok _ ↦ do
          (r', s2) ←
              load_bss x physical_offset root
                (segment_flags segment user)
                segment
                segment.virtual_addr
                r.1
          elim r' [
            | err e ↦ returns (err e, s2)
            | ok _ ↦ do
              mem_end ← x.virt_add segment.virtual_addr segment.mem_size
              mem_last ← x.virt_sub mem_end 1
              returns (ok (record { start = start; end = x.page_of mem_last }), s2)
          ]
      ])
  file_Loads input user segment s start (err _, s1) al e h = tt
  file_Loads input user segment s start (ok _, s1) al e h =
      bss_Loads input user segment s s1 start
        (load_bss x physical_offset root (segment_flags segment user) segment segment.virtual_addr
          s1)
        al e h (load_bss-RestPlaced user segment s1 al h.free)

  pub load_segment-Loads :
      (input : Ram) (user : Bool) (segment : ProgramHeader) (s : Filled x.Table)
      → IsSized segment
      → AreFree s.mem.frames
      → Loads input user segment s (load_segment x physical_offset root input user segment s)
  unfolding load_segment
  load_segment-Loads input user segment s al free =
      let v = segment.virtual_addr in
      let fs = segment.file_size in
      rw
        (
          load_segment,
          laws.virt_addr_lem v (omega (arith, al.in_range)),
          ◌>>=◌,
          laws.virt_add_lem v fs (omega (arith, al.in_range, al.sizes)),
          ◌>>=◌,
          laws.virt_sub_lem (v + fs) 1 (omega (arith, al.some_bytes))
              (omega (arith, al.in_range, al.sizes)),
          ◌>>=◌,
        )
        (file_Loads input user segment s (x.page_of v)
          (load_pages x physical_offset root (segment_flags segment user) input
            (file_offset segment) fs (x.page_of v) 0 (suc (x.page_of (v + fs - 1)) - x.page_of v) s)
          al (laws.page_of_lem v)
          (rw (laws.page_of_lem v, laws.page_of_lem (v + fs - 1))
            (Places-same x laws physical_offset root (segment_flags segment user) (v / 4096)
              (file_pages segment) (λ j. page_bytes input (file_offset segment) fs (0 + j))
              (page_bytes input (file_offset segment) fs) s
              (load_pages x physical_offset root (segment_flags segment user) input
                (file_offset segment) fs (v / 4096) 0 (file_pages segment) s)
              (λ j. ap (page_bytes input (file_offset segment) fs) (omega arith))
              (load_pages-Places x laws physical_offset root (segment_flags segment user) input
                (file_offset segment) fs (v / 4096) 0 (file_pages segment) s free))))
