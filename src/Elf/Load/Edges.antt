-- ===== src/Elf/Load/Edges.antt =====
-- Segments at the edges of pages.
use sysu_ysosv.Prelude.{
  ℕ, ◌+◌, ◌-◌, ◌*◌, ◌/◌, ◌%◌, ◌^◌, ◌<◌, ◌≤◌, ◌≡◌, ◌≢◌, refl, subst, true, false, none, arith, ltb,
  Bool, returns,
}
use sysu_ysosv.Prelude.Result.{ok}
use sysu_ysosv.Memory.X86.{X86, Laws}
use sysu_ysosv.Memory.Mapping.{PageRange}
use sysu_ysosv.Elf.{ProgramHeader, segment_flags, file_offset, Ram, Filled}
use sysu_ysosv.Elf.Load.{bytes_for, load_segment}
use sysu_ysosv.Elf.Load.Pages.{AreFree, Holds, page_bytes}
use sysu_ysosv.Elf.Load.Content.{IsSized, bytes_for_lem, HasByte, InPlace-HasByte}
use sysu_ysosv.Elf.Load.Segments.{Loads, load_segment-Loads}

module _ (x : X86) (laws : Laws x) (physical_offset root : ℕ) (input : Ram) (user : Bool)
    (segment : ProgramHeader) (s s' : Filled x.Table) (range : PageRange) where
  -- If a segment is longer in memory than in the file, and ends on a page border, then a load that
  -- succeeds maps the page after it too, and this page is not in the range that is returned.
  load_segment_leaks :
      IsSized segment
      → AreFree s.mem.frames
      → segment.file_size < segment.mem_size
      → (segment.virtual_addr + segment.mem_size) % 4096 ≡ 0
      → load_segment x physical_offset root input user segment s ≡ returns (ok range, s')
      → (range.end < (segment.virtual_addr + segment.mem_size) / 4096)
        × (x.entry s'.mem.table root ((segment.virtual_addr + segment.mem_size) / 4096) ≢ none)
  load_segment_leaks sized free bss border e =
      let (r, p) =
        subst (Loads x laws physical_offset root input user segment s) e
          (load_segment-Loads x laws physical_offset root input user segment s sized free) in
      let v = segment.virtual_addr in
      let first = (v + segment.file_size + 4095) / 4096 in
      let last = (v + segment.mem_size) / 4096 in
      let some_more : ltb segment.file_size segment.mem_size ≡ true = ground arith in
      let at : first + (last - first) ≡ last = omega (arith, bss) in
      let held =
        subst (λ q. Holds x laws physical_offset root q (segment_flags segment user) (λ k. 0) s') at
          (p.rest.filled (last - first) (rw some_more (omega (arith, bss)))) in
      (
        rw r (omega (arith, border, sized.some_bytes, sized.sizes)),
        λ none_there. cc (held.is_mapped),
      )

  -- Suppose that a segment starts `d` bytes after a page border, in memory and in the file. After a load
  -- that succeeds, of the file's last `d` bytes those are 0 in memory that stand in a page
  -- which begins no later than the size of the part in the file after the first page's border.
  pub load_segment_cuts :
      (d i : ℕ)
      → IsSized segment
      → AreFree s.mem.frames
      → segment.virtual_addr % 4096 ≡ d
      → load_segment x physical_offset root input user segment s ≡ returns (ok range, s')
      → segment.file_size ≤ i + d
      → i < segment.file_size
      → (d + i) / 4096 * 4096 ≤ segment.file_size
      → HasByte x laws physical_offset root
          (segment.virtual_addr + i)
          (segment_flags segment user)
          0
          s'
  load_segment_cuts d i sized free off e lo hi fits =
      let (r, p) =
        subst (Loads x laws physical_offset root input user segment s) e
          (load_segment-Loads x laws physical_offset root input user segment s sized free) in
      let v = segment.virtual_addr in
      let fs = segment.file_size in
      let idx = (d + i) / 4096 in
      let flags = segment_flags segment user in
      let bytes = page_bytes input (file_offset segment) fs idx in
      let at : v / 4096 + idx ≡ (v + i) / 4096 = omega (arith, off) in
      let inside : (v + i) % 4096 ≡ (d + i) % 4096 = omega (arith, off) in
      let small : fs < 2 ^ 64 = omega (arith, sized.in_range, sized.sizes) in
      let past : ltb ((d + i) % 4096) (bytes_for fs idx) ≡ false =
        rw (bytes_for_lem fs idx fits small) (ground arith) in
      InPlace-HasByte x laws physical_offset root (v + i) flags 0 s' (
        bytes,
        subst (λ q. Holds x laws physical_offset root q flags bytes s') at
            (p.rest.kept (v / 4096 + idx) flags bytes
              (p.file_part.filled idx (omega (arith, off, hi)))),
        rw (inside, past) refl,
      )
