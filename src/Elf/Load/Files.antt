-- ===== src/Elf/Load/Files.antt =====
-- load_elf: all segments of a file, one after the other.
use sysu_ysosv.Prelude.{
  ℕ, ◌+◌, ◌-◌, ◌/◌, ◌<◌, ◌≡◌, refl, sym, subst, Bool, Option, none, some, List, [], ◌∷◌, Outcome,
  returns, panics, ◌>>=◌,
}
use sysu_ysosv.Prelude.Result.{Result, ok, err}
use sysu_ysosv.Memory.X86.{X86, Laws, Flags, MapToError}
use sysu_ysosv.Memory.Mapping.{PageRange}
use sysu_ysosv.Elf.{ProgramHeader, SegmentType, load, other, segment_flags, Ram, Filled}
use sysu_ysosv.Elf.Load.{load_segment, load_elf}
use sysu_ysosv.Elf.Load.Pages.{AreFree, Holds}
use sysu_ysosv.Elf.Load.Content.{
  IsAligned, segment_byte, HasByte, InPlace, InPlace-HasByte, IsPlaced, IsPlaced-InPlace,
}
use sysu_ysosv.Elf.Load.Segments.{Loads, load_segment-Loads}

-- The types of all segments can be read, and those that are to be loaded start on a page border.
abbrev pub IsLoadable : Option SegmentType → ProgramHeader → Type 0
IsLoadable none segment = ⊥
IsLoadable (some load) segment = IsAligned segment
IsLoadable (some other) segment = Unit {0}

abbrev pub AreLoadable : List ProgramHeader → Type 0
AreLoadable [] = Unit {0}
AreLoadable (segment ∷ segments) = IsLoadable segment.get_type segment × AreLoadable segments

-- The pages of a segment, and of those that are to be loaded
abbrev pub pages_of : ProgramHeader → PageRange
pages_of segment = record {
  start = segment.virtual_addr / 4096;
  end = (segment.virtual_addr + segment.mem_size - 1) / 4096;
}

abbrev pub loaded_pages : List ProgramHeader → List PageRange
loaded_pages [] = []
loaded_pages (segment ∷ segments) = elim segment.get_type [
  | some load ↦ pages_of segment ∷ loaded_pages segments
  | _ ↦ loaded_pages segments
]

module _ (x : X86) (laws : Laws x) (physical_offset root : ℕ) where
  -- Each byte of each segment that is to be loaded fulfils a predicate.
  abbrev pub EachByte :
      (ℕ → Flags → ℕ → Filled x.Table → Type 0)
      → Ram
      → Bool
      → List ProgramHeader
      → Filled x.Table
      → Type 0
  EachByte P input user [] s = Unit {0}
  EachByte P input user (segment ∷ segments) s =
      (segment.get_type ≡ some load
        → (i : ℕ) → i < segment.mem_size
        → P (segment.virtual_addr + i) (segment_flags segment user) (segment_byte input segment i)
            s)
      × EachByte P input user segments s

  abbrev pub LoadsAll :
      (ℕ → Flags → ℕ → Filled x.Table → Type 0)
      → Ram
      → Bool
      → List ProgramHeader
      → Filled x.Table
      → Outcome (Result MapToError (List PageRange) × Filled x.Table)
      → Type 0
  LoadsAll P input user segments s panics = ⊥
  LoadsAll P input user segments s (returns (err _, s')) = Unit {0}
  LoadsAll P input user segments s (returns (ok ranges, s')) =
      (ranges ≡ loaded_pages segments)
      × EachByte P input user segments s'
      × ((p : ℕ) (flags : Flags) (g : Ram)
          → Holds x laws physical_offset root p flags g s
          → Holds x laws physical_offset root p flags g s')

  abbrev InPlaceHere : ℕ → Flags → ℕ → Filled x.Table → Type 0
  InPlaceHere = InPlace x laws physical_offset root

  LoadsAll-cons :
      (input : Ram) (user : Bool) (segment : ProgramHeader) (segments : List ProgramHeader)
      (s s1 : Filled x.Table) (range : PageRange)
      (r : Outcome (Result MapToError (List PageRange) × Filled x.Table))
      → range ≡ pages_of segment
      → segment.get_type ≡ some load
      → IsAligned segment
      → IsPlaced x laws physical_offset root input user segment s s1
      → LoadsAll InPlaceHere input user segments s1 r
      → LoadsAll InPlaceHere input user (segment ∷ segments) s (do
        (r', s2) ← r
        elim r' [ err e ↦ returns (err e, s2) | ok ranges ↦ returns (ok (range ∷ ranges), s2) ])
  LoadsAll-cons input user segment segments s s1 range panics at_pages kind al p h = absurd h
  LoadsAll-cons input user segment segments s s1 range (returns (err _, s2)) at_pages kind al p h =
      tt
  LoadsAll-cons input user segment segments s s1 range (returns (ok ranges, s2)) at_pages kind al p
        (e, bytes, kept) =
      (
        rw (kind, e, at_pages) refl,
        (
          (λ k i lt.
              let (g, there, at) =
                IsPlaced-InPlace x laws physical_offset root input user segment s s1 i al p lt in
              (
                g,
                kept ((segment.virtual_addr + i) / 4096) (segment_flags segment user) g there,
                at,
              )),
          bytes,
        ),
        λ q flags g h. kept q flags g (p.rest.kept q flags g (p.file_part.kept q flags g h)),
      )

  loaded-LoadsAll :
      (input : Ram) (user : Bool) (segment : ProgramHeader) (segments : List ProgramHeader)
      (s : Filled x.Table) (r : Outcome (Result MapToError PageRange × Filled x.Table))
      (next : Filled x.Table → Outcome (Result MapToError (List PageRange) × Filled x.Table))
      → segment.get_type ≡ some load
      → IsAligned segment
      → Loads x laws physical_offset root input user segment s r
      → ((s1 : Filled x.Table)
          → AreFree s1.mem.frames
          → LoadsAll InPlaceHere input user segments s1 (next s1))
      → LoadsAll InPlaceHere input user (segment ∷ segments) s (do
        (r', s1) ← r
        elim r' [
          | err e ↦ returns (err e, s1)
          | ok range ↦ do
            (rs, s2) ← next s1
            elim rs [ err e ↦ returns (err e, s2) | ok ranges ↦ returns (ok (range ∷ ranges), s2) ]
        ])
  loaded-LoadsAll input user segment segments s panics next kind al h rest = absurd h
  loaded-LoadsAll input user segment segments s (returns (err _, s1)) next kind al h rest = tt
  loaded-LoadsAll input user segment segments s (returns (ok range, s1)) next kind al (e, p) rest =
      LoadsAll-cons input user segment segments s s1 range (next s1) e kind al p
        (rest s1 p.rest.free)

  LoadsAll-skip :
      (input : Ram) (user : Bool) (segment : ProgramHeader) (segments : List ProgramHeader)
      (s : Filled x.Table) (r : Outcome (Result MapToError (List PageRange) × Filled x.Table))
      → segment.get_type ≡ some other
      → LoadsAll InPlaceHere input user segments s r
      → LoadsAll InPlaceHere input user (segment ∷ segments) s r
  LoadsAll-skip input user segment segments s panics kind h = absurd h
  LoadsAll-skip input user segment segments s (returns (err _, s')) kind h = tt
  LoadsAll-skip input user segment segments s (returns (ok ranges, s')) kind (e, bytes, kept) =
      (rw kind e, ((λ k. absurd (cc)), bytes), kept)

  load_elf-load :
      (input : Ram) (user : Bool) (segment : ProgramHeader) (segments : List ProgramHeader)
      (s : Filled x.Table)
      → segment.get_type ≡ some load
      → load_elf x physical_offset root input user (segment ∷ segments) s ≡ (do
        (r, s1) ← load_segment x physical_offset root input user segment s
        elim r [
          | err e ↦ returns (err e, s1)
          | ok range ↦ do
            (rs, s2) ← load_elf x physical_offset root input user segments s1
            elim rs [ err e ↦ returns (err e, s2) | ok ranges ↦ returns (ok (range ∷ ranges), s2) ]
        ])
  unfolding load_elf
  load_elf-load input user segment segments s e = rw (load_elf, e) refl

  load_elf-other :
      (input : Ram) (user : Bool) (segment : ProgramHeader) (segments : List ProgramHeader)
      (s : Filled x.Table)
      → segment.get_type ≡ some other
      → load_elf x physical_offset root input user (segment ∷ segments) s
        ≡ load_elf x physical_offset root input user segments s
  unfolding load_elf
  load_elf-other input user segment segments s e = rw (load_elf, e) refl

  load_elf-InPlace :
      (input : Ram) (user : Bool) (segments : List ProgramHeader) (s : Filled x.Table)
      → AreLoadable segments
      → AreFree s.mem.frames
      → LoadsAll InPlaceHere input user segments s
          (load_elf x physical_offset root input user segments s)
  unfolding load_elf
  load_elf-InPlace input user [] s all free = (refl, tt, λ p flags g h. h)
  load_elf-InPlace input user (segment ∷ segments) s (this, all) free =
      by_type segment.get_type refl this
        (λ s1 free1. load_elf-InPlace input user segments s1 all free1)
    where
      by_type :
          (kind : Option SegmentType)
          → segment.get_type ≡ kind
          → IsLoadable segment.get_type segment
          → ((s1 : Filled x.Table)
              → AreFree s1.mem.frames
              → LoadsAll InPlaceHere input user segments s1
                  (load_elf x physical_offset root input user segments s1))
          → LoadsAll InPlaceHere input user
              (segment ∷ segments)
              s
              (load_elf x physical_offset root input user (segment ∷ segments) s)
      by_type none e good rest = absurd (subst (λ k. IsLoadable k segment) e good)
      by_type (some other) e good rest =
          subst (LoadsAll InPlaceHere input user (segment ∷ segments) s)
            (sym (load_elf-other input user segment segments s e))
            (LoadsAll-skip input user segment segments s
              (load_elf x physical_offset root input user segments s) e (rest s free))
      by_type (some load) e good rest =
          let al : IsAligned segment = subst (λ k. IsLoadable k segment) e good in
          subst (LoadsAll InPlaceHere input user (segment ∷ segments) s)
            (sym (load_elf-load input user segment segments s e))
            (loaded-LoadsAll input user segment segments s
              (load_segment x physical_offset root input user segment s)
              (load_elf x physical_offset root input user segments) e al
              (load_segment-Loads x laws physical_offset root input user segment s al.sized free)
              rest)

  pub EachByte-mono :
      (P Q : ℕ → Flags → ℕ → Filled x.Table → Type 0) (s s' : Filled x.Table)
      → ((addr : ℕ) (flags : Flags) (byte : ℕ) → P addr flags byte s → Q addr flags byte s')
      → (input : Ram) (user : Bool) (segments : List ProgramHeader)
      → EachByte P input user segments s
      → EachByte Q input user segments s'
  EachByte-mono P Q s s' f input user [] h = tt
  EachByte-mono P Q s s' f input user (segment ∷ segments) (this, h) = (
    (λ k i lt.
        f (segment.virtual_addr + i) (segment_flags segment user) (segment_byte input segment i)
          (this k i lt)),
    EachByte-mono P Q s s' f input user segments h,
  )

  -- A loading that succeeded, with weaker knowledge of each byte
  weaker :
      (input : Ram) (user : Bool) (segments : List ProgramHeader) (s : Filled x.Table)
      (r : Outcome (Result MapToError (List PageRange) × Filled x.Table))
      → LoadsAll InPlaceHere input user segments s r
      → LoadsAll (HasByte x laws physical_offset root) input user segments s r
  weaker input user segments s panics h = h
  weaker input user segments s (returns (err _, s')) h = tt
  weaker input user segments s (returns (ok ranges, s')) (e, bytes, kept) = (
    e,
    EachByte-mono InPlaceHere (HasByte x laws physical_offset root) s' s'
        (λ addr flags byte. InPlace-HasByte x laws physical_offset root addr flags byte s') input
        user segments bytes,
    kept,
  )

  -- Suppose that the frames which the allocator still hands out are different multiples of 4096, that the types of
  -- all segments can be read, and that each segment that is to be loaded starts on a page border in
  -- memory and in the file, has bytes in the file, is at least as long in memory, and fits below the end of
  -- the lower half of the address space. Then load_elf does not panic, and if it succeeds,
  -- each byte of each such segment is where its address translates to, with the segment's
  -- flags: the file's byte, or zero after the part that is in the file; the ranges returned are the pages of the
  -- segments, in their order; and pages that held something before hold it still.
  pub load_elf-LoadsAll :
      (input : Ram) (user : Bool) (segments : List ProgramHeader) (s : Filled x.Table)
      → AreLoadable segments
      → AreFree s.mem.frames
      → LoadsAll
          (HasByte x laws physical_offset root)
          input
          user
          segments
          s
          (load_elf x physical_offset root input user segments s)
  load_elf-LoadsAll input user segments s all free =
      weaker input user segments s (load_elf x physical_offset root input user segments s)
        (load_elf-InPlace input user segments s all free)
