-- ===== src/Elf/Boot/Unmapping.antt =====
-- unmap_elf on a segment with a part that is not in the file.
use sysu_ysosv.Prelude.{
  ℕ, zero, suc, ◌+◌, ◌-◌, ◌*◌, ◌/◌, ◌%◌, ◌^◌, ◌<◌, ◌≤◌, ◌≡◌, ◌≢◌, refl, subst, true, false, some,
  none, arith, ltb, ◌==◌, Outcome, returns, panics, ◌>>=◌, Bool-cases, inl, inr,
}
use sysu_ysosv.Prelude.Result.{Result, ok, err}
use sysu_ysosv.Memory.X86.{X86, Laws, UnmapError}
use sysu_ysosv.Elf.{ProgramHeader, load, file_offset}
use sysu_ysosv.Elf.Boot.{unmap_in_place, unmap_bss, unmap_segment}

module _ (x : X86) (laws : Laws x) (root : ℕ) where
  abbrev Unmaps : ℕ → ℕ → x.Table → Result UnmapError (Unit {0}) × x.Table → Type 0
  Unmaps page n t (err _, t') = Unit {0}
  Unmaps page n t (ok _, t') =
      ((p : ℕ) → x.entry t root p ≡ none → x.entry t' root p ≡ none)
      × ((j : ℕ) → j < n → x.entry t' root (page + j) ≡ none)

  Unmaps-suc :
      (page n : ℕ) (t : x.Table) (r : Result UnmapError ℕ × x.Table)
      → x.unmap root page t ≡ r
      → ((t1 : x.Table) → Unmaps (suc page) n t1 (unmap_in_place x root (suc page) n t1))
      → Unmaps page
          (suc n)
          t
          (elim r.0 [ err e ↦ (err e, r.1) | ok _ ↦ unmap_in_place x root (suc page) n r.1 ])
  Unmaps-suc page n t (err e, t1) h rest = tt
  Unmaps-suc page n t (ok frame, t1) h rest =
      joined (unmap_in_place x root (suc page) n t1) (rest t1)
    where
      joined :
          (r : Result UnmapError (Unit {0}) × x.Table)
          → Unmaps (suc page) n t1 r
          → Unmaps page (suc n) t r
      joined (err e, t2) g = tt
      joined (ok _, t2) (stays, gone) =
          let after = laws.unmap_entry root page frame t t1 h in
          (
            (λ p e. stays p (ground (arith, after p))),
            λ j lt. elim (Bool-cases (j == 0)) [
              | inl first ↦
                  let e : page + j ≡ page = ground arith in
                  rw e (stays page (ground (arith, after page)))
              | inr later ↦
                  let e : suc page + (j - 1) ≡ page + j = ground arith in
                  subst (λ q. x.entry t2 root q ≡ none) e (gone (j - 1) (ground arith))
            ],
          )

  unmap_in_place-Unmaps :
      (page n : ℕ) (t : x.Table) → Unmaps page n t (unmap_in_place x root page n t)
  unfolding unmap_in_place
  unmap_in_place-Unmaps page zero t = ((λ p e. e), λ j lt. absurd (omega arith))
  unmap_in_place-Unmaps page (suc n) t =
      Unmaps-suc page n t (x.unmap root page t) refl (λ t1. unmap_in_place-Unmaps (suc page) n t1)

  -- Not a success
  abbrev pub Fails : Outcome (Result UnmapError (Unit {0}) × x.Table) → Type 0
  Fails panics = ⊥
  Fails (returns (err _, t')) = Unit {0}
  Fails (returns (ok _, t')) = ⊥

  unmap_again :
      (page : ℕ) (t : x.Table) (r : Result UnmapError ℕ × x.Table)
      → x.unmap root page t ≡ r
      → x.entry t root page ≡ none
      → (e : UnmapError) × (r ≡ (err e, r.1))
  unmap_again page t (err e, t1) h gone = (e, refl)
  unmap_again page t (ok frame, t1) h gone =
      absurd (laws.unmap_none root page frame t gone (rw h refl))

  unmap_bss-Fails :
      (segment : ProgramHeader) (t : x.Table)
      → segment.virtual_addr + segment.mem_size + 4096 ≤ 2 ^ 47
      → segment.file_size < segment.mem_size
      → 0 < segment.file_size
      → ((segment.virtual_addr + segment.file_size) % 4096 == 0) ≡ false
      → x.entry t root ((segment.virtual_addr + segment.file_size - 1) / 4096) ≡ none
      → Fails (unmap_bss x root segment segment.virtual_addr t)
  unfolding unmap_bss unmap_in_place
  unmap_bss-Fails segment t top bss pos off gone =
      let v = segment.virtual_addr in
      let fs = segment.file_size in
      let page = (v + fs - 1) / 4096 in
      let (e, again) = unmap_again page t (x.unmap root page t) refl gone in
      rw
        (
          unmap_bss,
          laws.virt_add_lem v fs (omega arith),
          ◌>>=◌,
          laws.virt_add_lem v segment.mem_size (omega arith),
          ◌>>=◌,
          off,
          laws.virt_sub_lem (v + fs) 1 (omega arith) (omega arith),
          ◌>>=◌,
          laws.page_of_lem (v + fs - 1),
          unmap_in_place,
          again,
        )
        tt

  -- Suppose that a segment that is to be loaded starts on a page border in memory, its file's part has bytes, is shorter
  -- than the segment and does not end on a page border, the file starts on a page border, and all this fits
  -- into memory. Then unmap_segment never succeeds: the last page of the file's part is
  -- unmapped twice.
  pub unmap_segment-Fails :
      (kernel_start : ℕ) (segment : ProgramHeader) (t : x.Table)
      → segment.get_type ≡ some load
      → segment.virtual_addr + segment.mem_size + 4096 ≤ 2 ^ 47
      → kernel_start + file_offset segment + segment.file_size < 2 ^ 52
      → kernel_start % 4096 ≡ 0
      → segment.virtual_addr % 4096 ≡ 0
      → 0 < segment.file_size
      → segment.file_size < segment.mem_size
      → (segment.virtual_addr + segment.file_size) % 4096 ≢ 0
      → Fails (unmap_segment x root kernel_start segment t)
  unfolding unmap_segment
  unmap_segment-Fails start segment t kind top room at border pos bss off =
      let v = segment.virtual_addr in
      let fs = segment.file_size in
      let o = file_offset segment in
      let longer : ltb fs segment.mem_size ≡ true = ground arith in
      let pages : ((start + o + fs - 1) / 4096 * 4096 + 4096 - (start + o) / 4096 * 4096) / 4096
          ≡ (fs - 1) / 4096 + 1 =
        omega (arith, at) in
      let count = (fs - 1) / 4096 + 1 in
      rw
        (
          unmap_segment,
          kind,
          laws.phys_add_lem start o (omega arith),
          ◌>>=◌,
          laws.virt_addr_lem v (omega arith),
          ◌>>=◌,
          laws.phys_add_lem (start + o) fs room,
          ◌>>=◌,
          laws.phys_sub_lem (start + o + fs) 1 (omega arith) room,
          ◌>>=◌,
        )
        (after longer
          (unmap_in_place x root (x.page_of v)
            ((x.frame_of (start + o + fs - 1) + 4096 - x.frame_of (start + o)) / 4096) t)
          (rw
            (
              laws.page_of_lem v,
              laws.frame_of_lem (start + o + fs - 1),
              laws.frame_of_lem (start + o),
              pages,
            )
            (unmap_in_place-Unmaps (v / 4096) count t)))
    where
      after :
          ltb segment.file_size segment.mem_size ≡ true
          → (r : Result UnmapError (Unit {0}) × x.Table)
          → Unmaps (segment.virtual_addr / 4096) ((segment.file_size - 1) / 4096 + 1) t r
          → Fails (elim r.0 [
            | err e ↦ returns (err e, r.1)
            | ok _ ↦ elim (ltb segment.file_size segment.mem_size) [
              | false ↦ returns (ok tt, r.1)
              | true ↦ unmap_bss x root segment segment.virtual_addr r.1
            ]
          ])
      after longer (err e, t1) h = tt
      after longer (ok _, t1) (stays, gone) =
          let last : segment.virtual_addr / 4096 + (segment.file_size - 1) / 4096
              ≡ (segment.virtual_addr + segment.file_size - 1) / 4096 =
            omega (arith, border, pos) in
          rw longer (
            unmap_bss-Fails segment t1 top bss pos (ground arith) (
              subst (λ q. x.entry t1 root q ≡ none) last
                (gone ((segment.file_size - 1) / 4096) (omega arith))))
