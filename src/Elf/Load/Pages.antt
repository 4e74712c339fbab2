-- ===== src/Elf/Load/Pages.antt =====
-- What the loops of load_segment leave in memory, page for page.
use sysu_ysosv.Prelude.{
  ℕ, zero, suc, ◌+◌, ◌-◌, ◌*◌, ◌%◌, ◌<◌, ◌≤◌, ◌≡◌, ◌≢◌, refl, ap, subst, ◌∙◌, none, some, arith,
  ltb, ◌==◌, if◌then◌else◌, Option-cases, Bool-cases, inl, inr, ◌⊎◌,
}
use sysu_ysosv.Prelude.Result.{Result, ok, err}
use sysu_ysosv.Memory.Frames.{Frames, allocate_frame}
use sysu_ysosv.Memory.X86.{X86, Laws, Mem, Flags, MapToError, free_copies}
use sysu_ysosv.Elf.{Ram, copy_bytes, zero_bytes, Filled}
use sysu_ysosv.Elf.Load.{bytes_for, place_page, load_page, load_pages, zero_page, zero_pages}

-- The frames that are still to be handed out start at multiples of 4096, each once.
pub record AreFree (a : Frames) : Type 0 where
  pub once : (f : ℕ) → free_copies f a ≤ 1
  pub aligned : (f : ℕ) → free_copies f a ≢ 0 → f % 4096 ≡ 0

-- A frame that is handed out is not to be handed out again.
allocate_frame-taken :
    (a : Frames) (frame : ℕ)
    → AreFree a
    → (allocate_frame a).0 ≡ some frame
    → (free_copies frame a ≢ 0)
      × (free_copies frame (allocate_frame a).1 ≡ 0)
      × ((f : ℕ) → free_copies f (allocate_frame a).1 ≤ free_copies f a)
unfolding allocate_frame
allocate_frame-taken a frame free e =
    (ground (arith, free.once frame), ground (arith, free.once frame), λ f. ground arith)

fewer-AreFree :
    (a b : Frames) → AreFree a → ((f : ℕ) → free_copies f b ≤ free_copies f a) → AreFree b
fewer-AreFree a b free fewer = record {
  once = λ f. omega (arith, free.once f, fewer f);
  aligned = λ f h. free.aligned f (omega (arith, fewer f));
}

-- What load_segment puts into the page `idx` of a segment
abbrev pub page_bytes : Ram → ℕ → ℕ → ℕ → Ram
page_bytes input start file_size idx k =
    if ltb k (bytes_for file_size idx) then input (start + idx * 4096 + k) else 0

module _ (x : X86) (laws : Laws x) (physical_offset root : ℕ) where
  -- A page is mapped to a frame that is no longer free, and the frame holds the bytes `g`.
  pub record Holds (page : ℕ) (flags : Flags) (g : Ram) (s : Filled x.Table) : Type 0 where
    pub frame : ℕ
    pub is_mapped : x.entry s.mem.table root page ≡ some (frame, flags)
    pub taken : free_copies frame s.mem.frames ≡ 0
    pub aligned : frame % 4096 ≡ 0
    pub holds : (k : ℕ) → k < 4096 → s.ram (frame + physical_offset + k) ≡ g k

  -- From one state to another pages were placed: the `n` from `page` on hold what `content` says, and all
  -- that held something still does.
  pub record Placed (flags : Flags) (page n : ℕ) (content : ℕ → Ram) (s s' : Filled x.Table)
      : Type 0 where
    pub free : AreFree s'.mem.frames
    pub filled : (j : ℕ) → j < n → Holds (page + j) flags (content j) s'
    pub kept : (p : ℕ) (flags' : Flags) (g : Ram) → Holds p flags' g s → Holds p flags' g s'

  -- Bytes are written to one frame only.
  pub record Writes (g : Ram) (before after : ℕ → Ram → Ram) : Type 0 where
    pub written :
        (target : ℕ) (ram : Ram) (k : ℕ)
        → k < 4096
        → after target (before target ram) (target + k) ≡ g k
    pub below :
        (target : ℕ) (ram : Ram) (a : ℕ) → a < target → after target (before target ram) a ≡ ram a
    pub above :
        (target : ℕ) (ram : Ram) (a : ℕ)
        → target + 4096 ≤ a
        → after target (before target ram) a ≡ ram a

  -- An error ends the loading; no more is said of what it leaves.
  abbrev pub Places :
      Flags
      → ℕ
      → ℕ
      → (ℕ → Ram)
      → Filled x.Table
      → Result MapToError (Unit {0}) × Filled x.Table
      → Type 0
  Places flags page n content s (err _, s') = Unit {0}
  Places flags page n content s (ok _, s') = Placed flags page n content s s'

  -- A frame that was free is not that of a page that held something before.
  apart :
      (frame other : ℕ) (k : ℕ)
      → frame % 4096 ≡ 0
      → other % 4096 ≡ 0
      → frame ≢ other
      → k < 4096
      → (other + physical_offset + k < frame + physical_offset)
        ⊎ (frame + physical_offset + 4096 ≤ other + physical_offset + k)
  apart frame other k a b ne lt = elim (Bool-cases (ltb other frame)) [
    | inl e ↦ inl (ground arith)
    | inr e ↦ inr (ground arith)
  ]

  module _ (page : ℕ) (flags : Flags) (g : Ram) (before after : ℕ → Ram → Ram)
      (w : Writes g before after) where
    put_kept :
        (frame p : ℕ) (flags' : Flags) (h : Ram) (s : Filled x.Table) (mem : Mem x.Table)
        → frame % 4096 ≡ 0
        → free_copies frame s.mem.frames ≢ 0
        → ((f : ℕ) → free_copies f mem.frames ≤ free_copies f s.mem.frames)
        → x.entry s.mem.table root page ≡ none
        → ((p : ℕ)
            → x.entry mem.table root p
              ≡ (if page == p then some (frame, flags) else x.entry s.mem.table root p))
        → Holds p flags' h s
        → Holds p flags' h (record {
          mem = mem;
          ram = after (frame + physical_offset) (before (frame + physical_offset) s.ram);
        })
    put_kept frame p flags' h s mem al was fewer unmapped entries held =
        let target = frame + physical_offset in
        record {
          frame = held.frame;
          is_mapped = ground (arith, entries p, held.is_mapped, unmapped);
          taken = omega (arith, fewer held.frame, held.taken);
          aligned = held.aligned;
          holds = λ k lt.
              elim (apart frame held.frame k al held.aligned (ground (arith, held.taken)) lt) [
                | inl lo ↦
                    w.below target s.ram (held.frame + physical_offset + k) lo ∙ held.holds k lt
                | inr hi ↦
                    w.above target s.ram (held.frame + physical_offset + k) hi ∙ held.holds k lt
              ];
        }

    mapped_Places :
        (frame : ℕ) (s : Filled x.Table) (m : Mem x.Table)
        (r : Result MapToError (Unit {0}) × Mem x.Table)
        → AreFree s.mem.frames
        → m.table ≡ s.mem.table
        → free_copies frame s.mem.frames ≢ 0
        → free_copies frame m.frames ≡ 0
        → ((f : ℕ) → free_copies f m.frames ≤ free_copies f s.mem.frames)
        → x.map_to root page frame flags m ≡ r
        → Places flags page 1
            (λ j. g)
            s
            (elim r.0 [
              | err e ↦ (err e, record { mem = r.1; ram = before (frame + physical_offset) s.ram })
              | ok _ ↦ (
                ok tt,
                record {
                  mem = r.1;
                  ram = after (frame + physical_offset) (before (frame + physical_offset) s.ram);
                },
              )
            ])
    mapped_Places frame s m (err e, m') free same was now fewer mapped = tt
    mapped_Places frame s m (ok _, m') free same was now fewer mapped =
        let done = laws.map_to_ok root page frame flags m m' mapped in
        let less : (f : ℕ) → free_copies f m'.frames ≤ free_copies f m.frames =
          λ f. ground (arith, laws.map_to_frames root page frame flags m f, mapped) in
        let al = free.aligned frame was in
        let target = frame + physical_offset in
        let entries : (p : ℕ)
            → x.entry m'.table root p
              ≡ (if page == p then some (frame, flags) else x.entry s.mem.table root p) =
          λ p. rw (← same) (done.1 p) in
        record {
          free = fewer-AreFree s.mem.frames m'.frames free (λ f. omega (arith, less f, fewer f));
          filled = λ j lt. record {
            frame = frame;
            is_mapped = ground (arith, entries (page + j));
            taken = omega (arith, less frame, now);
            aligned = al;
            holds = λ k small. w.written target s.ram k small;
          };
          kept = λ p flags' h held.
              put_kept frame p flags' h s m' al was (λ f. omega (arith, less f, fewer f))
                (rw (← same) done.0) entries held;
        }

  place_page-Places :
      (page : ℕ) (flags : Flags) (g : Ram) (before after : ℕ → Ram → Ram) (s : Filled x.Table)
      → Writes g before after
      → AreFree s.mem.frames
      → Places flags page 1 (λ j. g) s (place_page x physical_offset root page flags before after s)
  unfolding place_page
  place_page-Places page flags g before after s w free =
      elim (Option-cases (allocate_frame s.mem.frames).0) [
        | inl empty ↦ rw (place_page, empty) tt
        | inr (frame, got) ↦
            let taken = allocate_frame-taken s.mem.frames frame free got in
            let m : Mem x.Table = record s.mem { frames = (allocate_frame s.mem.frames).1 } in
            rw (place_page, got)
              (mapped_Places page flags g before after w frame s m
                (x.map_to root page frame flags m) free refl taken.0 taken.1 taken.2 refl)
      ]

  pub Placed-none :
      (flags : Flags) (page : ℕ) (content : ℕ → Ram) (s : Filled x.Table)
      → AreFree s.mem.frames
      → Placed flags page 0 content s s
  Placed-none flags page content s free = record {
    free = free;
    filled = λ j lt. absurd (omega arith);
    kept = λ p flags' g h. h;
  }

  Holds_at :
      (p q : ℕ) (flags : Flags) (g : Ram) (s : Filled x.Table)
      → p ≡ q
      → Holds p flags g s
      → Holds q flags g s
  Holds_at p q flags g s e h = subst (λ r. Holds r flags g s) e h

  Placed-suc :
      (flags : Flags) (page n : ℕ) (content : ℕ → Ram) (s s1 s2 : Filled x.Table)
      → Placed flags page 1 (λ j. content 0) s s1
      → Placed flags (suc page) n (λ j. content (suc j)) s1 s2
      → Placed flags page (suc n) content s s2
  Placed-suc flags page n content s s1 s2 a b = record {
    free = b.free;
    filled = filled;
    kept = λ p flags' g h. b.kept p flags' g (a.kept p flags' g h);
  }
    where
      filled : (j : ℕ) → j < suc n → Holds (page + j) flags (content j) s2
      filled zero lt = b.kept (page + 0) flags (content 0) (a.filled 0 (omega arith))
      filled (suc j) lt =
          Holds_at (suc page + j) (page + suc j) flags (content (suc j)) s2 (omega arith)
            (b.filled j (omega arith))

  -- A loop goes on only after its round succeeded.
  round-Places :
      (flags : Flags) (page n : ℕ) (content : ℕ → Ram) (s : Filled x.Table)
      (r : Result MapToError (Unit {0}) × Filled x.Table)
      (next : Filled x.Table → Result MapToError (Unit {0}) × Filled x.Table)
      → Places flags page 1 (λ j. content 0) s r
      → ((s1 : Filled x.Table)
          → AreFree s1.mem.frames
          → Places flags (suc page) n (λ j. content (suc j)) s1 (next s1))
      → Places flags page (suc n) content s (elim r.0 [ ok _ ↦ next r.1 | err e ↦ (err e, r.1) ])
  round-Places flags page n content s (err e, s1) next first rest = tt
  round-Places flags page n content s (ok _, s1) next first rest =
      joined (next s1) (rest s1 first.free)
    where
      joined :
          (r : Result MapToError (Unit {0}) × Filled x.Table)
          → Places flags (suc page) n (λ j. content (suc j)) s1 r
          → Places flags page (suc n) content s r
      joined (err e, s2) h = tt
      joined (ok _, s2) h = Placed-suc flags page n content s s1 s2 first h

  Writes-split :
      (input : Ram) (source n : ℕ)
      → n ≤ 4096
      → Writes
          (λ k. if ltb k n then input (source + k) else 0)
          (λ target. copy_bytes input source target n)
          (λ target ram. if ltb n 4096 then zero_bytes (target + n) (4096 - n) ram else ram)
  Writes-split input source n le = elim (Bool-cases (ltb n 4096)) [
    | inl small ↦ record {
      written = λ target ram k lt.
          let e : target + k - target ≡ k = omega arith in rw (small, e) (ground arith);
      below = λ target ram a lt. rw small (ground arith);
      above = λ target ram a lt. rw small (ground arith);
    }
    | inr full ↦ record {
      written = λ target ram k lt.
          let e : target + k - target ≡ k = omega arith in rw (full, e) (ground arith);
      below = λ target ram a lt. rw full (ground arith);
      above = λ target ram a lt. rw full (ground arith);
    }
  ]

  pub Places-same :
      (flags : Flags) (page n : ℕ) (c d : ℕ → Ram) (s : Filled x.Table)
      (r : Result MapToError (Unit {0}) × Filled x.Table)
      → ((j : ℕ) → c j ≡ d j)
      → Places flags page n c s r
      → Places flags page n d s r
  Places-same flags page n c d s (err e, s') same h = tt
  Places-same flags page n c d s (ok _, s') same h = record {
    free = h.free;
    filled = λ j lt. subst (λ g. Holds (page + j) flags g s') (same j) (h.filled j lt);
    kept = h.kept;
  }

  pub load_pages-Places :
      (flags : Flags) (input : Ram) (start file_size page idx n : ℕ) (s : Filled x.Table)
      → AreFree s.mem.frames
      → Places flags page n
          (λ j. page_bytes input start file_size (idx + j))
          s
          (load_pages x physical_offset root flags input start file_size page idx n s)
  unfolding load_pages load_page
  load_pages-Places flags input start file_size page idx zero s free =
      Placed-none flags page (λ j. page_bytes input start file_size (idx + j)) s free
  load_pages-Places flags input start file_size page idx (suc n) s free =
      let bytes = page_bytes input start file_size in
      round-Places flags page n (λ j. bytes (idx + j)) s
        (load_page x physical_offset root flags input start file_size page idx s)
        (load_pages x physical_offset root flags input start file_size (suc page) (suc idx) n)
        (Places-same flags page 1 (λ j. bytes idx) (λ j. bytes (idx + 0)) s
          (load_page x physical_offset root flags input start file_size page idx s)
          (λ j. ap bytes (omega arith))
          (place_page-Places page flags (bytes idx)
            (λ target. copy_bytes input (start + idx * 4096) target (bytes_for file_size idx))
            (λ target ram.
              if ltb (bytes_for file_size idx) 4096
              then zero_bytes (target + bytes_for file_size idx) (4096 - bytes_for file_size idx)
                  ram
              else ram)
            s (Writes-split input (start + idx * 4096) (bytes_for file_size idx) (ground arith))
            free))
        (λ s1 free1.
          Places-same flags (suc page) n (λ j. bytes (suc idx + j)) (λ j. bytes (idx + suc j)) s1
            (load_pages x physical_offset root flags input start file_size (suc page) (suc idx) n
              s1)
            (λ j. ap bytes (omega arith))
            (load_pages-Places flags input start file_size (suc page) (suc idx) n s1 free1))

  pub zero_pages-Places :
      (flags : Flags) (page n : ℕ) (s : Filled x.Table)
      → AreFree s.mem.frames
      → Places flags page n (λ j k. 0) s (zero_pages x physical_offset root flags page n s)
  unfolding zero_pages zero_page
  zero_pages-Places flags page zero s free = Placed-none flags page (λ j k. 0) s free
  zero_pages-Places flags page (suc n) s free =
      round-Places flags page n (λ j k. 0) s (zero_page x physical_offset root flags page s)
        (zero_pages x physical_offset root flags (suc page) n)
        (place_page-Places page flags (λ k. 0) (λ target ram. ram)
          (λ target. zero_bytes target 4096) s
          (record {
            written = λ target ram k lt. ground arith;
            below = λ target ram a lt. ground arith;
            above = λ target ram a lt. ground arith;
          })
          free)
        (λ s1. zero_pages-Places flags (suc page) n s1)
