-- ===== src/Memory/Frames/Ownership.antt =====
-- Who has which frame, over any sequence of allocations and deallocations.
use sysu_ysosv.Prelude.{
  ℕ, suc, ◌+◌, ◌≤◌, ◌<◌, ◌^◌, ◌≡◌, ◌≢◌, refl, ◌∙◌, Option, none, some, List, [], ◌∷◌, arith, length,
  count, ◌==◌, if◌then◌else◌,
}
use sysu_ysosv.Memory.Frames.{Frames, allocate_frame, deallocate_frame}

abbrev pub erase : ℕ → List ℕ → List ℕ
erase x [] = []
erase x (y ∷ ys) = if y == x then ys else y ∷ erase x ys

count-erase :
    (x y : ℕ) (ys : List ℕ) → count y ys ≢ 0 → count x ys ≡ count x (erase y ys) + count x (y ∷ [])
count-erase x y [] h = absurd (h refl)
count-erase x y (z ∷ ys) h = ground (arith, count-erase x y ys)

length-erase : (y : ℕ) (ys : List ℕ) → count y ys ≢ 0 → suc (length (erase y ys)) ≡ length ys
length-erase y [] h = absurd (h refl)
length-erase y (z ∷ ys) h = ground (arith, length-erase y ys)

-- The allocator beside the frames that it has handed out and not got back.
pub record Usage : Type 0 where
  pub alloc : Frames
  pub held : List ℕ

-- A caller takes a frame, or gives back one that is held.
pub data Request : Type 0 where
  takes : Request
  gives : ℕ → Request

abbrev pub hand_out : Usage → Option ℕ → Frames → Usage
hand_out u none a = record u { alloc = a }
hand_out u (some frame) a = record { alloc = a; held = frame ∷ u.held }

unfoldable pub serve : Usage → Request → Usage
serve u takes = let (got, a) = allocate_frame u.alloc in hand_out u got a
serve u (gives frame) =
    if count frame u.held == 0
    then u
    else record { alloc = deallocate_frame frame u.alloc; held = erase frame u.held }

unfoldable pub serve_all : Usage → List Request → Usage
unfolding serve
serve_all u [] = u
serve_all u (r ∷ rs) = serve_all (serve u r) rs

-- How often a frame is held, recycled or still to be handed out.
abbrev pub copies : ℕ → Usage → ℕ
copies x u = count x u.held + count x u.alloc.recycled + count x u.alloc.frames

copies-serve : (x : ℕ) (u : Usage) (r : Request) → copies x (serve u r) ≡ copies x u
unfolding serve allocate_frame deallocate_frame
copies-serve x u takes = ground arith
copies-serve x u (gives frame) = ground (arith, count-erase x frame u.held)

-- No sequence of allocations and deallocations loses a frame or makes one up: each is held,
-- recycled or still to be handed out as often as at the beginning.
pub copies-serve_all :
    (x : ℕ) (u : Usage) (rs : List Request) → copies x (serve_all u rs) ≡ copies x u
unfolding serve_all
copies-serve_all x u [] = refl
copies-serve_all x u (r ∷ rs) = copies-serve_all x (serve u r) rs ∙ copies-serve x u r

abbrev pub unused : Frames → Usage
unused a = record { alloc = a; held = [] }

-- If no frame stands twice in the allocator to begin with, and none is held, then whenever a frame
-- is handed out, after any requests, it is held by nobody else.
pub allocate_frame_exclusive :
    (a : Frames) (rs : List Request) (frame : ℕ)
    → ((x : ℕ) → copies x (unused a) ≤ 1)
    → (allocate_frame (serve_all (unused a) rs).alloc).0 ≡ some frame
    → count frame (serve_all (unused a) rs).held ≡ 0
unfolding allocate_frame
allocate_frame_exclusive a rs frame once e =
    ground (arith, once frame, copies-serve_all frame (unused a) rs)

-- The statistics: of the frames counted as used, those not recycled are the ones held.
abbrev pub IsCounted : Usage → Type 0
IsCounted u = u.alloc.used ≡ length u.held + length u.alloc.recycled

-- A request that is not a failing allocation keeps the statistics right.
pub serve-IsCounted :
    (u : Usage) (r : Request)
    → u.alloc.used + 1 < 2 ^ 64
    → (r ≡ takes → (allocate_frame u.alloc).0 ≢ none)
    → IsCounted u
    → IsCounted (serve u r)
unfolding serve allocate_frame deallocate_frame
serve-IsCounted u takes lt good h = ground (arith, good refl)
serve-IsCounted u (gives frame) lt good h = ground (arith, length-erase frame u.held)

-- An allocation that fails for want of frames counts one as used all the same, so the statistics
-- are wrong from then on.
pub allocate_frame_drift :
    (u : Usage)
    → u.alloc.used + 1 < 2 ^ 64
    → u.alloc.recycled ≡ []
    → u.alloc.frames ≡ []
    → IsCounted u
    → ((allocate_frame u.alloc).0 ≡ none) × ¬ IsCounted (serve u takes)
unfolding serve allocate_frame
allocate_frame_drift u lt r f h = (ground arith, λ wrong. ground arith)
