-- ===== src/Storage/Paths/Parts.antt =====
-- pkg/storage/src/fs/fat16/impls.rs: parse_path, the parts of a path.
use sysu_ysosv.Prelude.{
  ℕ, ◌≡◌, ◌≢◌, refl, ap, ◌∙◌, List, [], ◌∷◌, ◌++◌, arith, ◌==◌, ==_self, All, Bool-cases, inl, inr,
}
use sysu_ysosv.Text.Ascii.{Without}
use sysu_ysosv.Storage.Paths.{cons_first, split, non_empty, parse_path}

split-cons : (sep : ℕ) (s : List ℕ) → (p : List ℕ) × (ps : List (List ℕ)) × (split sep s ≡ p ∷ ps)
unfolding split cons_first
split-cons sep [] = ([], [], refl)
split-cons sep (c ∷ s) =
    let (p, ps, e) = split-cons sep s in
    elim (Bool-cases (c == sep)) [
      | inl on ↦ ([], split sep s, rw on refl)
      | inr off ↦ (c ∷ p, ps, rw (off, e) refl)
    ]

split-append : (sep : ℕ) (s t : List ℕ) → split sep (s ++ sep ∷ t) ≡ split sep s ++ split sep t
unfolding split
split-append sep [] t = rw (==_self sep) refl
split-append sep (c ∷ s) t = elim (Bool-cases (c == sep)) [
  | inl on ↦ rw (on, split-append sep s t) refl
  | inr off ↦
      let (p, ps, e) = split-cons sep s in rw (off, split-append sep s t, e, cons_first) refl
]

non_empty-append : (ps qs : List (List ℕ)) → non_empty (ps ++ qs) ≡ non_empty ps ++ non_empty qs
unfolding non_empty
non_empty-append [] qs = refl
non_empty-append ([] ∷ ps) qs = non_empty-append ps qs
non_empty-append ((c ∷ p) ∷ ps) qs = ap (λ r. (c ∷ p) ∷ r) (non_empty-append ps qs)

parse_path-append : (s t : List ℕ) → parse_path (s ++ b'/' ∷ t) ≡ parse_path s ++ parse_path t
unfolding parse_path
parse_path-append s t = rw (split-append b'/' s t) (non_empty-append (split b'/' s) (split b'/' t))

split-Without : (sep : ℕ) (s : List ℕ) → Without sep s → split sep s ≡ s ∷ []
unfolding split cons_first
split-Without sep [] h = refl
split-Without sep (c ∷ s) h = ground (arith, h.0, split-Without sep s h.1)

-- A part: a character at least, and no slash.
abbrev pub IsPart : List ℕ → Type 0
IsPart part = Without b'/' part × (part ≢ [])

parse_path-IsPart : (part : List ℕ) → IsPart part → parse_path part ≡ part ∷ []
unfolding parse_path non_empty
parse_path-IsPart [] h = absurd (h.1 refl)
parse_path-IsPart (c ∷ part) h = rw (split-Without b'/' (c ∷ part) h.0) refl

-- The parts, each before a slash.
abbrev pub join : List (List ℕ) → List ℕ
join [] = []
join (part ∷ parts) = part ++ b'/' ∷ join parts

parse_path-join : (parts : List (List ℕ)) → All IsPart parts → parse_path (join parts) ≡ parts
unfolding parse_path split non_empty
parse_path-join [] h = refl
parse_path-join (part ∷ parts) h =
    rw (parse_path-append part (join parts), parse_path-IsPart part h.0, parse_path-join parts h.1)
      refl

slash_first : (path : List ℕ) → parse_path (b'/' ∷ path) ≡ parse_path path
unfolding parse_path split non_empty
slash_first path = refl

-- A path of parts that are not empty and have no slash, each with a slash after it, is parsed into
-- these parts, and so is the path with a slash in front; two texts with a slash between them have the
-- parts of the first and then those of the second, so doubled slashes add nothing.
pub parse_path_lem :
    (parts : List (List ℕ)) (s t : List ℕ)
    → All IsPart parts
    → (parse_path (join parts) ≡ parts)
      × (parse_path (b'/' ∷ join parts) ≡ parts)
      × (parse_path (s ++ b'/' ∷ t) ≡ parse_path s ++ parse_path t)
parse_path_lem parts s t h = (
  parse_path-join parts h,
  slash_first (join parts) ∙ parse_path-join parts h,
  parse_path-append s t,
)
