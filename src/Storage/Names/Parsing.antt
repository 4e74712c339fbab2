-- ===== src/Storage/Names/Parsing.antt =====
-- pkg/storage/src/fs/fat16/direntry.rs: what ShortFileName::parse makes of any ASCII text.
use sysu_ysosv.Prelude.{
  ℕ, ◌<◌, ◌≤◌, ◌≡◌, refl, List, [], ◌∷◌, map, arith, length, ◌==◌, ◌||◌, ltb, Bool-cases, inl, inr,
  returns,
}
use sysu_ysosv.Prelude.Result.{Result, ok, err}
use sysu_ysosv.Storage.Device.{
  FsError, file_name_error, invalid_character, filename_empty, name_too_long, misplaced_period,
}
use sysu_ysosv.Text.{contains, str_len, as_bytes, is_empty, trim_start_matches, split_last, pad}
use sysu_ysosv.Text.Ascii.{
  Ascii, str_len-Ascii, as_bytes-Ascii, pad-Ascii, length-pad, to_upper, split_last-All,
  trim_start_matches-All,
}
use sysu_ysosv.Storage.Names.{
  ShortFileName, to_array, any_forbidden, uppercase, parse_parts, parse_name,
}

to_upper_idem : (c : ℕ) → to_upper (to_upper c) ≡ to_upper c
unfolding to_upper
to_upper_idem c = ground arith

to_upper_bound : (c : ℕ) → c < 0x80 → to_upper c < 0x80
unfolding to_upper
to_upper_bound c h = ground arith

blank-to_upper : (c : ℕ) → (to_upper c == 0x20) ≡ (c == 0x20)
unfolding to_upper
blank-to_upper c = ground arith

map-to_upper-Ascii : (s : List ℕ) → Ascii s → Ascii (map to_upper s)
map-to_upper-Ascii [] h = tt
map-to_upper-Ascii (c ∷ s) h = (to_upper_bound c h.0, map-to_upper-Ascii s h.1)

map-to_upper_idem : (s : List ℕ) → map to_upper (map to_upper s) ≡ map to_upper s
map-to_upper_idem [] = refl
map-to_upper_idem (c ∷ s) = cc (to_upper_idem c, map-to_upper_idem s)

contains-map-to_upper : (s : List ℕ) → contains 0x20 (map to_upper s) ≡ contains 0x20 s
unfolding contains
contains-map-to_upper [] = refl
contains-map-to_upper (c ∷ s) = rw (blank-to_upper c, contains-map-to_upper s) refl

is_empty-map : (s : List ℕ) → is_empty (map to_upper s) ≡ is_empty s
unfolding is_empty
is_empty-map [] = refl
is_empty-map (c ∷ s) = refl

-- The answer of parse, if it is a name, has arrays of the right lengths.
abbrev pub IsSized : Result FsError ShortFileName → Type 0
IsSized (ok f) = (length f.name ≡ 8) × (length f.ext ≡ 3)
IsSized (err e) = Unit {0}

to_array_fits :
    (n : ℕ) (s : List ℕ)
    → Ascii s
    → length s ≤ n
    → (to_array n (as_bytes (pad n s)) ≡ returns (pad n s)) × (length (pad n s) ≡ n)
unfolding to_array
to_array_fits n s h fits =
    rw (as_bytes-Ascii (pad n s) (pad-Ascii n s h))
      (ground (arith, length-pad n s fits), length-pad n s fits)

parse_parts-returns :
    (name ext : List ℕ)
    → Ascii name
    → Ascii ext
    → (r : Result FsError ShortFileName) × (parse_parts name ext ≡ returns r) × IsSized r
unfolding parse_parts
parse_parts-returns name ext hn he =
    elim (Bool-cases (ltb 8 (str_len name) || ltb 3 (str_len ext))) [
      | inl long ↦ (err (file_name_error name_too_long), rw long refl, tt)
      | inr short ↦ elim (Bool-cases (any_forbidden name)) [
        | inl bad ↦ (err (file_name_error invalid_character), rw (short, bad) refl, tt)
        | inr good ↦
            let (same, sized) =
              to_array_fits 8 name hn (ground (arith, short, str_len-Ascii name hn)) in
            let (same', sized') =
              to_array_fits 3 ext he (ground (arith, short, str_len-Ascii ext he)) in
            (
              ok (record { name = pad 8 name; ext = pad 3 ext }),
              rw (short, good, same, same') refl,
              (sized, sized'),
            )
      ]
    ]

module _ (to_uppercase : ℕ → List ℕ)
    (ascii : (c : ℕ) → c < 0x80 → to_uppercase c ≡ to_upper c ∷ []) where
  uppercase-Ascii : (s : List ℕ) → Ascii s → uppercase to_uppercase s ≡ map to_upper s
  unfolding uppercase
  uppercase-Ascii [] h = refl
  uppercase-Ascii (c ∷ s) h = rw (ascii c h.0, uppercase-Ascii s h.1) refl

  -- For an ASCII text, parse always answers, and does not panic: either an error, or a name of 8 and
  -- 3 bytes.
  parse_name-IsSized :
      (name : List ℕ)
      → Ascii name
      → (r : Result FsError ShortFileName) × (parse_name to_uppercase name ≡ returns r) × IsSized r
  unfolding parse_name
  parse_name-IsSized name h =
      let up = map-to_upper-Ascii name h in
      let (before, from) = split_last-All (λ c. c < 0x80) b'.' (map to_upper name) up in
      elim (Bool-cases (is_empty name)) [
        | inl e ↦ (err (file_name_error filename_empty), rw e refl, tt)
        | inr e ↦ elim (Bool-cases (contains 0x20 name)) [
          | inl b ↦ (err (file_name_error misplaced_period), rw (e, b) refl, tt)
          | inr b ↦
              rw (e, b, uppercase-Ascii name h)
                (parse_parts-returns ((split_last b'.' (map to_upper name)).0)
                  (trim_start_matches b'.' ((split_last b'.' (map to_upper name)).1)) before
                  (trim_start_matches-All (λ c. c < 0x80) b'.'
                    ((split_last b'.' (map to_upper name)).1) from))
        ]
      ]

  -- Parsing an ASCII text does not tell small letters from capitals.
  pub parse_name-to_upper :
      (name : List ℕ)
      → Ascii name
      → parse_name to_uppercase (map to_upper name) ≡ parse_name to_uppercase name
  unfolding parse_name
  parse_name-to_upper name h =
      rw
        (
          is_empty-map name,
          contains-map-to_upper name,
          uppercase-Ascii (map to_upper name) (map-to_upper-Ascii name h),
          map-to_upper_idem name,
          uppercase-Ascii name h,
        )
        refl
