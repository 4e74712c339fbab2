-- ===== src/Storage/Names/RoundTrip.antt =====
-- pkg/storage/src/fs/fat16/direntry.rs: short names are printed and parsed back.
use sysu_ysosv.Prelude.{
  ℕ, ◌<◌, ◌≤◌, ◌≡◌, ◌≢◌, refl, false, List, [], ◌∷◌, ◌++◌, arith, length, ◌==◌, ltb, All,
  All-append, ◌⊎◌, returns, ◌>>=◌,
}
use sysu_ysosv.Prelude.Result.{ok}
use sysu_ysosv.Text.{contains, str_len, as_bytes, is_empty, trim_start_matches, split_last, pad}
use sysu_ysosv.Text.Ascii.{
  Ascii, Visible, Without, str_len-Ascii, as_bytes-Ascii, from_utf8-Ascii, pad-Ascii, length-pad,
  trim_end-pad, contains-Without, split_last-Without, split_last-append, trim_start_matches-Without,
  trim_start_matches-cons, to_upper,
}
use sysu_ysosv.Storage.Names.{
  ShortFileName, basename, extension, to_array, is_forbidden, any_forbidden, uppercase, parse_parts,
  parse_name, display,
}

-- A character of a short name that needs no change: a visible ASCII character that is neither a
-- small letter, nor a period, nor forbidden.
abbrev pub Plain : ℕ → Type 0
Plain c =
    (0x20 < c) × (c < 0x7F) × (c ≢ b'.') × ((c < b'a') ⊎ (b'z' < c)) × (is_forbidden c ≡ false)

module _ (s : List ℕ) (h : All Plain s) where
  Plain-All {κ} :
      (P : ℕ → Type κ) → ((c : ℕ) → Plain c → P c) → (t : List ℕ) → All Plain t → All P t
  Plain-All P f [] k = tt
  Plain-All P f (c ∷ t) k = (f c k.0, Plain-All P f t k.1)

  pub plain-Ascii : Ascii s
  plain-Ascii = Plain-All (λ c. c < 0x80) (λ c k. omega (arith, k.1)) s h

  pub plain-Visible : Visible s
  plain-Visible = Plain-All (λ c. (0x20 < c) × (c < 0x7F)) (λ c k. (k.0, k.1)) s h

  pub plain-Without : Without b'.' s
  plain-Without = Plain-All (λ c. c ≢ b'.') (λ c k. k.2) s h

  pub plain-Without_blank : Without 0x20 s
  plain-Without_blank = Plain-All (λ c. c ≢ 0x20) (λ c k. ground (arith, k.0)) s h

pub any_forbidden-Plain : (s : List ℕ) → All Plain s → any_forbidden s ≡ false
unfolding any_forbidden
any_forbidden-Plain [] h = refl
any_forbidden-Plain (c ∷ s) h = rw (h.0.4, any_forbidden-Plain s h.1) refl

to_array-pad :
    (n : ℕ) (s : List ℕ)
    → Ascii s
    → length s ≤ n
    → to_array n (as_bytes (pad n s)) ≡ returns (pad n s)
unfolding to_array
to_array-pad n s h fits =
    rw (as_bytes-Ascii (pad n s) (pad-Ascii n s h)) (ground (arith, length-pad n s fits))

parse_parts-Plain :
    (base ext : List ℕ)
    → All Plain base
    → All Plain ext
    → length base ≤ 8
    → length ext ≤ 3
    → parse_parts base ext ≡ returns (ok (record { name = pad 8 base; ext = pad 3 ext }))
unfolding parse_parts
parse_parts-Plain base ext hb he fb fe =
    let short : ltb 8 (str_len base) ≡ false =
      ground (arith, fb, str_len-Ascii base (plain-Ascii base hb)) in
    let short' : ltb 3 (str_len ext) ≡ false =
      ground (arith, fe, str_len-Ascii ext (plain-Ascii ext he)) in
    rw
      (
        short,
        short',
        any_forbidden-Plain base hb,
        to_array-pad 8 base (plain-Ascii base hb) fb,
        to_array-pad 3 ext (plain-Ascii ext he) fe,
      )
      refl

to_upper-Plain : (c : ℕ) → Plain c → to_upper c ≡ c
unfolding to_upper
to_upper-Plain c h = ground (arith, h.3)

uppercase-Plain :
    (to_uppercase : ℕ → List ℕ)
    → ((c : ℕ) → c < 0x80 → to_uppercase c ≡ to_upper c ∷ [])
    → (s : List ℕ) → All Plain s
    → uppercase to_uppercase s ≡ s
unfolding uppercase
uppercase-Plain to_uppercase ascii [] h = refl
uppercase-Plain to_uppercase ascii (c ∷ s) h =
    rw
      (
        ascii c (omega (arith, h.0.1)),
        to_upper-Plain c h.0,
        uppercase-Plain to_uppercase ascii s h.1,
      )
      refl

-- A name as it is printed for a plain base and extension.
abbrev pub printed : List ℕ → List ℕ → List ℕ
printed base [] = base
printed base (c ∷ ext) = base ++ b'.' ∷ c ∷ ext

display-Plain :
    (base ext : List ℕ)
    → All Plain base
    → All Plain ext
    → display (record { name = pad 8 base; ext = pad 3 ext }) ≡ returns (printed base ext)
unfolding display basename extension pad
display-Plain base [] hb he =
    rw
      (
        from_utf8-Ascii (pad 8 base) (pad-Ascii 8 base (plain-Ascii base hb)),
        trim_end-pad 8 base (plain-Visible base hb),
      )
      refl
display-Plain base (c ∷ ext) hb he =
    let black : (c == 0x20) ≡ false = ground (arith, he.0.0) in
    rw
      (
        from_utf8-Ascii (pad 8 base) (pad-Ascii 8 base (plain-Ascii base hb)),
        black,
        from_utf8-Ascii (pad 3 (c ∷ ext)) (pad-Ascii 3 (c ∷ ext) (plain-Ascii (c ∷ ext) he)),
        trim_end-pad 8 base (plain-Visible base hb),
        trim_end-pad 3 (c ∷ ext) (plain-Visible (c ∷ ext) he),
      )
      refl

-- Splitting a printed name gives its base and extension.
split-printed :
    (base ext : List ℕ)
    → All Plain base
    → All Plain ext
    → let (before, from) = split_last b'.' (printed base ext) in
      (before ≡ base) × (trim_start_matches b'.' from ≡ ext)
split-printed base [] hb he =
    rw (split_last-Without b'.' base (plain-Without base hb))
      (refl, trim_start_matches-Without b'.' [] tt)
split-printed base (c ∷ ext) hb he =
    rw
      (
        split_last-append b'.' base (c ∷ ext) (plain-Without (c ∷ ext) he),
        trim_start_matches-cons b'.' (c ∷ ext) (plain-Without (c ∷ ext) he),
      )
      (refl, refl)

-- A printed name is not empty and has no blank.
printed-lem :
    (base ext : List ℕ)
    → All Plain base
    → All Plain ext
    → 1 ≤ length base
    → (is_empty (printed base ext) ≡ false) × (contains 0x20 (printed base ext) ≡ false)
unfolding is_empty
printed-lem [] ext hb he ne = absurd (omega (arith, ne))
printed-lem (b ∷ base) [] hb he ne =
    (refl, contains-Without 0x20 (b ∷ base) (plain-Without_blank (b ∷ base) hb))
printed-lem (b ∷ base) (c ∷ ext) hb he ne = (
  refl,
  contains-Without 0x20 (b ∷ base ++ b'.' ∷ c ∷ ext) (
      All-append (λ x. x ≢ 0x20) (b ∷ base) (b'.' ∷ c ∷ ext) (plain-Without_blank (b ∷ base) hb)
        (ground arith, plain-Without_blank (c ∷ ext) he)),
)

plain_period : to_upper b'.' ≡ b'.'
unfolding to_upper
plain_period = refl

module _ (to_uppercase : ℕ → List ℕ)
    (ascii : (c : ℕ) → c < 0x80 → to_uppercase c ≡ to_upper c ∷ []) where
  uppercase-printed :
      (base ext : List ℕ)
      → All Plain base
      → All Plain ext
      → uppercase to_uppercase (printed base ext) ≡ printed base ext
  unfolding uppercase
  uppercase-printed base [] hb he = uppercase-Plain to_uppercase ascii base hb
  uppercase-printed [] (c ∷ ext) hb he =
      rw (ascii b'.' (omega arith), plain_period, uppercase-Plain to_uppercase ascii (c ∷ ext) he)
        refl
  uppercase-printed (b ∷ base) (c ∷ ext) hb he =
      rw
        (
          ascii b (omega (arith, hb.0.1)),
          to_upper-Plain b hb.0,
          uppercase-printed base (c ∷ ext) hb.1 he,
        )
        refl

  -- A short name whose base has 1 to 8 and whose extension has at most 3 plain characters (visible
  -- ASCII characters other than small letters, periods and the forbidden ones), both padded with
  -- blanks, is printed and parsed back as the same name, if `to_uppercase` is the usual one on ASCII.
  pub display-parse_name :
      (base ext : List ℕ)
      → All Plain base
      → All Plain ext
      → 1 ≤ length base
      → length base ≤ 8
      → length ext ≤ 3
      → let f : ShortFileName = record { name = pad 8 base; ext = pad 3 ext } in
        (display f >>= parse_name to_uppercase) ≡ returns (ok f)
  unfolding parse_name
  display-parse_name base ext hb he ne fb fe =
      let (same, same') = split-printed base ext hb he in
      let (full, whole) = printed-lem base ext hb he ne in
      rw
        (
          display-Plain base ext hb he,
          full,
          whole,
          uppercase-printed base ext hb he,
          same,
          same',
          parse_parts-Plain base ext hb he fb fe,
        )
        refl
