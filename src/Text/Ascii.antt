-- ===== src/Text/Ascii.antt =====
-- Texts of ASCII characters: each is one byte, which is the character.
use sysu_ysosv.Prelude.{
  ℕ, zero, suc, ◌-◌, ◌<◌, ◌≤◌, ◌≡◌, ◌≢◌, refl, true, false, ◌&&◌, some, List, [], ◌∷◌, ◌++◌, arith,
  length, length-append, length-replicate, replicate, ltb, leb, ◌==◌, if◌then◌else◌, All,
  All-append, Bool-cases, inl, inr,
}
use sysu_ysosv.Text.{
  contains, str_len, as_bytes, from_utf8, decode, is_whitespace, trim_end, trim_start_matches,
  split_last, pad,
}

abbrev pub Ascii : List ℕ → Type 0
Ascii = All (λ c. c < 0x80)

pub str_len-Ascii : (s : List ℕ) → Ascii s → str_len s ≡ length s
unfolding str_len
str_len-Ascii [] h = refl
str_len-Ascii (c ∷ s) h = ground (arith, h.0, str_len-Ascii s h.1)

pub as_bytes-Ascii : (s : List ℕ) → Ascii s → as_bytes s ≡ s
unfolding as_bytes
as_bytes-Ascii [] h = refl
as_bytes-Ascii (c ∷ s) h = ground (arith, h.0, as_bytes-Ascii s h.1)

decode-Ascii :
    (s : List ℕ) (b : ℕ)
    → Ascii s
    → decode (record { rest = 0; low = 0; high = 0; bits = b }) s ≡ some s
unfolding decode
decode-Ascii [] b h = refl
decode-Ascii (c ∷ s) b h =
    let small : ltb c 0x80 ≡ true = ground (arith, h.0) in rw (small, decode-Ascii s c h.1) refl

pub from_utf8-Ascii : (s : List ℕ) → Ascii s → from_utf8 s ≡ some s
unfolding from_utf8
from_utf8-Ascii s h = decode-Ascii s 0 h

replicate-All {κ} : (P : ℕ → Type κ) (n c : ℕ) → P c → All P (replicate n c)
replicate-All P zero c h = tt
replicate-All P (suc n) c h = (h, replicate-All P n c h)

pub pad-Ascii : (n : ℕ) (s : List ℕ) → Ascii s → Ascii (pad n s)
unfolding pad
pad-Ascii n s h =
    All-append (λ c. c < 0x80) s (replicate (n - length s) 0x20) h
      (replicate-All (λ c. c < 0x80) (n - length s) 0x20 (omega arith))

pub length-pad : (n : ℕ) (s : List ℕ) → length s ≤ n → length (pad n s) ≡ n
unfolding pad
length-pad n s h = omega (
  arith,
  h,
  length-append s (replicate (n - length s) 0x20),
  length-replicate {A = ℕ} (n - length s) 0x20,
)

-- A character that trim_end leaves where it is.
abbrev pub Visible : List ℕ → Type 0
Visible = All (λ c. (0x20 < c) × (c < 0x7F))

blanks : (n : ℕ) → trim_end (replicate n 0x20) ≡ []
unfolding trim_end
blanks zero = refl
blanks (suc n) = rw (blanks n) refl

pub trim_end-append : (s : List ℕ) (n : ℕ) → Visible s → trim_end (s ++ replicate n 0x20) ≡ s
unfolding trim_end
trim_end-append [] n h = blanks n
trim_end-append (c ∷ s) n h =
    let black : is_whitespace c ≡ false = ground (arith, h.0) in
    ground (arith, black, trim_end-append s n h.1)

pub trim_end-pad : (n : ℕ) (s : List ℕ) → Visible s → trim_end (pad n s) ≡ s
unfolding pad
trim_end-pad n s h = trim_end-append s (n - length s) h

abbrev pub Without : ℕ → List ℕ → Type 0
Without x = All (λ c. c ≢ x)

pub contains-Without : (x : ℕ) (s : List ℕ) → Without x s → contains x s ≡ false
unfolding contains
contains-Without x [] h = refl
contains-Without x (c ∷ s) h = ground (arith, h.0, contains-Without x s h.1)

pub split_last-Without : (x : ℕ) (s : List ℕ) → Without x s → split_last x s ≡ (s, [])
unfolding split_last
split_last-Without x [] h = refl
split_last-Without x (c ∷ s) h =
    ground (arith, h.0, contains-Without x s h.1, split_last-Without x s h.1)

contains-append : (x : ℕ) (s t : List ℕ) → contains x (s ++ x ∷ t) ≡ true
unfolding contains
contains-append x [] t = ground arith
contains-append x (c ∷ s) t = ground (arith, contains-append x s t)

-- The last `x` is the one after which there is none.
pub split_last-append :
    (x : ℕ) (s t : List ℕ) → Without x t → split_last x (s ++ x ∷ t) ≡ (s, x ∷ t)
unfolding split_last
split_last-append x [] t h = ground (arith, contains-Without x t h)
split_last-append x (c ∷ s) t h = rw (contains-append x s t, split_last-append x s t h) refl

pub trim_start_matches-Without : (x : ℕ) (s : List ℕ) → Without x s → trim_start_matches x s ≡ s
unfolding trim_start_matches
trim_start_matches-Without x [] h = refl
trim_start_matches-Without x (c ∷ s) h = ground (arith, h.0)

-- u8::to_ascii_uppercase
unfoldable pub to_upper : ℕ → ℕ
to_upper c = if leb b'a' c && leb c b'z' then c - 32 else c

pub trim_start_matches-cons : (x : ℕ) (s : List ℕ) → Without x s → trim_start_matches x (x ∷ s) ≡ s
unfolding trim_start_matches
trim_start_matches-cons x s h = ground (arith, trim_start_matches-Without x s h)

-- Parts of a text have characters of the text only.
module _ {κ} (P : ℕ → Type κ) (x : ℕ) where
  pub split_last-All :
      (s : List ℕ) → All P s → All P ((split_last x s).0) × All P ((split_last x s).1)
  unfolding split_last
  split_last-All [] h = (tt, tt)
  split_last-All (c ∷ s) h =
      let (before, from) = split_last-All s h.1 in
      elim (Bool-cases (contains x s)) [
        | inl e ↦ rw e ((h.0, before), from)
        | inr e ↦ elim (Bool-cases (c == x)) [
          | inl e' ↦ rw (e, e') (tt, h)
          | inr e' ↦ rw (e, e') (h, tt)
        ]
      ]

  pub trim_start_matches-All : (s : List ℕ) → All P s → All P (trim_start_matches x s)
  unfolding trim_start_matches
  trim_start_matches-All [] h = tt
  trim_start_matches-All (c ∷ s) h = elim (Bool-cases (c == x)) [
    | inl e ↦ rw e (trim_start_matches-All s h.1)
    | inr e ↦ rw e h
  ]
