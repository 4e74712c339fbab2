-- ===== src/Text.antt =====
-- What the sources use of core::str: a `str` is the list of its characters (Unicode scalar values), and
-- bytes are their UTF-8 encoding.
pub mod Ascii
pub mod Parsing
use Prim.Native.Char.{code}
use Prim.Native.String.{String}
use sysu_ysosv.Prelude.{
  ℕ, zero, suc, ◌+◌, ◌-◌, ◌*◌, ◌/◌, ◌%◌, ◌<◌, ◌≡◌, refl, sym, ap, Bool, true, false, ◌&&◌, ◌||◌,
  Option, none, some, List, [], ◌∷◌, ◌++◌, arith, length, replicate, ltb, leb, ◌==◌, if◌then◌else◌,
  All,
}

-- str::contains, for a character, and slice::contains
unfoldable pub contains : ℕ → List ℕ → Bool
contains c [] = false
contains c (x ∷ xs) = x == c || contains c xs

-- char::len_utf8 and str::str_len
unfoldable pub len_utf8 : ℕ → ℕ
len_utf8 c = if ltb c 0x80 then 1 else if ltb c 0x800 then 2 else if ltb c 0x10000 then 3 else 4

unfoldable pub str_len : List ℕ → ℕ
unfolding len_utf8
str_len [] = 0
str_len (c ∷ s) = len_utf8 c + str_len s

-- char::encode_utf8 and str::as_bytes
unfoldable pub encode_utf8 : ℕ → List ℕ
encode_utf8 c =
    if ltb c 0x80
    then c ∷ []
    else if ltb c 0x800
    then (0xC0 + c / 64) ∷ (0x80 + c % 64) ∷ []
    else if ltb c 0x10000
    then (0xE0 + c / 4096) ∷ (0x80 + c / 64 % 64) ∷ (0x80 + c % 64) ∷ []
    else (0xF0 + c / 0x40000) ∷ (0x80 + c / 4096 % 64) ∷ (0x80 + c / 64 % 64) ∷ (0x80 + c % 64) ∷ []

unfoldable pub as_bytes : List ℕ → List ℕ
unfolding encode_utf8
as_bytes [] = []
as_bytes (c ∷ s) = encode_utf8 c ++ as_bytes s

-- What the first byte of a character says: how many bytes follow, the range of the next one, and
-- the first bits of the character.
record Lead : Type 0 where
  rest : ℕ
  low : ℕ
  high : ℕ
  bits : ℕ

lead : ℕ → Option Lead
lead b =
    if ltb b 0x80
    then some (record { rest = 0; low = 0; high = 0; bits = b })
    else if ltb b 0xC2
    then none
    else if ltb b 0xE0
    then some (record { rest = 1; low = 0x80; high = 0xBF; bits = b - 0xC0 })
    else if ltb b 0xF0
    then some (record {
      rest = 2;
      low = if b == 0xE0 then 0xA0 else 0x80;
      high = if b == 0xED then 0x9F else 0xBF;
      bits = b - 0xE0;
    })
    else if ltb b 0xF5
    then some (record {
      rest = 3;
      low = if b == 0xF0 then 0x90 else 0x80;
      high = if b == 0xF4 then 0x8F else 0xBF;
      bits = b - 0xF0;
    })
    else none

prepend : ℕ → Option (List ℕ) → Option (List ℕ)
prepend c none = none
prepend c (some s) = some (c ∷ s)

-- Decoding in the middle of a character.
decode : Lead → List ℕ → Option (List ℕ)
unfolding lead prepend
decode l [] = if l.rest == 0 then some [] else none
decode l (b ∷ bs) =
    if l.rest == 0
    then elim (lead b) [
      | none ↦ none
      | some m ↦ let s = decode m bs in if m.rest == 0 then prepend b s else s
    ]
    else let c = l.bits * 64 + (b - 0x80) in
      let s = decode (record { rest = l.rest - 1; low = 0x80; high = 0xBF; bits = c }) bs in
      if leb l.low b && leb b l.high then if l.rest == 1 then prepend c s else s else none

-- core::str::from_utf8
unfoldable pub from_utf8 : List ℕ → Option (List ℕ)
unfolding decode
from_utf8 bytes = decode (record { rest = 0; low = 0; high = 0; bits = 0 }) bytes

-- char::is_whitespace
unfoldable pub is_whitespace : ℕ → Bool
unfolding contains
is_whitespace c =
    (leb 9 c && leb c 13)
    || (leb 0x2000 c && leb c 0x200A)
    || contains c (0x20 ∷ 0x85 ∷ 0xA0 ∷ 0x1680 ∷ 0x2028 ∷ 0x2029 ∷ 0x202F ∷ 0x205F ∷ 0x3000 ∷ [])

unfoldable pub is_empty : List ℕ → Bool
is_empty [] = true
is_empty (c ∷ s) = false

-- str::trim_end
unfoldable pub trim_end : List ℕ → List ℕ
unfolding is_whitespace is_empty
trim_end [] = []
trim_end (c ∷ s) =
    let rest = trim_end s in if is_empty rest && is_whitespace c then [] else c ∷ rest

-- str::trim_start_matches, for a character
unfoldable pub trim_start_matches : ℕ → List ℕ → List ℕ
trim_start_matches c [] = []
trim_start_matches c (x ∷ s) = let rest = trim_start_matches c s in if x == c then rest else x ∷ s

-- `s.split_at(s.rfind(c).unwrap_or(s.str_len()))`: the text before the last `c`, and from it on.
unfoldable pub split_last : ℕ → List ℕ → List ℕ × List ℕ
unfolding contains
split_last c [] = ([], [])
split_last c (x ∷ s) =
    let (before, from) = split_last c s in
    if contains c s then (x ∷ before, from) else if x == c then ([], x ∷ s) else (x ∷ s, [])

-- `format!("{:n}", s)`: padded with blanks to `n` characters
unfoldable pub pad : ℕ → List ℕ → List ℕ
pad n s = s ++ replicate (n - length s) 0x20

-- A literal of the source.
abbrev pub codes : String → List ℕ
codes String.[] = []
codes (String.◌∷◌ c s) = code c ∷ codes s
