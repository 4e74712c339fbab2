-- ===== src/Text/Parsing.antt =====
-- Lines and numbers in texts: the functions of core::str and core::num that parse a configuration.
use sysu_ysosv.Prelude.{
  ℕ, ◌+◌, ◌-◌, ◌*◌, ◌^◌, ◌&&◌, Option, none, some, List, [], ◌∷◌, leb, ltb, ◌==◌, if◌then◌else◌,
}
use sysu_ysosv.Text.{len_utf8, is_whitespace, is_empty, trim_end}

-- str::trim_start
unfoldable pub trim_start : List ℕ → List ℕ
unfolding is_whitespace
trim_start [] = []
trim_start (c ∷ s) = let rest = trim_start s in if is_whitespace c then rest else c ∷ s

-- str::trim
unfoldable pub trim : List ℕ → List ℕ
unfolding trim_start trim_end
trim s = trim_start (trim_end s)

-- A line without the carriage return at its end
strip_cr : List ℕ → List ℕ
strip_cr [] = []
strip_cr (c ∷ s) = let rest = strip_cr s in if is_empty s && c == 13 then [] else c ∷ rest

-- The texts before each line feed, and the one after the last
split_lines : List ℕ → List ℕ × List (List ℕ)
split_lines [] = ([], [])
split_lines (c ∷ s) =
    let (line, rest) = split_lines s in if c == 10 then ([], line ∷ rest) else (c ∷ line, rest)

-- The last line, which no line feed ends, is left out if it is empty and otherwise kept as it is.
drop_empty_last : List ℕ → List (List ℕ) → List (List ℕ)
drop_empty_last line [] = if is_empty line then [] else line ∷ []
drop_empty_last line (next ∷ rest) = strip_cr line ∷ drop_empty_last next rest

-- str::lines
unfoldable pub lines : List ℕ → List (List ℕ)
unfolding split_lines drop_empty_last strip_cr
lines s = drop_empty_last (split_lines s).0 (split_lines s).1

-- str::split_once, for a character
unfoldable pub split_once : ℕ → List ℕ → Option (List ℕ × List ℕ)
split_once c [] = none
split_once c (x ∷ s) =
    let rest = split_once c s in
    if x == c
    then some ([], s)
    else elim rest [ none ↦ none | some parts ↦ some (x ∷ parts.0, parts.1) ]

-- `s[n..]`, counted in bytes; none stands for the panic within a character or behind the end.
unfoldable pub slice_from : ℕ → List ℕ → Option (List ℕ)
unfolding len_utf8
slice_from n [] = if n == 0 then some [] else none
slice_from n (c ∷ s) =
    let rest = slice_from (n - len_utf8 c) s in
    if n == 0 then some (c ∷ s) else if leb (len_utf8 c) n then rest else none

-- char::to_digit, for a radix of at most 16
unfoldable pub to_digit : ℕ → ℕ → Option ℕ
to_digit radix c =
    let digit =
      if leb 0x30 c && leb c 0x39
      then c - 0x30
      else if leb 0x61 c && leb c 0x66
      then c - 0x57
      else if leb 0x41 c && leb c 0x46
      then c - 0x37
      else 16 in
    if ltb digit radix then some digit else none

-- The number that digits add to one, if it stays below 2 ^ 64
digits : ℕ → ℕ → List ℕ → Option ℕ
unfolding to_digit
digits radix n [] = some n
digits radix n (c ∷ s) = elim (to_digit radix c) [
  | none ↦ none
  | some d ↦
      let m = n * radix + d in let rest = digits radix m s in if ltb m (2 ^ 64) then rest else none
]

-- u64::from_str_radix, and u64::from_str for radix 10; none for an error. A plus sign may stand first.
unfoldable pub from_str_radix : List ℕ → ℕ → Option ℕ
unfolding digits
from_str_radix [] radix = none
from_str_radix (c ∷ s) radix =
    if c == 0x2B then (if is_empty s then none else digits radix 0 s) else digits radix 0 (c ∷ s)
