-- ===== src/Storage/Names.antt =====
-- pkg/storage/src/fs/fat16/direntry.rs: ShortFileName, the name of a directory entry. Its arrays of 8
-- and 3 bytes are lists. char::to_uppercase, which the tables of Unicode define, is a parameter.
pub mod RoundTrip
pub mod Parsing
use sysu_ysosv.Prelude.{
  ℕ, ◌≡◌, Bool, true, false, ◌&&◌, ◌||◌, not, List, [], ◌∷◌, ◌++◌, arith, length, get_or, take,
  drop, ltb, leb, ◌==◌, if◌then◌else◌, Outcome, returns, panics, unwrap, ◌>>=◌,
}
use sysu_ysosv.Prelude.Result.{Result, ok, err}
use sysu_ysosv.Storage.Device.{
  FsError, file_name_error, invalid_character, filename_empty, name_too_long, misplaced_period,
}
use sysu_ysosv.Text.{
  contains, str_len, as_bytes, from_utf8, is_empty, trim_end, trim_start_matches, split_last, pad,
}

pub record ShortFileName : Type 0 where
  pub name : List ℕ
  pub ext : List ℕ

-- `<[u8; n]>::try_from(bytes).unwrap()`
unfoldable pub to_array : ℕ → List ℕ → Outcome (List ℕ)
to_array n bytes = if length bytes == n then returns bytes else panics

-- ShortFileName::new; `buf[8..11]` is as long as the slice is.
unfoldable pub new : List ℕ → Outcome ShortFileName
unfolding to_array
new buf = do
  name ← to_array 8 (take 8 buf)
  ext ← to_array 3 (take 3 (drop 8 buf))
  returns (record { name = name; ext = ext })

-- ShortFileName::basename and extension
unfoldable pub basename : ShortFileName → Outcome (List ℕ)
basename f = unwrap (from_utf8 f.name)

unfoldable pub extension : ShortFileName → Outcome (List ℕ)
extension f = unwrap (from_utf8 f.ext)

-- ShortFileName::is_eod and is_unused
unfoldable pub is_eod : ShortFileName → Bool
is_eod f = get_or f.name 0 0 == 0x00 && get_or f.ext 0 0 == 0x00

unfoldable pub is_unused : ShortFileName → Bool
is_unused f = get_or f.name 0 0 == 0xE5

-- Equality of arrays
unfoldable pub equals : List ℕ → List ℕ → Bool
equals [] [] = true
equals [] (y ∷ ys) = false
equals (x ∷ xs) [] = false
equals (x ∷ xs) (y ∷ ys) = x == y && equals xs ys

-- ShortFileName::matches
unfoldable pub matches : ShortFileName → ShortFileName → Bool
unfolding equals
matches f sfn = equals f.name sfn.name && equals f.ext sfn.ext

-- The characters of `forbidden_chars`.
unfoldable pub is_forbidden : ℕ → Bool
unfolding contains
is_forbidden c =
    ltb c 0x20
    || contains c (
        0x22 ∷ 0x2A ∷ 0x2B ∷ 0x2C ∷ 0x2F ∷ 0x3A ∷ 0x3B ∷ 0x3C ∷ 0x3D ∷ 0x3E ∷ 0x3F ∷ 0x5B ∷ 0x5C
        ∷ 0x5D ∷ 0x7C ∷ [])

unfoldable pub any_forbidden : List ℕ → Bool
unfolding is_forbidden
any_forbidden [] = false
any_forbidden (c ∷ s) = is_forbidden c || any_forbidden s

-- str::to_uppercase
unfoldable pub uppercase : (ℕ → List ℕ) → List ℕ → List ℕ
uppercase to_uppercase [] = []
uppercase to_uppercase (c ∷ s) = to_uppercase c ++ uppercase to_uppercase s

-- The second half of ShortFileName::parse, for a name in capitals that is split at its last period.
unfoldable pub parse_parts : List ℕ → List ℕ → Outcome (Result FsError ShortFileName)
unfolding any_forbidden
parse_parts name ext =
    if ltb 8 (str_len name) || ltb 3 (str_len ext)
    then returns (err (file_name_error name_too_long))
    else if any_forbidden name
    then returns (err (file_name_error invalid_character))
    else do
      name' ← to_array 8 (as_bytes (pad 8 name))
      ext' ← to_array 3 (as_bytes (pad 3 ext))
      returns (ok (record { name = name'; ext = ext' }))

-- ShortFileName::parse
unfoldable pub parse_name : (ℕ → List ℕ) → List ℕ → Outcome (Result FsError ShortFileName)
unfolding parse_parts uppercase
parse_name to_uppercase name =
    if is_empty name
    then returns (err (file_name_error filename_empty))
    else if contains 0x20 name
    then returns (err (file_name_error misplaced_period))
    else let (before, from) = split_last b'.' (uppercase to_uppercase name) in
      parse_parts before (trim_start_matches b'.' from)

-- The Display of ShortFileName
unfoldable pub display : ShortFileName → Outcome (List ℕ)
unfolding basename extension
display f = do
  base ← basename f
  elim (get_or f.ext 0 0 == 0x20) [
    | true ↦ returns (trim_end base)
    | false ↦ do ext ← extension f; returns (trim_end base ++ b'.' ∷ trim_end ext)
  ]
