-- ===== src/Storage/Entries.antt =====
-- pkg/storage/src/fs/fat16/direntry.rs and directory.rs: directory entries, and the metadata of
-- pkg/storage/src/common/metadata.rs. Attributes are their byte.
use sysu_ysosv.Prelude.{
  ℕ, ◌+◌, ◌*◌, ◌/◌, ◌%◌, ◌^◌, Bool, true, false, ◌&&◌, not, Option, none, some, List, length, take,
  ltb, leb, ◌==◌, if◌then◌else◌, Outcome, returns, panics, ◌>>=◌,
}
use sysu_ysosv.Text.{codes}
use sysu_ysosv.Storage.Mbr.{u8_at, u16_at, u32_at}
use sysu_ysosv.Storage.Fat.{root_dir}
use sysu_ysosv.Storage.Names.{ShortFileName, new, is_eod, is_unused, display}

-- What the storage crate uses of chrono and of the tables of Unicode. `with_ymd_and_hms` gives a
-- date if it is `Single`; `epoch` is DateTime::from_timestamp_millis(0).
pub record Externals : Type 1 where
  pub DateTime : Type 0
  pub with_ymd_and_hms : ℕ → ℕ → ℕ → ℕ → ℕ → ℕ → Option DateTime
  pub epoch : DateTime
  pub to_uppercase : ℕ → List ℕ

-- Attributes::from_bits, and `contains` of LFN, DIRECTORY and HIDDEN
unfoldable pub from_bits : ℕ → Option ℕ
from_bits bits = if ltb bits 0x40 then some bits else none

unfoldable pub has_lfn : ℕ → Bool
has_lfn attributes = attributes % 16 == 0x0F

unfoldable pub has_directory : ℕ → Bool
has_directory attributes = attributes / 0x10 % 2 == 1

unfoldable pub has_hidden : ℕ → Bool
has_hidden attributes = attributes / 0x02 % 2 == 1

-- Option::unwrap_or
abbrev pub unwrap_or {ℓ} : {A : Type ℓ} → A → Option A → A
unwrap_or d none = d
unwrap_or d (some a) = a

pub data FileType : Type 0 where
  file directory : FileType

module _ (x : Externals) where
  pub record DirEntry : Type 0 where
    pub filename : ShortFileName
    pub modified_time : x.DateTime
    pub created_time : x.DateTime
    pub accessed_time : x.DateTime
    pub cluster : ℕ
    pub attributes : ℕ
    pub size : ℕ

  pub record Metadata : Type 0 where
    pub name : List ℕ
    pub entry_type : FileType
    pub len : ℕ
    pub created : Option x.DateTime
    pub modified : Option x.DateTime
    pub accessed : Option x.DateTime

  -- prase_datetime
  unfoldable pub prase_datetime : ℕ → x.DateTime
  prase_datetime time = unwrap_or x.epoch (
      x.with_ymd_and_hms (time / 2 ^ 25 % 0x80 + 1980) (time / 2 ^ 21 % 0x10) (time / 2 ^ 16 % 0x20)
        (time / 2 ^ 11 % 0x20) (time / 2 ^ 5 % 0x40) (time % 0x20 * 2))

  -- DirEntry::parse, whose answer is always Ok; data shorter than an entry panics.
  unfoldable pub parse_entry : List ℕ → Outcome DirEntry
  unfolding new prase_datetime from_bits
  parse_entry bytes = do
    filename ← new (take 11 bytes)
    elim (leb 32 (length bytes)) [
      | true ↦ returns (record {
        filename = filename;
        created_time = prase_datetime (u32_at 14 bytes);
        accessed_time = prase_datetime (u16_at 18 bytes * 2 ^ 16);
        modified_time = prase_datetime (u32_at 22 bytes);
        attributes = unwrap_or 0 (from_bits (u8_at 11 bytes));
        cluster = u16_at 26 bytes + 2 ^ 16 * u16_at 20 bytes;
        size = u32_at 28 bytes;
      })
      | false ↦ panics
    ]

  -- DirEntry::is_valid, is_long_name, is_directory and is_displayable
  unfoldable pub is_valid : DirEntry → Bool
  is_valid entry = not (is_unused entry.filename) && not (is_eod entry.filename)

  unfoldable pub is_long_name : DirEntry → Bool
  unfolding has_lfn
  is_long_name entry = has_lfn entry.attributes

  unfoldable pub is_directory : DirEntry → Bool
  unfolding has_directory
  is_directory entry = has_directory entry.attributes

  unfoldable pub is_displayable : DirEntry → Bool
  unfolding has_hidden is_valid is_long_name
  is_displayable entry =
      not (has_hidden entry.attributes) && is_valid entry && not (is_long_name entry)

  -- DirEntry::filename
  unfoldable pub filename : DirEntry → Outcome (List ℕ)
  unfolding is_valid is_long_name
  filename entry =
      if is_valid entry && not (is_long_name entry)
      then display entry.filename
      else returns (codes "unknown")

  -- Metadata::from, which is DirEntry::as_meta
  unfoldable pub as_meta : DirEntry → Outcome Metadata
  unfolding is_directory filename
  as_meta entry = do
    name ← filename entry
    returns (record {
      entry_type = if is_directory entry then directory else file;
      name = name;
      len = entry.size;
      created = some entry.created_time;
      accessed = some entry.accessed_time;
      modified = some entry.modified_time;
    })

  -- Metadata::is_file and is_dir
  unfoldable pub is_file : Metadata → Bool
  is_file meta = elim meta.entry_type [ file ↦ true | directory ↦ false ]

  unfoldable pub is_dir : Metadata → Bool
  is_dir meta = elim meta.entry_type [ file ↦ false | directory ↦ true ]

  pub record Directory : Type 0 where
    pub cluster : ℕ
    pub entry : Option DirEntry

  -- Directory::from_entry, and Directory::root, which open_root_dir repeats
  unfoldable pub from_entry : DirEntry → Directory
  from_entry entry = record { cluster = entry.cluster; entry = some entry }

  unfoldable pub open_root_dir : Directory
  open_root_dir = record { cluster = root_dir; entry = none }
