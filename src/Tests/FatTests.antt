-- ===== src/Tests/FatTests.antt =====
-- A small FAT16 volume: runs, and the theorems at concrete inputs.
use sysu_ysosv.Prelude.{
  ℕ, zero, suc, ◌+◌, ◌-◌, ◌*◌, true, ◌≡◌, ◌<◌, refl, some, List, [], ◌∷◌, ◌++◌, arith, get_or, take,
  drop, replicate, All, ◌==◌, if◌then◌else◌, returns, ◌>>=◌,
}
use sysu_ysosv.Prelude.Result.{ok}
use sysu_ysosv.Text.{codes, pad, is_empty, str_len, split_last, trim_start_matches, as_bytes}
use sysu_ysosv.Text.Ascii.{Ascii, to_upper}
use sysu_ysosv.Storage.Device.{BlockDevice}
use sysu_ysosv.Storage.Fat.{Fat16, root_entries_count, sectors_per_cluster, cluster_to_first_sector}
use sysu_ysosv.Storage.Names.{
  ShortFileName, is_unused, is_eod, to_array, matches, parse_name, display, is_forbidden,
}
use sysu_ysosv.Storage.Names.RoundTrip.{Plain, display-parse_name}
use sysu_ysosv.Storage.Entries.{
  Externals, DirEntry, is_valid, is_displayable, open_root_dir, parse_entry, as_meta,
}
use sysu_ysosv.Storage.Walk.Visits.{listing}
use sysu_ysosv.Storage.Walk.{get_dir_entry_by_name, get_all_file_under_dir}
use sysu_ysosv.Storage.Walk.Listing.{
  HoldsRoot, root_listing, last_match, ok_or_not_found, displayable,
  get_dir_entry_by_name-last_match, get_all_file_under_dir-displayable,
}
use sysu_ysosv.Storage.Paths.{parse_path, and_then, finally, open_file, metadata, exists, open_last}
use sysu_ysosv.Storage.Paths.Parts.{IsPart, parse_path_lem}
use sysu_ysosv.Storage.Paths.Agreement.{answered, lookup_path, walks_agree}
use sysu_ysosv.Storage.Mount.{FileSystem}
use sysu_ysosv.Storage.Files.{bytes_per_sector, read_file, read_all}
use sysu_ysosv.Storage.Files.Runs.{run_of}
use sysu_ysosv.Storage.Files.Sectors.{HoldsCluster, at_offset, transfer}
use sysu_ysosv.Storage.Files.Reading.{read_file-run_of, read_all-pads}

-- Dates are their fields, and letters outside ASCII have no capitals.
abbrev ext : Externals
ext = record {
  DateTime = List ℕ;
  with_ymd_and_hms = λ y mo d h mi s. some (y ∷ mo ∷ d ∷ h ∷ mi ∷ s ∷ []);
  epoch = [];
  to_uppercase = λ c. to_upper c ∷ [];
}

-- A disk that cannot be written.
abbrev image : BlockDevice
image = record {
  State = ℕ → List ℕ;
  Block = List ℕ;
  block_count = λ s. ok 100;
  read_block = λ i s. ok (s i);
  write_block = λ i b s. ok s;
}

-- The entry of the source's own test.
abbrev kernel_elf : List ℕ
kernel_elf =
    0x4b ∷ 0x45 ∷ 0x52 ∷ 0x4e ∷ 0x45 ∷ 0x4c ∷ 0x20 ∷ 0x20 ∷ 0x45 ∷ 0x4c ∷ 0x46 ∷ 0x20 ∷ 0x00 ∷ 0x00
    ∷ 0x0f ∷ 0xbe ∷ 0xd0 ∷ 0x50 ∷ 0xd0 ∷ 0x50 ∷ 0x00 ∷ 0x00 ∷ 0x0f ∷ 0xbe ∷ 0xd0 ∷ 0x50 ∷ 0x02
    ∷ 0x00 ∷ 0xf0 ∷ 0xe4 ∷ 0x0e ∷ 0x00 ∷ []

abbrev kernel_name : ShortFileName
kernel_name = record { name = codes "KERNEL  "; ext = codes "ELF" }

abbrev kernel_entry : DirEntry ext
kernel_entry = record {
  filename = kernel_name;
  modified_time = 2020 ∷ 6 ∷ 16 ∷ 23 ∷ 48 ∷ 30 ∷ [];
  created_time = 2020 ∷ 6 ∷ 16 ∷ 23 ∷ 48 ∷ 30 ∷ [];
  accessed_time = 2020 ∷ 6 ∷ 16 ∷ 0 ∷ 0 ∷ 0 ∷ [];
  cluster = 2;
  attributes = 0x20;
  size = 0xee4f0;
}

parse-kernel_elf : parse_entry ext kernel_elf ≡ returns kernel_entry
unfolding parse_entry
parse-kernel_elf = refl

abbrev no_entry : DirEntry ext
no_entry = record {
  filename = record { name = replicate 8 0; ext = replicate 3 0 };
  modified_time = 1980 ∷ 0 ∷ 0 ∷ 0 ∷ 0 ∷ 0 ∷ [];
  created_time = 1980 ∷ 0 ∷ 0 ∷ 0 ∷ 0 ∷ 0 ∷ [];
  accessed_time = 1980 ∷ 0 ∷ 0 ∷ 0 ∷ 0 ∷ 0 ∷ [];
  cluster = 0;
  attributes = 0;
  size = 0;
}

-- 512 bytes in a sector, 2 sectors in a cluster, 2 entries in the root directory.
abbrev fat : Fat16
fat = record {
  bpb = replicate 11 0 ++ 0 ∷ 2 ∷ 2 ∷ 0 ∷ 0 ∷ 0 ∷ 2 ∷ replicate 20 0;
  fat_start = 1;
  first_data_sector = 40;
  first_root_dir_sector = 8;
}

abbrev root_block : List ℕ
root_block = kernel_elf ++ replicate 480 0

abbrev disk : image.State
disk j = if j == 8 then root_block else replicate 512 7

abbrev entries : ℕ → DirEntry ext
entries zero = kernel_entry
entries (suc i) = no_entry

slot :
    (j m : ℕ)
    → m < 16
    → j * 16 + m < 2
    → parse_entry ext (take 32 (drop (m * 32) root_block)) ≡ returns (entries (j * 16 + m))
unfolding parse_entry
slot zero zero lt h = refl
slot zero (suc zero) lt h = refl
slot zero (suc (suc m)) lt h = absurd (omega (arith, h))
slot (suc j) m lt h = absurd (omega (arith, h))

first_block : (j : ℕ) → j * 16 < 2 → image.read_block (8 + j) disk ≡ ok root_block
first_block zero h = refl
first_block (suc j) h = absurd (omega (arith, h))

disk-HoldsRoot : HoldsRoot ext image (λ b. b) fat disk entries
unfolding root_entries_count
disk-HoldsRoot = record {
  block = λ j. root_block;
  reads = first_block;
  sized = λ j h. refl;
  parsed = slot;
}

name-Plain : All Plain (codes "KERNEL")
unfolding is_forbidden
name-Plain = ground arith

ext-Plain : All Plain (codes "ELF")
unfolding is_forbidden
ext-Plain = ground arith

ascii : (c : ℕ) → c < 0x80 → ext.to_uppercase c ≡ to_upper c ∷ []
ascii c h = refl

display-parse_name_example :
    (display kernel_name >>= parse_name ext.to_uppercase) ≡ returns (ok kernel_name)
unfolding pad
display-parse_name_example =
    display-parse_name ext.to_uppercase ascii (codes "KERNEL") (codes "ELF") name-Plain ext-Plain
      (omega arith) (omega arith) (omega arith)

small_name : Ascii (codes "kernel.elf")
small_name = ground arith

parse-kernel : parse_name ext.to_uppercase (codes "kernel.elf") ≡ returns (ok kernel_name)
unfolding parse_name to_upper is_empty str_len split_last trim_start_matches to_array as_bytes pad
parse-kernel = refl

get_dir_entry_by_name-last_match_example :
    get_dir_entry_by_name ext image (λ b. b) fat 1 (open_root_dir ext) (codes "kernel.elf") disk
    ≡ some (returns (ok kernel_entry))
unfolding root_listing listing is_valid is_unused is_eod last_match matches ok_or_not_found
get_dir_entry_by_name-last_match_example =
    get_dir_entry_by_name-last_match ext image (λ b. b) fat disk entries 0 (codes "kernel.elf")
      kernel_name disk-HoldsRoot parse-kernel

get_all_file_under_dir-displayable_example :
    get_all_file_under_dir ext image (λ b. b) fat 1 (open_root_dir ext) disk
    ≡ some (returns (ok (as_meta ext kernel_entry ∷ [])))
unfolding root_listing listing is_valid is_unused is_eod displayable is_displayable
get_all_file_under_dir-displayable_example =
    get_all_file_under_dir-displayable ext image (λ b. b) fat disk entries 0 disk-HoldsRoot

parts : List (List ℕ)
parts = codes "bin" ∷ codes "sh" ∷ []

parts-IsPart : All IsPart parts
unfolding parts
parts-IsPart = ground arith

parse_path_lem_example :
    (parse_path (codes "bin/sh/") ≡ parts)
    × (parse_path (codes "/bin/sh/") ≡ parts)
    × (parse_path (codes "bin//sh") ≡ parse_path (codes "bin") ++ parse_path (codes "/sh"))
unfolding parts
parse_path_lem_example = parse_path_lem parts (codes "bin") (codes "/sh") parts-IsPart

walks_agree_example :
    let path = codes "/kernel.elf" in
    let lookup = lookup_path ext image (λ b. b) fat 1 disk path in
    (exists ext image (λ b. b) fat 1 disk path ≡ and_then lookup (λ entry. answered true))
    × (metadata ext image (λ b. b) fat 1 disk path
        ≡ and_then lookup (λ entry. finally (as_meta ext entry)))
    × (open_file ext image (λ b. b) fat 1 disk path
        ≡ and_then lookup (open_last ext image (λ b. b) fat 1 disk))
walks_agree_example = walks_agree ext image (λ b. b) fat 1 disk (codes "/kernel.elf")

no_parts : parse_path (codes "/") ≡ []
unfolding parse_path
no_parts = refl

-- A file system that answers with the path.
abbrev echo : FileSystem
echo = record {
  State = Unit {0};
  Listing = List ℕ;
  Handle = List ℕ;
  Meta = List ℕ;
  Found = List ℕ;
  read_dir = λ path s. path;
  open_file = λ path s. path;
  metadata = λ path s. path;
  exists = λ path s. path;
}

-- A file of 700 bytes in a cluster whose bytes are all 7.
abbrev sevens : ℕ → ℕ
sevens i = 7

abbrev small_entry : DirEntry ext
small_entry = record kernel_entry { size = 700 }

seven : (b : ℕ) (n : ℕ) → b < n → get_or {A = ℕ} (replicate n 7) b 0 ≡ 7
seven b zero h = absurd (omega (arith, h))
seven zero (suc n) h = refl
seven (suc b) (suc n) h = seven b n (omega (arith, h))

sector :
    (k : ℕ)
    → k < 2
    → image.read_block (cluster_to_first_sector fat 2 + k) disk ≡ ok (replicate 512 7)
unfolding cluster_to_first_sector
sector zero h = refl
sector (suc zero) h = refl
sector (suc (suc k)) h = absurd (omega (arith, h))

disk-HoldsCluster : HoldsCluster image (λ b. b) fat disk 2 sevens
unfolding sectors_per_cluster
disk-HoldsCluster = record {
  block = λ k. replicate 512 7;
  reads = sector;
  sized = λ k h. refl;
  holds = λ k b h lt. seven b 512 lt;
}

read_file-run_of_example :
    read_file ext image (λ b. b) fat disk 1001 (at_offset small_entry 2 100) 1000
    ≡ some (returns (transfer small_entry 2 (run_of sevens 600 100) 700))
unfolding sectors_per_cluster bytes_per_sector
read_file-run_of_example =
    read_file-run_of ext image (λ b. b) fat disk sevens refl small_entry 2 disk-HoldsCluster 1001
      1000 100 (omega arith) (omega arith) (omega arith) (omega arith) (omega arith)

read_all-pads_example :
    read_all ext image (λ b. b) fat disk 1025 2 (at_offset small_entry 2 0) []
    ≡ some (
        returns
          (ok (700, ([] ++ (run_of sevens 700 0 ++ replicate (1024 - 700) 0)) ++ replicate 1024 0)))
unfolding sectors_per_cluster bytes_per_sector
read_all-pads_example =
    read_all-pads ext image (λ b. b) fat disk sevens refl small_entry 2 disk-HoldsCluster 1025 0 []
      (omega arith) (omega arith) (omega arith) (omega arith)
