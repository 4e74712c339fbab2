-- ===== src/Storage/Walk.antt =====
-- pkg/storage/src/fs/fat16/impls.rs: walking a directory. The closure that the source passes becomes a
-- function on what it has gathered. A sector and a chain of clusters are loops; `fuel` bounds the clusters that are
-- visited, and `none` is a walk that is not over by then. Sector numbers are usize and do not reach 2 ^ 64.
pub mod Visits
pub mod Blocks
pub mod Listing
use sysu_ysosv.Prelude.{
  ℕ, zero, suc, ◌+◌, ◌-◌, ◌*◌, ◌/◌, ◌<◌, ◌≤◌, ◌≡◌, refl, min, Bool, true, false, ◌&&◌, not, Option,
  none, some, List, [], ◌∷◌, ◌++◌, arith, length, take, drop, ltb, leb, ◌==◌, if◌then◌else◌,
  Outcome, returns, panics, ◌>>=◌, map,
}
use sysu_ysosv.Prelude.Result.{Result, ok, err}
use sysu_ysosv.Storage.Device.{BlockDevice, FsError, file_not_found}
use sysu_ysosv.Storage.Fat.{
  Fat16, block_size, root_dir, end_of_chain, sectors_per_cluster, root_entries_count,
  cluster_to_first_sector, get_next_cluster,
}
use sysu_ysosv.Storage.Names.{ShortFileName, matches, parse_name}
use sysu_ysosv.Storage.Entries.{
  Externals, DirEntry, Directory, Metadata, parse_entry, is_valid, is_displayable, as_meta,
}

-- DirEntry::LEN
abbrev pub entry_len : ℕ
entry_len = 0x20

-- `entry_per_block`
abbrev pub entry_per_block : ℕ
entry_per_block = block_size / entry_len

-- How the loops go on: with the next entry, or out of traverse_dir_entries.
pub data Scan (A : Type 0) : Type 0 where
  more : A → Scan A
  done : A → Scan A
  failed : FsError → Scan A

-- `block[offset..offset + len]`
unfoldable pub slice : ℕ → ℕ → List ℕ → Outcome (List ℕ)
slice offset n bytes =
    if leb (offset + n) (length bytes) then returns (take n (drop offset bytes)) else panics

module _ (x : Externals) (d : BlockDevice) (as_ref : d.Block → List ℕ) (fat : Fat16) where
  module _ {A : Type 0} (process_entry : A → DirEntry x → Result FsError A) (s : d.State) where
    -- The entries of one block.
    unfoldable pub scan_block : ℕ → ℕ → List ℕ → A → Outcome (Scan A)
    unfolding slice
    scan_block zero offset bytes a = returns (more a)
    scan_block (suc n) offset bytes a = do
      part ← slice offset entry_len bytes
      entry ← parse_entry x part
      elim (is_valid x entry) [
        | false ↦ returns (done a)
        | true ↦ elim (process_entry a entry) [
          | err e ↦ returns (failed e)
          | ok a' ↦ scan_block n (offset + entry_len) bytes a'
        ]
      ]

    -- The blocks of one cluster, for as many entries as there are left; each block has at least one of
    -- them, so as many rounds as entries are enough.
    unfoldable pub scan_blocks : ℕ → ℕ → ℕ → A → Outcome (Scan A)
    unfolding scan_block
    scan_blocks zero entry_num now_sector a = returns (more a)
    scan_blocks (suc n) entry_num now_sector a = elim (entry_num == 0) [
      | true ↦ returns (more a)
      | false ↦ elim (d.read_block now_sector s) [
        | err e ↦ panics
        | ok block ↦ do
          scan ← scan_block (min entry_num entry_per_block) 0 (as_ref block) a
          elim scan [
            | more a' ↦ scan_blocks n (entry_num - entry_per_block) (now_sector + 1) a'
            | done a' ↦ returns (done a')
            | failed e ↦ returns (failed e)
          ]
      ]
    ]

    unfoldable pub entries_of : ℕ → ℕ
    entries_of cluster =
        if cluster == root_dir
        then root_entries_count fat.bpb
        else entry_per_block * sectors_per_cluster fat.bpb

    -- traverse_dir_entries, from a cluster on
    unfoldable pub traverse_from : ℕ → ℕ → A → Option (Outcome (Result FsError A))
    unfolding scan_blocks entries_of
    traverse_from zero cluster a = none
    traverse_from (suc fuel) cluster a =
        let n = entries_of cluster in
        elim (scan_blocks n n (cluster_to_first_sector fat cluster) a) [
          | panics ↦ some panics
          | returns (done a') ↦ some (returns (ok a'))
          | returns (failed e) ↦ some (returns (err e))
          | returns (more a') ↦ elim (get_next_cluster d as_ref fat cluster s) [
            | panics ↦ some panics
            | returns (err e) ↦ some (returns (err e))
            | returns (ok next) ↦ elim (next == end_of_chain) [
              | true ↦ some (returns (ok a'))
              | false ↦ traverse_from fuel next a'
            ]
          ]
        ]

  -- Fat16Impl::traverse_dir_entries
  unfoldable pub traverse_dir_entries :
      {A : Type 0}
      → (A → DirEntry x → Result FsError A)
      → ℕ
      → Directory x
      → A
      → d.State
      → Option (Outcome (Result FsError A))
  unfolding traverse_from
  traverse_dir_entries process_entry fuel dir a s = traverse_from process_entry s fuel dir.cluster a

  -- The closure of get_dir_entry_by_name
  unfoldable pub keep_match :
      ShortFileName → Option (DirEntry x) → DirEntry x → Result FsError (Option (DirEntry x))
  keep_match name result entry = ok (if matches entry.filename name then some entry else result)

  -- `result.ok_or(FsError::FileNotFound)`
  unfoldable pub found : Result FsError (Option (DirEntry x)) → Result FsError (DirEntry x)
  found (err e) = err e
  found (ok none) = err file_not_found
  found (ok (some entry)) = ok entry

  -- Fat16Impl::get_dir_entry_by_name
  unfoldable pub get_dir_entry_by_name :
      ℕ → Directory x → List ℕ → d.State → Option (Outcome (Result FsError (DirEntry x)))
  unfolding traverse_dir_entries keep_match found
  get_dir_entry_by_name fuel dir name s = elim (parse_name x.to_uppercase name) [
    | panics ↦ some panics
    | returns (err e) ↦ some (returns (err e))
    | returns (ok parse_name') ↦
        elim (traverse_dir_entries (keep_match parse_name') fuel dir none s) [
          | none ↦ none
          | some panics ↦ some panics
          | some (returns r) ↦ some (returns (found r))
        ]
  ]

  -- The closure of get_all_file_under_dir
  unfoldable pub push_displayable :
      List (DirEntry x) → DirEntry x → Result FsError (List (DirEntry x))
  push_displayable entries entry =
      ok (if is_displayable x entry then entries ++ entry ∷ [] else entries)

  unfoldable pub metas :
      Result FsError (List (DirEntry x)) → Result FsError (List (Outcome (Metadata x)))
  metas (err e) = err e
  metas (ok entries) = ok (map (as_meta x) entries)

  -- Fat16Impl::get_all_file_under_dir; the iterator that it returns makes the metadata of an entry
  -- when it gets there.
  unfoldable pub get_all_file_under_dir :
      ℕ → Directory x → d.State → Option (Outcome (Result FsError (List (Outcome (Metadata x)))))
  unfolding traverse_dir_entries push_displayable metas
  get_all_file_under_dir fuel dir s = elim (traverse_dir_entries push_displayable fuel dir [] s) [
    | none ↦ none
    | some panics ↦ some panics
    | some (returns r) ↦ some (returns (metas r))
  ]
