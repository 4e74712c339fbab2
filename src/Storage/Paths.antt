-- ===== src/Storage/Paths.antt =====
-- pkg/storage/src/fs/fat16/impls.rs and file.rs: FileSystem for Fat16. Paths are walked from the root directory; each
-- lookup on the way gets the same fuel, and `none` is a walk that is not over by then.
pub mod Parts
pub mod Agreement
use sysu_ysosv.Prelude.{
  ℕ, zero, suc, ◌+◌, ◌-◌, ◌≡◌, refl, Bool, true, false, Option, none, some, List, [], ◌∷◌, arith,
  ◌==◌, if◌then◌else◌, Outcome, returns, panics, ◌>>=◌,
}
use sysu_ysosv.Prelude.Result.{Result, ok, err}
use sysu_ysosv.Storage.Device.{BlockDevice, FsError, file_not_found, not_a_directory, not_a_file}
use sysu_ysosv.Storage.Fat.{Fat16}
use sysu_ysosv.Storage.Entries.{
  Externals, DirEntry, Directory, Metadata, is_directory, as_meta, from_entry, open_root_dir,
}
use sysu_ysosv.Storage.Walk.{get_dir_entry_by_name, get_all_file_under_dir}

-- Adds a character to the first part.
cons_first : ℕ → List (List ℕ) → List (List ℕ)
cons_first c [] = (c ∷ []) ∷ []
cons_first c (part ∷ parts) = (c ∷ part) ∷ parts

-- str::split, for a character
unfoldable pub split : ℕ → List ℕ → List (List ℕ)
unfolding cons_first
split sep [] = [] ∷ []
split sep (c ∷ s) = let parts = split sep s in if c == sep then [] ∷ parts else cons_first c parts

-- `filter(|s| !s.is_empty())`
unfoldable pub non_empty : List (List ℕ) → List (List ℕ)
non_empty [] = []
non_empty ([] ∷ parts) = non_empty parts
non_empty ((c ∷ s) ∷ parts) = (c ∷ s) ∷ non_empty parts

-- Fat16Impl::parse_path
unfoldable pub parse_path : List ℕ → List (List ℕ)
unfolding split non_empty
parse_path path = non_empty (split b'/' path)

-- File
pub record File (x : Externals) : Type 0 where
  pub offset : ℕ
  pub current_cluster : ℕ
  pub entry : DirEntry x

-- FileHandle
pub record FileHandle (x : Externals) : Type 0 where
  pub meta : Metadata x
  pub file : File x

-- What a call answers: `none` is a walk that is not over.
abbrev pub Answer : Type 0 → Type 0
Answer A = Option (Outcome (Result FsError A))

-- `?`
unfoldable pub and_then : {A B : Type 0} → Answer A → (A → Answer B) → Answer B
and_then none f = none
and_then (some panics) f = some panics
and_then (some (returns (err e))) f = some (returns (err e))
and_then (some (returns (ok a))) f = f a

unfoldable pub finally : {A : Type 0} → Outcome A → Answer A
finally panics = some panics
finally (returns a) = some (returns (ok a))

module _ (x : Externals) where
  -- File::new and length
  unfoldable pub new_file : DirEntry x → File x
  new_file entry = record { offset = 0; current_cluster = entry.cluster; entry = entry }

  unfoldable pub file_length : File x → ℕ
  file_length file = file.entry.size

  module _ (d : BlockDevice) (as_ref : d.Block → List ℕ) (fat : Fat16) (fuel : ℕ)
      (s : d.State) where
    -- The loop of read_dir
    unfoldable pub enter : Directory x → List (List ℕ) → Answer (Directory x)
    unfolding and_then
    enter dir [] = some (returns (ok dir))
    enter dir (part ∷ parts) =
        and_then (get_dir_entry_by_name x d as_ref fat fuel dir part s) (λ entry.
          elim (is_directory x entry) [
            | true ↦ enter (from_entry x entry) parts
            | false ↦ some (returns (err not_a_directory))
          ])

    -- Fat16::read_dir
    unfoldable pub read_dir : List ℕ → Answer (List (Outcome (Metadata x)))
    unfolding enter
    read_dir path =
        and_then (enter (open_root_dir x) (parse_path path))
          (λ dir. get_all_file_under_dir x d as_ref fat fuel dir s)

    unfoldable pub open_last : DirEntry x → Answer (FileHandle x)
    unfolding finally new_file
    open_last entry = elim (is_directory x entry) [
      | true ↦ some (returns (err not_a_file))
      | false ↦
          finally
            (as_meta x entry >>= λ meta. returns (record { meta = meta; file = new_file entry }))
    ]

    -- The loop of open_file
    open_file_in : Directory x → List (List ℕ) → Answer (FileHandle x)
    unfolding and_then open_last
    open_file_in dir [] = some (returns (err file_not_found))
    open_file_in dir (part ∷ []) =
        and_then (get_dir_entry_by_name x d as_ref fat fuel dir part s) open_last
    open_file_in dir (part ∷ part' ∷ parts) =
        and_then (get_dir_entry_by_name x d as_ref fat fuel dir part s)
          (λ entry. open_file_in (from_entry x entry) (part' ∷ parts))

    -- Fat16::open_file
    unfoldable pub open_file : List ℕ → Answer (FileHandle x)
    unfolding open_file_in
    open_file path = open_file_in (open_root_dir x) (parse_path path)

    -- The loop of metadata
    metadata_in : Directory x → List (List ℕ) → Answer (Metadata x)
    unfolding and_then finally
    metadata_in dir [] = some (returns (err file_not_found))
    metadata_in dir (part ∷ []) =
        and_then (get_dir_entry_by_name x d as_ref fat fuel dir part s)
          (λ entry. finally (as_meta x entry))
    metadata_in dir (part ∷ part' ∷ parts) =
        and_then (get_dir_entry_by_name x d as_ref fat fuel dir part s)
          (λ entry. metadata_in (from_entry x entry) (part' ∷ parts))

    -- Fat16::metadata
    unfoldable pub metadata : List ℕ → Answer (Metadata x)
    unfolding metadata_in
    metadata path = metadata_in (open_root_dir x) (parse_path path)

    -- The loop of exists
    exists_in : Directory x → List (List ℕ) → Answer Bool
    unfolding and_then
    exists_in dir [] = some (returns (err file_not_found))
    exists_in dir (part ∷ []) =
        and_then (get_dir_entry_by_name x d as_ref fat fuel dir part s)
          (λ entry. some (returns (ok true)))
    exists_in dir (part ∷ part' ∷ parts) =
        and_then (get_dir_entry_by_name x d as_ref fat fuel dir part s)
          (λ entry. exists_in (from_entry x entry) (part' ∷ parts))

    -- Fat16::exists
    unfoldable pub exists : List ℕ → Answer Bool
    unfolding exists_in
    exists path = exists_in (open_root_dir x) (parse_path path)
