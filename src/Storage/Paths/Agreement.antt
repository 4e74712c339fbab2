-- ===== src/Storage/Paths/Agreement.antt =====
-- pkg/storage/src/fs/fat16/impls.rs: open_file, metadata and exists against one lookup.
use sysu_ysosv.Prelude.{
  ℕ, ◌≡◌, refl, sym, ap, ◌∙◌, true, none, some, List, [], ◌∷◌, returns, panics,
}
use sysu_ysosv.Prelude.Result.{ok, err}
use sysu_ysosv.Storage.Device.{BlockDevice, FsError, file_not_found}
use sysu_ysosv.Storage.Fat.{Fat16}
use sysu_ysosv.Storage.Entries.{Externals, DirEntry, Directory, as_meta, from_entry, open_root_dir}
use sysu_ysosv.Storage.Walk.{get_dir_entry_by_name, get_all_file_under_dir}
use sysu_ysosv.Storage.Paths.{
  Answer, and_then, finally, enter, open_last, open_file_in, metadata_in, exists_in, parse_path,
  read_dir, open_file, metadata, exists,
}

and_then_assoc :
    {A B C : Type 0} (m : Answer A) (f : A → Answer B) (g : B → Answer C)
    → and_then (and_then m f) g ≡ and_then m (λ a. and_then (f a) g)
unfolding and_then
and_then_assoc none f g = refl
and_then_assoc (some panics) f g = refl
and_then_assoc (some (returns (err e))) f g = refl
and_then_assoc (some (returns (ok a))) f g = refl

and_then-cong :
    {A B : Type 0} (m : Answer A) (f g : A → Answer B)
    → ((a : A) → f a ≡ g a)
    → and_then m f ≡ and_then m g
unfolding and_then
and_then-cong none f g h = refl
and_then-cong (some panics) f g h = refl
and_then-cong (some (returns (err e))) f g h = refl
and_then-cong (some (returns (ok a))) f g h = h a

and_then-ok : {A B : Type 0} (a : A) (f : A → Answer B) → and_then (some (returns (ok a))) f ≡ f a
unfolding and_then
and_then-ok a f = refl

and_then-err :
    {A B : Type 0} (e : FsError) (f : A → Answer B)
    → and_then (some (returns (err e))) f ≡ some (returns (err e))
unfolding and_then
and_then-err e f = refl

-- An entry that was found, as an answer.
abbrev pub answered : {A : Type 0} → A → Answer A
answered a = some (returns (ok a))

-- Of the parts of a path, all but the last, and the last
unfoldable pub but_last : List ℕ → List (List ℕ) → List (List ℕ)
but_last part [] = []
but_last part (part' ∷ parts) = part ∷ but_last part' parts

unfoldable pub last_part : List ℕ → List (List ℕ) → List ℕ
last_part part [] = part
last_part part (part' ∷ parts) = last_part part' parts

module _ (x : Externals) (d : BlockDevice) (as_ref : d.Block → List ℕ) (fat : Fat16) (fuel : ℕ)
    (s : d.State) where
  abbrev entry_in : Directory x → List ℕ → Answer (DirEntry x)
  entry_in dir part = get_dir_entry_by_name x d as_ref fat fuel dir part s

  -- The directory that parts lead to, one below the other
  unfoldable pub directory_at : Directory x → List (List ℕ) → Answer (Directory x)
  directory_at dir [] = answered dir
  directory_at dir (part ∷ parts) =
      and_then (entry_in dir part) (λ entry. directory_at (from_entry x entry) parts)

  -- The entry of the last part, in the directory that the parts before it lead to
  unfoldable pub found_at : Directory x → List (List ℕ) → Answer (DirEntry x)
  unfolding directory_at but_last last_part
  found_at dir [] = some (returns (err file_not_found))
  found_at dir (part ∷ parts) =
      and_then (directory_at dir (but_last part parts))
        (λ below. entry_in below (last_part part parts))

  -- The entry that a path leads to
  unfoldable pub lookup_path : List ℕ → Answer (DirEntry x)
  unfolding found_at
  lookup_path path = found_at (open_root_dir x) (parse_path path)

  found_at-one : (dir : Directory x) (part : List ℕ) → found_at dir (part ∷ []) ≡ entry_in dir part
  unfolding found_at
  found_at-one dir part = and_then-ok dir (λ below. entry_in below part)

  found_at-more :
      (dir : Directory x) (part part' : List ℕ) (parts : List (List ℕ))
      → found_at dir (part ∷ part' ∷ parts)
        ≡ and_then (entry_in dir part) (λ entry. found_at (from_entry x entry) (part' ∷ parts))
  unfolding found_at
  found_at-more dir part part' parts =
      and_then_assoc (entry_in dir part)
        (λ entry. directory_at (from_entry x entry) (but_last part' parts))
        (λ below. entry_in below (last_part part' parts))

  -- A loop over the parts that does something with the last entry.
  loop-found_at :
      {A : Type 0} (last : DirEntry x → Answer A) (loop : Directory x → List (List ℕ) → Answer A)
      → ((dir : Directory x) → loop dir [] ≡ some (returns (err file_not_found)))
      → ((dir : Directory x) (part : List ℕ)
          → loop dir (part ∷ []) ≡ and_then (entry_in dir part) last)
      → ((dir : Directory x) (part part' : List ℕ) (parts : List (List ℕ))
          → loop dir (part ∷ part' ∷ parts)
            ≡ and_then (entry_in dir part) (λ entry. loop (from_entry x entry) (part' ∷ parts)))
      → (dir : Directory x) (parts : List (List ℕ))
      → loop dir parts ≡ and_then (found_at dir parts) last
  unfolding found_at
  loop-found_at last loop none_left one more dir [] =
      none_left dir ∙ sym (and_then-err file_not_found last)
  loop-found_at last loop none_left one more dir (part ∷ []) =
      one dir part ∙ ap (λ found. and_then found last) (sym (found_at-one dir part))
  loop-found_at last loop none_left one more dir (part ∷ part' ∷ parts) =
      let next = λ (entry : DirEntry x). found_at (from_entry x entry) (part' ∷ parts) in
      more dir part part' parts
      ∙ and_then-cong (entry_in dir part) (λ entry. loop (from_entry x entry) (part' ∷ parts))
          (λ entry. and_then (next entry) last)
          (λ entry. loop-found_at last loop none_left one more (from_entry x entry) (part' ∷ parts))
      ∙ sym (and_then_assoc (entry_in dir part) next last)
      ∙ ap (λ found. and_then found last) (sym (found_at-more dir part part' parts))

  -- exists, metadata and open_file fail, panic and go on exactly as one lookup of the path does, which finds the entry of the last
  -- part in the directory that the parts before it lead to from the root, and no file if there are no parts. When
  -- it finds an entry, exists answers true, metadata the metadata of the entry, and open_file
  -- a file of that entry or, for a directory, that it is not a file.
  pub walks_agree :
      (path : List ℕ)
      → (exists x d as_ref fat fuel s path ≡ and_then (lookup_path path) (λ entry. answered true))
        × (metadata x d as_ref fat fuel s path
            ≡ and_then (lookup_path path) (λ entry. finally (as_meta x entry)))
        × (open_file x d as_ref fat fuel s path
            ≡ and_then (lookup_path path) (open_last x d as_ref fat fuel s))
  unfolding exists metadata open_file lookup_path
  walks_agree path =
      let parts = parse_path path in
      let meta = λ (entry : DirEntry x). finally (as_meta x entry) in
      (
        loop-found_at (λ entry. answered true) (exists_in x d as_ref fat fuel s) (λ dir. refl)
            (λ dir part. refl) (λ dir part part' parts. refl) (open_root_dir x) parts,
        loop-found_at meta (metadata_in x d as_ref fat fuel s) (λ dir. refl) (λ dir part. refl)
            (λ dir part part' parts. refl) (open_root_dir x) parts,
        loop-found_at (open_last x d as_ref fat fuel s) (open_file_in x d as_ref fat fuel s)
            (λ dir. refl) (λ dir part. refl) (λ dir part part' parts. refl) (open_root_dir x) parts,
      )

  -- For a path without parts, such as "/", read_dir lists the root directory, but exists, metadata and open_file answer
  -- that the file was not found.
  root_not_found :
      (path : List ℕ)
      → parse_path path ≡ []
      → (read_dir x d as_ref fat fuel s path
          ≡ get_all_file_under_dir x d as_ref fat fuel (open_root_dir x) s)
        × (exists x d as_ref fat fuel s path ≡ some (returns (err file_not_found)))
        × (metadata x d as_ref fat fuel s path ≡ some (returns (err file_not_found)))
        × (open_file x d as_ref fat fuel s path ≡ some (returns (err file_not_found)))
  unfolding read_dir enter exists metadata open_file and_then
  root_not_found path e =
      (rw (read_dir, e) refl, rw (exists, e) refl, rw (metadata, e) refl, rw (open_file, e) refl)
