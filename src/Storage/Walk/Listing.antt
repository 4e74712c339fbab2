-- ===== src/Storage/Walk/Listing.antt =====
-- pkg/storage/src/fs/fat16/impls.rs: what lookups and listings answer for the root directory.
use sysu_ysosv.Prelude.{
  ℕ, suc, ◌+◌, ◌*◌, ◌<◌, ◌≡◌, inl, inr, refl, ap, subst, ◌∙◌, Bool, true, false, Option, none, some,
  List, [], ◌∷◌, ◌++◌, append-nil, append_assoc, arith, length, take, drop, if◌then◌else◌, returns,
  map, Bool-cases,
}
use sysu_ysosv.Prelude.Result.{Result, ok, err}
use sysu_ysosv.Storage.Device.{BlockDevice, FsError, file_not_found}
use sysu_ysosv.Storage.Fat.{Fat16, root_entries_count, cluster_to_first_sector, get_next_cluster}
use sysu_ysosv.Storage.Names.{ShortFileName, matches, parse_name}
use sysu_ysosv.Storage.Entries.{
  Externals, DirEntry, parse_entry, is_displayable, as_meta, open_root_dir,
}
use sysu_ysosv.Storage.Walk.{
  Scan, more, done, failed, scan_blocks, entries_of, traverse_from, traverse_dir_entries,
  keep_match, found, get_dir_entry_by_name, push_displayable, metas, get_all_file_under_dir,
}
use sysu_ysosv.Storage.Walk.Visits.{fold_entries, answer, listing, visit, visit-listing}
use sysu_ysosv.Storage.Walk.Blocks.{scan_blocks-visit}

-- The blocks of the root directory can be read, and hold these entries, 16 in each.
pub record HoldsRoot (x : Externals) (d : BlockDevice) (as_ref : d.Block → List ℕ) (fat : Fat16)
    (s : d.State) (entries : ℕ → DirEntry x) : Type 0 where
  pub block : ℕ → d.Block
  pub reads :
      (j : ℕ)
      → j * 16 < root_entries_count fat.bpb
      → d.read_block (fat.first_root_dir_sector + j) s ≡ ok (block j)
  pub sized : (j : ℕ) → j * 16 < root_entries_count fat.bpb → length (as_ref (block j)) ≡ 512
  pub parsed :
      (j m : ℕ)
      → m < 16
      → j * 16 + m < root_entries_count fat.bpb
      → parse_entry x (take 32 (drop (m * 32) (as_ref (block j)))) ≡ returns (entries (j * 16 + m))

-- The entries of the root directory, up to the first that is not valid.
unfoldable pub root_listing : (x : Externals) → Fat16 → (ℕ → DirEntry x) → List (DirEntry x)
unfolding root_entries_count
root_listing x fat entries = listing x entries (root_entries_count fat.bpb) 0

module _ (x : Externals) where
  or_else : Option (DirEntry x) → Option (DirEntry x) → Option (DirEntry x)
  or_else r none = r
  or_else r (some e) = some e

  -- The last entry of that name.
  unfoldable pub last_match : ShortFileName → List (DirEntry x) → Option (DirEntry x)
  unfolding or_else
  last_match name [] = none
  last_match name (e ∷ es) =
      or_else (if matches e.filename name then some e else none) (last_match name es)

  unfoldable pub ok_or_not_found : Option (DirEntry x) → Result FsError (DirEntry x)
  ok_or_not_found none = err file_not_found
  ok_or_not_found (some e) = ok e

  unfoldable pub displayable : List (DirEntry x) → List (DirEntry x)
  displayable [] = []
  displayable (e ∷ es) = let rest = displayable es in if is_displayable x e then e ∷ rest else rest

module _ (x : Externals) (d : BlockDevice) (as_ref : d.Block → List ℕ) (fat : Fat16) (s : d.State)
    (entries : ℕ → DirEntry x) where
  module _ {A : Type 0} (f : A → DirEntry x → Result FsError A) where
    -- A walk over the root directory is over after one cluster.
    traverse-scan :
        (fuel : ℕ) (a : A) (w : Scan A)
        → let n = root_entries_count fat.bpb in
          scan_blocks x d as_ref fat f s n n fat.first_root_dir_sector a ≡ returns w
          → traverse_dir_entries x d as_ref fat f (suc fuel) (open_root_dir x) a s
            ≡ some (returns (answer w))
    unfolding traverse_dir_entries entries_of open_root_dir cluster_to_first_sector get_next_cluster
        answer
    traverse-scan fuel a (more a') e = rw (traverse_from, e) refl
    traverse-scan fuel a (done a') e = rw (traverse_from, e) refl
    traverse-scan fuel a (failed error) e = rw (traverse_from, e) refl

    pub traverse_root :
        (fuel : ℕ) (a : A)
        → HoldsRoot x d as_ref fat s entries
        → traverse_dir_entries x d as_ref fat f (suc fuel) (open_root_dir x) a s
          ≡ some (returns (fold_entries f a (root_listing x fat entries)))
    unfolding root_listing
    traverse_root fuel a h =
        let n = root_entries_count fat.bpb in
        let first = fat.first_root_dir_sector in
        let same : first + 0 ≡ first = omega arith in
        let visited : scan_blocks x d as_ref fat f s n n first a
            ≡ returns (visit x entries f n 0 a) =
          subst (λ i. scan_blocks x d as_ref fat f s n n i a ≡ returns (visit x entries f n 0 a))
            same
            (scan_blocks-visit x d as_ref fat s h.block entries first n h.reads h.sized h.parsed f n
              n 0 a (omega arith) (inr (omega arith))) in
        traverse-scan fuel a (visit x entries f n 0 a) visited
        ∙ ap (λ r. some (returns r)) (visit-listing x entries f n 0 a)

  or_else-if :
      (b : Bool) (e : DirEntry x) (r o : Option (DirEntry x))
      → or_else x (if b then some e else r) o
        ≡ or_else x r (or_else x (if b then some e else none) o)
  unfolding or_else
  or_else-if true e r none = refl
  or_else-if true e r (some e') = refl
  or_else-if false e r none = refl
  or_else-if false e r (some e') = refl

  fold-keep_match :
      (name : ShortFileName) (es : List (DirEntry x)) (r : Option (DirEntry x))
      → fold_entries (keep_match x d as_ref fat name) r es ≡ ok (or_else x r (last_match x name es))
  unfolding fold_entries keep_match last_match or_else
  fold-keep_match name [] r = refl
  fold-keep_match name (e ∷ es) r =
      fold-keep_match name es (if matches e.filename name then some e else r)
      ∙ ap ok (or_else-if (matches e.filename name) e r (last_match x name es))

  found-ok :
      (o : Option (DirEntry x)) → found x d as_ref fat (ok (or_else x none o)) ≡ ok_or_not_found x o
  unfolding found or_else ok_or_not_found
  found-ok none = refl
  found-ok (some e) = refl

  -- If the name can be parsed and the blocks of the root directory can be read, a lookup in the root directory ends.
  -- It answers the last entry of that name, among the entries before the first unused or empty one; if there
  -- is no such entry, that the file was not found.
  pub get_dir_entry_by_name-last_match :
      (fuel : ℕ) (name : List ℕ) (sfn : ShortFileName)
      → HoldsRoot x d as_ref fat s entries
      → parse_name x.to_uppercase name ≡ returns (ok sfn)
      → get_dir_entry_by_name x d as_ref fat (suc fuel) (open_root_dir x) name s
        ≡ some (returns (ok_or_not_found x (last_match x sfn (root_listing x fat entries))))
  unfolding get_dir_entry_by_name
  get_dir_entry_by_name-last_match fuel name sfn h named =
      rw
        (
          get_dir_entry_by_name,
          named,
          traverse_root (keep_match x d as_ref fat sfn) fuel none h,
          fold-keep_match sfn (root_listing x fat entries) none,
        )
        (ap (λ r. some (returns r)) (found-ok (last_match x sfn (root_listing x fat entries))))

  fold-push_displayable :
      (es shown : List (DirEntry x))
      → fold_entries (push_displayable x d as_ref fat) shown es ≡ ok (shown ++ displayable x es)
  unfolding fold_entries push_displayable displayable
  fold-push_displayable [] shown = rw (append-nil shown) refl
  fold-push_displayable (e ∷ es) shown = elim (Bool-cases (is_displayable x e)) [
    | inl on ↦
        rw
          (
            on,
            fold-push_displayable es (shown ++ e ∷ []),
            append_assoc shown (e ∷ []) (displayable x es),
          )
          refl
    | inr off ↦ rw (off, fold-push_displayable es shown) refl
  ]

  -- If the blocks of the root directory can be read, listing it ends. It answers the metadata of the
  -- entries, in their order, that are neither hidden nor parts of long names, among the entries before
  -- the first unused or empty one.
  pub get_all_file_under_dir-displayable :
      (fuel : ℕ)
      → HoldsRoot x d as_ref fat s entries
      → get_all_file_under_dir x d as_ref fat (suc fuel) (open_root_dir x) s
        ≡ some (returns (ok (map (as_meta x) (displayable x (root_listing x fat entries)))))
  unfolding get_all_file_under_dir metas
  get_all_file_under_dir-displayable fuel h =
      rw
        (
          get_all_file_under_dir,
          traverse_root (push_displayable x d as_ref fat) fuel [] h,
          fold-push_displayable (root_listing x fat entries) [],
        )
        refl
