-- ===== src/Storage/Mount.antt =====
-- pkg/storage/src/common/mount.rs and filesystem.rs: a file system, as an interface, and one that is mounted on a
-- path. `State` is what is on the device.
use sysu_ysosv.Prelude.{
  ℕ, zero, suc, ◌+◌, ◌≤◌, ◌≡◌, refl, sym, ap, ◌∙◌, Option, none, some, List, [], ◌∷◌, ◌++◌, arith,
  length, length-append, ◌==◌, ==_self, if◌then◌else◌, Bool-cases, Option-cases, inl, inr,
}
use sysu_ysosv.Prelude.Result.{Result, err}
use sysu_ysosv.Storage.Device.{FsError, not_supported}

pub record FileSystem : Type 1 where
  pub State : Type 0
  pub Listing : Type 0
  pub Handle : Type 0
  pub Meta : Type 0
  pub Found : Type 0
  pub read_dir : List ℕ → State → Listing
  pub open_file : List ℕ → State → Handle
  pub metadata : List ℕ → State → Meta
  pub exists : List ℕ → State → Found

-- The operations that the trait answers itself: create_file, append_file, remove_file and remove_dir,
-- and copy_file, move_file and move_dir.
unfoldable pub on_path : {A : Type 0} → List ℕ → Result FsError A
on_path path = err not_supported

-- str::strip_prefix
unfoldable pub strip_prefix : List ℕ → List ℕ → Option (List ℕ)
strip_prefix [] path = some path
strip_prefix (m ∷ ms) [] = none
strip_prefix (m ∷ ms) (c ∷ path) = if m == c then strip_prefix ms path else none

-- str::trim_start_matches, for a text: it is stripped as often as it is there. A path has at most
-- as many characters as there are rounds, and the empty text is not stripped.
unfoldable pub trim_matches : ℕ → List ℕ → List ℕ → List ℕ
unfolding strip_prefix
trim_matches zero m path = path
trim_matches (suc n) [] path = path
trim_matches (suc n) (m ∷ ms) path = elim (strip_prefix (m ∷ ms) path) [
  | none ↦ path
  | some rest ↦ trim_matches n (m ∷ ms) rest
]

-- Mount::trim_mount_point
unfoldable pub trim_mount_point : List ℕ → List ℕ → List ℕ
unfolding trim_matches
trim_mount_point mount_point path = trim_matches (length path) mount_point path

-- FileSystem for Mount
abbrev pub mount : FileSystem → List ℕ → FileSystem
mount fs mount_point = record {
  State = fs.State;
  Listing = fs.Listing;
  Handle = fs.Handle;
  Meta = fs.Meta;
  Found = fs.Found;
  read_dir = λ path. fs.read_dir (trim_mount_point mount_point path);
  open_file = λ path. fs.open_file (trim_mount_point mount_point path);
  metadata = λ path. fs.metadata (trim_mount_point mount_point path);
  exists = λ path. fs.exists (trim_mount_point mount_point path);
}

strip_prefix-append : (m path : List ℕ) → strip_prefix m (m ++ path) ≡ some path
unfolding strip_prefix
strip_prefix-append [] path = refl
strip_prefix-append (c ∷ m) path = rw (==_self c) (strip_prefix-append m path)

strip_prefix_shorter :
    (m path rest : List ℕ) → strip_prefix m path ≡ some rest → length m + length rest ≡ length path
unfolding strip_prefix
strip_prefix_shorter [] path rest e = ground (arith, e)
strip_prefix_shorter (m ∷ ms) [] rest e = absurd (ground (arith, e))
strip_prefix_shorter (m ∷ ms) (c ∷ path) rest e = elim (Bool-cases (m == c)) [
  | inl on ↦ ground (arith, on, e, strip_prefix_shorter ms path rest)
  | inr off ↦ absurd (ground (arith, off, e))
]

trim_matches-nil : (n : ℕ) (m : List ℕ) → trim_matches n m [] ≡ []
unfolding trim_matches strip_prefix
trim_matches-nil zero m = refl
trim_matches-nil (suc n) [] = refl
trim_matches-nil (suc n) (c ∷ m) = refl

-- More rounds than characters change nothing.
trim_matches-enough :
    (n k c : ℕ) (m path : List ℕ)
    → length path ≤ n
    → length path ≤ k
    → trim_matches n (c ∷ m) path ≡ trim_matches k (c ∷ m) path
unfolding trim_matches
trim_matches-enough n k c m [] hn hk = trim_matches-nil n (c ∷ m) ∙ sym (trim_matches-nil k (c ∷ m))
trim_matches-enough zero k c m (b ∷ path) hn hk = absurd (omega (arith, hn))
trim_matches-enough (suc n) zero c m (b ∷ path) hn hk = absurd (omega (arith, hk))
trim_matches-enough (suc n) (suc k) c m (b ∷ path) hn hk =
    elim (Option-cases (strip_prefix (c ∷ m) (b ∷ path))) [
      | inl e ↦ rw (trim_matches, e) refl
      | inr (rest, e) ↦
          let shorter = strip_prefix_shorter (c ∷ m) (b ∷ path) rest e in
          rw (trim_matches, e)
            (trim_matches-enough n k c m rest (omega (arith, hn, shorter))
              (omega (arith, hk, shorter)))
    ]

trim_mount_point-append :
    (c : ℕ) (m path : List ℕ)
    → trim_mount_point (c ∷ m) ((c ∷ m) ++ path) ≡ trim_mount_point (c ∷ m) path
unfolding trim_mount_point
trim_mount_point-append c m path =
    rw (trim_matches, strip_prefix-append (c ∷ m) path)
      (trim_matches-enough (length (m ++ path)) (length path) c m path
        (omega (arith, length-append m path)) (omega arith))

trim_mount_point-none :
    (m path : List ℕ) → strip_prefix m path ≡ none → trim_mount_point m path ≡ path
unfolding trim_mount_point trim_matches strip_prefix
trim_mount_point-none [] path e = absurd (ground (arith, e))
trim_mount_point-none (c ∷ m) [] e = refl
trim_mount_point-none (c ∷ m) (b ∷ path) e = rw (trim_matches, e) refl

-- A file system that is mounted on a path of at least one character answers for the mount point and
-- a path behind it, which does not start with the mount point itself, as the file system does for that path.
mount_lem :
    (fs : FileSystem) (c : ℕ) (m path : List ℕ)
    → strip_prefix (c ∷ m) path ≡ none
    → let full = (c ∷ m) ++ path in
      ((mount fs (c ∷ m)).read_dir full ≡ fs.read_dir path)
      × ((mount fs (c ∷ m)).open_file full ≡ fs.open_file path)
      × ((mount fs (c ∷ m)).metadata full ≡ fs.metadata path)
      × ((mount fs (c ∷ m)).exists full ≡ fs.exists path)
mount_lem fs c m path e =
    let plain = trim_mount_point-append c m path ∙ trim_mount_point-none (c ∷ m) path e in
    (ap fs.read_dir plain, ap fs.open_file plain, ap fs.metadata plain, ap fs.exists plain)

-- A second copy of the mount point in front of a path is dropped as well.
pub mount_again :
    (fs : FileSystem) (c : ℕ) (m path : List ℕ)
    → (mount fs (c ∷ m)).open_file ((c ∷ m) ++ ((c ∷ m) ++ path))
      ≡ (mount fs (c ∷ m)).open_file ((c ∷ m) ++ path)
mount_again fs c m path = ap fs.open_file (trim_mount_point-append c m ((c ∷ m) ++ path))
