-- ===== src/Resource.antt =====
-- pkg/kernel/src/utils/resource.rs: the file descriptor table of a process family, and the console
-- and null devices. The key buffer of drivers/input.rs is a crossbeam ArrayQueue, which stands
-- here as the parameter `KeyQueue`; a file is any FileIO object, the parameter `FileIo`.
-- An isize is its 64-bit pattern. What print! and warn! are given is kept in order in `printed`.
pub mod Table
pub mod Devices
use sysu_ysosv.Prelude.{
  ℕ, ◌-◌, ◌%◌, ◌^◌, Bool, Option, none, some, List, [], ◌∷◌, ◌++◌, length, is_some, Outcome,
  returns, panics, ◌>>=◌,
}
use sysu_ysosv.Prelude.Map.{Map, lookup, insert, remove}

-- crossbeam_queue::ArrayQueue<u8>, as try_pop_key and push_key use it.
pub record KeyQueue : Type 1 where
  pub Keys : Type 0
  pub push : Keys → ℕ → Option Keys
  pub pop : Keys → Option (ℕ × Keys)

-- dyn FileIO: `read` gives Ok(size) or Err, the buffer after it, and the file after it.
pub record FileIo : Type 1 where
  pub File : Type 0
  pub read : File → List ℕ → Outcome (Option ℕ × List ℕ × File)

pub data StdIo : Type 0 where
  stdin stdout stderr : StdIo

pub data Resource (F : Type 0) : Type 0 where
  file : F → Resource F
  console : StdIo → Resource F
  null : Resource F

pub record Console (K : Type 0) : Type 0 where
  pub keys : K
  pub printed : List (StdIo × List ℕ)

abbrev pub Handles : Type 0 → Type 0
Handles F = Map (Resource F)

-- -1 as an isize
abbrev pub minus_one : ℕ
minus_one = 2 ^ 64 - 1

-- `count as isize`, or -1 where there is none
abbrev pub as_isize : Option ℕ → ℕ
as_isize none = minus_one
as_isize (some count) = count

module _ {F : Type 0} where
  -- ResourceSet::open
  unfoldable pub open_handle : Resource F → Handles F → ℕ × Handles F
  open_handle res handles = let fd : ℕ = length handles % 256 in (fd, insert fd res handles)

  -- ResourceSet::close
  unfoldable pub close_handle : ℕ → Handles F → Bool × Handles F
  close_handle fd handles = (is_some (lookup fd handles), remove fd handles)

  -- ResourceSet::default
  unfoldable pub default_handles : Handles F
  unfolding open_handle
  default_handles =
      let a = (open_handle (console stdin) []).1 in
      let b = (open_handle (console stdout) a).1 in (open_handle (console stderr) b).1

module _ (q : KeyQueue) (io : FileIo) where
  -- buf[0] = ch
  set_first : List ℕ → ℕ → Outcome (List ℕ)
  set_first [] ch = panics
  set_first (b ∷ bs) ch = returns (ch ∷ bs)

  read_stdin : Console q.Keys → List ℕ → Outcome (Option ℕ × List ℕ × Console q.Keys)
  unfolding set_first
  read_stdin c buf = elim (q.pop c.keys) [
    | none ↦ returns (some 0, buf, c)
    | some (ch, keys) ↦ do buf' ← set_first buf ch; returns (some 1, buf', record c { keys = keys })
  ]

  -- Resource::read
  unfoldable pub read_resource :
      Resource io.File
      → List ℕ
      → Console q.Keys
      → Outcome (Option ℕ × List ℕ × Resource io.File × Console q.Keys)
  unfolding read_stdin
  read_resource (file f) buf c = do
    (size, buf', f') ← io.read f buf
    returns (some (elim size [ none ↦ 0 | some n ↦ n ]), buf', file f', c)
  read_resource (console stdin) buf c = do
    (count, buf', c') ← read_stdin c buf
    returns (count, buf', console stdin, c')
  read_resource (console stdout) buf c = returns (none, buf, console stdout, c)
  read_resource (console stderr) buf c = returns (none, buf, console stderr, c)
  read_resource null buf c = returns (some 0, buf, null, c)

  -- Resource::write
  unfoldable pub write_resource :
      Resource io.File → List ℕ → Console q.Keys → Option ℕ × Console q.Keys
  write_resource (file f) buf c = (some 0, c)
  write_resource (console stdin) buf c = (none, c)
  write_resource (console stdout) buf c =
      (some (length buf), record c { printed = c.printed ++ (stdout, buf) ∷ [] })
  write_resource (console stderr) buf c =
      (some (length buf), record c { printed = c.printed ++ (stderr, buf) ∷ [] })
  write_resource null buf c = (some (length buf), c)

  -- ResourceSet::read
  unfoldable pub read_handle :
      ℕ
      → List ℕ
      → Handles io.File
      → Console q.Keys
      → Outcome (ℕ × List ℕ × Handles io.File × Console q.Keys)
  unfolding read_resource
  read_handle fd buf handles c = elim (lookup fd handles) [
    | none ↦ returns (minus_one, buf, handles, c)
    | some res ↦ do
      (count, buf', res', c') ← read_resource res buf c
      returns (as_isize count, buf', insert fd res' handles, c')
  ]

  -- ResourceSet::write
  unfoldable pub write_handle : ℕ → List ℕ → Handles io.File → Console q.Keys → ℕ × Console q.Keys
  unfolding write_resource
  write_handle fd buf handles c = elim (lookup fd handles) [
    | none ↦ (minus_one, c)
    | some res ↦ let (count, c') = write_resource res buf c in (as_isize count, c')
  ]
