-- ===== src/Resource/Devices.antt =====
-- What reading and writing a descriptor gives back, and what it leaves alone.
use sysu_ysosv.Prelude.{
  ℕ, ◌≤◌, ◌≡◌, ◌≢◌, ◌⊎◌, inl, inr, refl, Option, none, some, List, [], ◌∷◌, arith, length, returns,
  >>=-eq-returns, Option-cases,
}
use sysu_ysosv.Prelude.Map.{lookup, lookup-insert}
use sysu_ysosv.Resource.{
  KeyQueue, FileIo, stdin, stdout, stderr, Resource, file, console, null, Console, Handles,
  minus_one, as_isize, read_resource, read_handle,
}

-- What Read::read promises: the buffer keeps its length, and the size fits it.
pub record IsBounded (io : FileIo) : Type 0 where
  pub fits :
      (f f' : io.File) (buf buf' : List ℕ) (size : ℕ)
      → io.read f buf ≡ returns (some size, buf', f')
      → size ≤ length buf
  pub keeps :
      (f f' : io.File) (buf buf' : List ℕ) (size : Option ℕ)
      → io.read f buf ≡ returns (size, buf', f')
      → length buf' ≡ length buf

-- The number of bytes that a read reports, if it reports one.
abbrev pub Fits : Option ℕ → List ℕ → Type 0
Fits none buf = Unit {0}
Fits (some n) buf = n ≤ length buf

Fits-isize :
    (count : Option ℕ) (buf : List ℕ)
    → Fits count buf
    → (as_isize count ≡ minus_one) ⊎ (as_isize count ≤ length buf)
Fits-isize none buf h = inl refl
Fits-isize (some n) buf h = inr h

module _ (q : KeyQueue) (io : FileIo) (b : IsBounded io) where
  stdin_bounds :
      (buf buf' : List ℕ) (c c' : Console q.Keys) (res : Resource io.File) (count : Option ℕ)
      → read_resource q io (console stdin) buf c ≡ returns (count, buf', res, c')
      → Fits count buf × (length buf' ≡ length buf) × (c'.printed ≡ c.printed)
  unfolding read_resource
  stdin_bounds [] buf' c c' res count e = ground arith
  stdin_bounds (x ∷ buf) buf' c c' res count e = ground arith

  file_bounds :
      (f f' : io.File) (buf buf' : List ℕ) (size : Option ℕ)
      → io.read f buf ≡ returns (size, buf', f')
      → Fits (some (elim size [ none ↦ 0 | some n ↦ n ])) buf × (length buf' ≡ length buf)
  file_bounds f f' buf buf' none e = (omega arith, b.keeps f f' buf buf' none e)
  file_bounds f f' buf buf' (some n) e =
      (b.fits f f' buf buf' n e, b.keeps f f' buf buf' (some n) e)

  resource_bounds :
      (res res' : Resource io.File) (buf buf' : List ℕ) (c c' : Console q.Keys) (count : Option ℕ)
      → read_resource q io res buf c ≡ returns (count, buf', res', c')
      → Fits count buf × (length buf' ≡ length buf) × (c'.printed ≡ c.printed)
  unfolding read_resource
  resource_bounds (file f) res' buf buf' c c' count e =
      let (r, e1, e2) = >>=-eq-returns (io.read f buf) _ e in
      grind (arith, file_bounds f r.2 buf r.1 r.0 e1)
  resource_bounds (console stdin) res' buf buf' c c' count e =
      stdin_bounds buf buf' c c' res' count e
  resource_bounds (console stdout) res' buf buf' c c' count e = ground arith
  resource_bounds (console stderr) res' buf buf' c c' count e = ground arith
  resource_bounds null res' buf buf' c c' count e = ground arith

  -- If files keep the promise of Read::read, then reading a descriptor reports -1 or a size that
  -- fits the buffer, keeps the buffer's length, prints nothing, and leaves every other descriptor
  -- as it was.
  pub read_handle_bounds :
      (fd n j : ℕ) (buf buf' : List ℕ) (handles handles' : Handles io.File) (c c' : Console q.Keys)
      → j ≢ fd
      → read_handle q io fd buf handles c ≡ returns (n, buf', handles', c')
      → ((n ≡ minus_one) ⊎ (n ≤ length buf))
        × (length buf' ≡ length buf)
        × (c'.printed ≡ c.printed)
        × (lookup j handles' ≡ lookup j handles)
  unfolding read_handle
  read_handle_bounds fd n j buf buf' handles handles' c c' ne e =
      elim (Option-cases (lookup fd handles)) [
        | inl no_fd ↦ ground arith
        | inr (res, found) ↦
            let (r, e1, e2) =
              >>=-eq-returns (read_resource q io res buf c) _ (rw (found, read_handle) at e) in
            let known = resource_bounds res r.2 buf r.1 c r.3 r.0 e1 in
            let sized = Fits-isize r.0 buf known.0 in
            (
              ground arith,
              ground arith,
              ground arith,
              ground (arith, lookup-insert j fd r.2 handles),
            )
      ]
