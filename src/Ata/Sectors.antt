-- ===== src/Ata/Sectors.antt =====
-- pkg/kernel/src/drivers/ata: a sector that was written is read back, and the others are as before.
use sysu_ysosv.Prelude.{
  ℕ, zero, suc, ◌+◌, ◌*◌, ◌/◌, ◌%◌, ◌^◌, ◌<◌, ◌≡◌, refl, ap, ◌∙◌, Bool, some, List, [], ◌∷◌, arith,
  length, get_or, ◌==◌, if◌then◌else◌, Bool-cases, inl, inr, returns, panics, sym, subst, ◌≤◌,
}
use sysu_ysosv.Prelude.Result.{ok}
use sysu_ysosv.Storage.Mbr.{Bytes}
use sysu_ysosv.Ata.{
  Ports, AtaBus, AtaDrive, bytes_of, words_of, read_sector, write_sector, block_total,
}
use sysu_ysosv.Ata.Protocol.{Sectors, Busy, IsDisk, replace}
use sysu_ysosv.Ata.Transfers.{read_pio-Ready, write_pio-Ready}

-- A buffer of an even number of bytes is sent as words, which are these bytes.
words_of-Bytes :
    (n : ℕ) (buf : List ℕ)
    → Bytes buf
    → length buf ≡ n * 2
    → (words : List ℕ) × (words_of buf ≡ returns words)
      × (length words ≡ n)
      × (bytes_of words ≡ buf)
unfolding words_of bytes_of
words_of-Bytes zero [] h e = ([], refl, refl, refl)
words_of-Bytes (suc n) [] h e = absurd (omega (arith, e))
words_of-Bytes n (b ∷ []) h e = absurd (omega (arith, e))
words_of-Bytes zero (b ∷ c ∷ buf) h e = absurd (omega (arith, e))
words_of-Bytes (suc n) (b ∷ c ∷ buf) h e =
    let (words, halves, size, same) = words_of-Bytes n buf h.1.1 (omega (arith, e)) in
    let low : (b + 256 * c) % 256 ≡ b = omega (arith, h.0) in
    let high : (b + 256 * c) / 256 ≡ c = omega (arith, h.0) in
    ((b + 256 * c) ∷ words, rw halves refl, ap suc size, rw (low, high, same) refl)

-- The words of a buffer
unfoldable pub sector_of : List ℕ → List ℕ
unfolding words_of
sector_of buf = elim (words_of buf) [ panics ↦ [] | returns words ↦ words ]

sector_of-words : (buf words : List ℕ) → words_of buf ≡ returns words → sector_of buf ≡ words
unfolding sector_of
sector_of-words buf words e = rw (sector_of, e) refl

module _ (p : Ports) (warn : Bool) (bus : AtaBus) (a : IsDisk p bus) (disk : Sectors) where
  replace_sized :
      (lba : ℕ) (words : List ℕ)
      → length words ≡ 256
      → ((i : ℕ) → length (disk i) ≡ 256)
      → (i : ℕ) → length (replace lba words disk i) ≡ 256
  unfolding replace
  replace_sized lba words size sized i = elim (Bool-cases (i == lba)) [
    | inl e ↦ rw e size
    | inr e ↦ rw e (sized i)
  ]

  bytes_of-replace :
      (i lba : ℕ) (words buf : List ℕ)
      → bytes_of words ≡ buf
      → bytes_of (replace lba words disk i) ≡ (if i == lba then buf else bytes_of (disk i))
  unfolding replace
  bytes_of-replace i lba words buf e = elim (Bool-cases (i == lba)) [
    | inl on ↦ rw on e
    | inr off ↦ rw off refl
  ]

  -- On a disk that keeps to the protocol of PIO transfers with 28-bit addresses, which may be busy for
  -- `patience` readings of its status after a command and after the last word of a sector: from a
  -- state in which it is ready, and if a poll of the driver may read the status more often than that,
  -- writing a block of 512 bytes through the first drive ends without an error, and once the disk is
  -- ready after at most `patience` more readings of the status, it holds the written block and else
  -- what it held. From every state in which it is ready and holds this, reading a block ends, and
  -- gives the bytes that were written if the two block numbers have the same lowest 28 bits, and else
  -- the bytes that the disk had.
  pub read_sector-write_sector :
      (fuel fuel' block block' total : ℕ) (buf : List ℕ) (s s2 : p.State)
      → ((i : ℕ) → length (disk i) ≡ 256)
      → Bytes buf
      → length buf ≡ 512
      → a.patience ≤ fuel
      → a.patience ≤ fuel'
      → a.Ready disk s
      → a.Ready (replace (block % 2 ^ 32 % 2 ^ 28) (sector_of buf) disk) s2
      → let d : AtaDrive = record { drive = 0; blocks = total } in
        let i = block % 2 ^ 32 % 2 ^ 28 in
        let j = block' % 2 ^ 32 % 2 ^ 28 in
        ((s1 : p.State) × (n : ℕ) × (write_sector p warn bus (suc fuel) d block buf s
            ≡ some (returns (ok tt, s1)))
          × (n ≤ a.patience)
          × Busy p bus n (a.Ready (replace i (sector_of buf) disk)) s1)
        × (s3 : p.State) × (read_sector p warn bus (suc fuel') d block' s2
            ≡ some (ok (if j == i then buf else bytes_of (disk j)), s3))
  unfolding read_sector write_sector
  read_sector-write_sector fuel fuel' block block' total buf s s2 sized bytes full enough enough'
        ready ready2 =
      let i = block % 2 ^ 32 % 2 ^ 28 in
      let j = block' % 2 ^ 32 % 2 ^ 28 in
      let (words, halves, size, same) = words_of-Bytes 256 buf bytes full in
      let here = sector_of-words buf words halves in
      let (s1, n, written, short, k1) =
        write_pio-Ready p warn bus a disk fuel (block % 2 ^ 32) buf words s halves size ready
          enough in
      let (s3, read, k2) =
        read_pio-Ready p warn bus a (replace i words disk) fuel' (block' % 2 ^ 32) s2
          (replace_sized i words size sized)
          (subst (λ ws. a.Ready (replace i ws disk) s2) here ready2) enough' in
      (
        (
          s1,
          n,
          written,
          short,
          subst (λ ws. Busy p bus n (a.Ready (replace i ws disk)) s1) (sym here) k1,
        ),
        s3,
        read ∙ ap (λ bs. some (ok bs, s3)) (bytes_of-replace j i words buf same),
      )

-- The number of blocks of a drive is the 32-bit number that its identification holds in the words 60 (low)
-- and 61 (high).
block_total-eq :
    (words : List ℕ)
    → get_or words 60 0 < 2 ^ 16
    → get_or words 61 0 < 2 ^ 16
    → block_total words ≡ get_or words 60 0 + get_or words 61 0 * 2 ^ 16
unfolding block_total
block_total-eq words low high = omega (arith, low, high)
