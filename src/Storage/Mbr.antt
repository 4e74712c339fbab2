-- ===== src/Storage/Mbr.antt =====
-- pkg/storage/src/partition/mbr: the partition table in the first block of a disk. Arrays are lists of
-- bytes, of the length that the source gives them; `define_field` of
-- pkg/storage/src/common/macros.rs reads little-endian numbers out of them.
use sysu_ysosv.Prelude.{
  ℕ, zero, suc, ◌+◌, ◌-◌, ◌*◌, ◌%◌, ◌^◌, ◌<◌, ◌≤◌, ◌≡◌, refl, Bool, List, [], ◌∷◌, map, arith,
  length, length-take, length-drop, get_or, take, drop, ◌==◌, if◌then◌else◌, All, Bool-cases, inl,
  inr, Outcome, returns, panics, ◌>>=◌,
}
use sysu_ysosv.Prelude.Result.{Result, ok, err}
use sysu_ysosv.Storage.Device.{BlockDevice, FsError}
use sysu_ysosv.Storage.Partition.{Partition}

-- define_field!(u8, ..)
abbrev pub u8_at : ℕ → List ℕ → ℕ
u8_at offset bytes = get_or bytes offset 0

-- define_field!(u16, ..)
abbrev pub u16_at : ℕ → List ℕ → ℕ
u16_at offset bytes = u8_at offset bytes + 256 * u8_at (offset + 1) bytes

-- define_field!(u32, ..)
abbrev pub u32_at : ℕ → List ℕ → ℕ
u32_at offset bytes = u16_at offset bytes + 2 ^ 16 * u16_at (offset + 2) bytes

-- MbrPartition::is_active
unfoldable pub is_active : List ℕ → Bool
is_active bytes = u8_at 0 bytes == 0x80

-- MbrPartition::begin_lba and total_lba
unfoldable pub begin_lba : List ℕ → ℕ
begin_lba bytes = u32_at 0x08 bytes

unfoldable pub total_lba : List ℕ → ℕ
total_lba bytes = u32_at 0x0C bytes

-- MbrPartition::begin_sector and end_sector: `x & 0b0011_1111`
unfoldable pub begin_sector : List ℕ → ℕ
begin_sector bytes = u8_at 2 bytes % 64

unfoldable pub end_sector : List ℕ → ℕ
end_sector bytes = u8_at 6 bytes % 64

-- `((hi & 0b1100_0000) as u16) << 2 | lo as u16`, where the two have no bit in common
cylinder : ℕ → ℕ → ℕ
cylinder hi lo = (hi - hi % 64) * 4 + lo

-- MbrPartition::begin_cylinder and end_cylinder
unfoldable pub begin_cylinder : List ℕ → ℕ
unfolding cylinder
begin_cylinder bytes = cylinder (u8_at 2 bytes) (u8_at 3 bytes)

unfoldable pub end_cylinder : List ℕ → ℕ
unfolding cylinder
end_cylinder bytes = cylinder (u8_at 6 bytes) (u8_at 7 bytes)

-- The slice of MbrTable::parse for entry `i`; a block shorter than the slice panics.
unfoldable pub entry_at : ℕ → List ℕ → Outcome (List ℕ)
entry_at i buffer =
    let bytes = take 16 (drop (0x1BE + i * 16) buffer) in
    if length bytes == 16 then returns bytes else panics

-- MbrTable::parse. `as_ref` gives the bytes of a block.
unfoldable pub parse :
    (d : BlockDevice) → (d.Block → List ℕ) → d.State → Outcome (Result FsError (List (List ℕ)))
unfolding entry_at
parse d as_ref s = elim (d.read_block 0 s) [
  | err e ↦ returns (err e)
  | ok block ↦ do
    let buffer = as_ref block
    a ← entry_at 0 buffer
    b ← entry_at 1 buffer
    c ← entry_at 2 buffer
    e ← entry_at 3 buffer
    returns (ok (a ∷ b ∷ c ∷ e ∷ []))
]

-- MbrTable::partitions
unfoldable pub partitions : List (List ℕ) → List Partition
unfolding is_active begin_lba total_lba
partitions [] = []
partitions (bytes ∷ rest) =
    let parts = partitions rest in
    if is_active bytes
    then record { offset = begin_lba bytes; size = total_lba bytes } ∷ parts
    else parts

-- A list of bytes.
abbrev pub Bytes : List ℕ → Type 0
Bytes = All (λ b. b < 256)

pub get_or_byte : (i : ℕ) (bytes : List ℕ) → Bytes bytes → get_or bytes i 0 < 256
get_or_byte i [] h = omega arith
get_or_byte zero (b ∷ bytes) h = h.0
get_or_byte (suc i) (b ∷ bytes) h = get_or_byte i bytes h.1

-- The fields of a table entry are in the ranges of the BIOS: cylinders below 1024, sectors
-- below 64, and block numbers below 2 ^ 32.
pub entry_bounds :
    (bytes : List ℕ)
    → Bytes bytes
    → (begin_cylinder bytes < 1024)
      × (end_cylinder bytes < 1024)
      × (begin_sector bytes < 64)
      × (end_sector bytes < 64)
      × (begin_lba bytes < 2 ^ 32)
      × (total_lba bytes < 2 ^ 32)
unfolding begin_cylinder end_cylinder begin_sector end_sector begin_lba total_lba
entry_bounds bytes h =
    let at : (i : ℕ) → get_or bytes i 0 < 256 = λ i. get_or_byte i bytes h in
    (
      omega (arith, at 2, at 3),
      omega (arith, at 6, at 7),
      omega arith,
      omega arith,
      omega (arith, at 8, at 9, at 10, at 11),
      omega (arith, at 12, at 13, at 14, at 15),
    )

-- Every partition of a table of bytes begins and ends within 64-bit block numbers.
pub partitions_fit :
    (entries : List (List ℕ))
    → All Bytes entries
    → All (λ p. p.offset + p.size ≤ 2 ^ 64) (partitions entries)
unfolding partitions
partitions_fit [] h = tt
partitions_fit (bytes ∷ rest) h =
    let (_, _, _, _, lo, hi) = entry_bounds bytes h.0 in
    elim (Bool-cases (is_active bytes)) [
      | inl on ↦ rw on (omega (arith, lo, hi), partitions_fit rest h.1)
      | inr off ↦ rw off (partitions_fit rest h.1)
    ]

-- The bytes of an entry of the table.
abbrev pub slot : ℕ → List ℕ → List ℕ
slot i buffer = take 16 (drop (0x1BE + i * 16) buffer)

entry_at-eq :
    (i : ℕ) (buffer : List ℕ)
    → i < 4
    → length buffer ≡ 512
    → entry_at i buffer ≡ returns (slot i buffer)
unfolding entry_at
entry_at-eq i buffer lt e = ground (
  arith,
  lt,
  e,
  length-take 16 (drop (0x1BE + i * 16) buffer),
  length-drop (0x1BE + i * 16) buffer,
)

-- A first block of 512 bytes that can be read always gives a table: its entries are the four
-- runs of 16 bytes from byte 446 on, and each is 16 bytes long.
pub parse_lem :
    (d : BlockDevice) (as_ref : d.Block → List ℕ) (s : d.State) (block : d.Block)
    → d.read_block 0 s ≡ ok block
    → length (as_ref block) ≡ 512
    → (parse d as_ref s ≡ returns (ok (map (λ i. slot i (as_ref block)) (0 ∷ 1 ∷ 2 ∷ 3 ∷ []))))
      × All (λ entry. length entry ≡ 16) (map (λ i. slot i (as_ref block)) (0 ∷ 1 ∷ 2 ∷ 3 ∷ []))
unfolding parse
parse_lem d as_ref s block e size =
    let buffer = as_ref block in
    let sized : (i : ℕ) → i < 4 → length (slot i buffer) ≡ 16 = λ i lt. omega (
      arith,
      lt,
      size,
      length-take 16 (drop (0x1BE + i * 16) buffer),
      length-drop (0x1BE + i * 16) buffer,
    ) in
    (
      rw
          (
            parse,
            e,
            entry_at-eq 0 buffer (omega arith) size,
            entry_at-eq 1 buffer (omega arith) size,
            entry_at-eq 2 buffer (omega arith) size,
            entry_at-eq 3 buffer (omega arith) size,
          )
          refl,
      (
        sized 0 (omega arith),
        (sized 1 (omega arith), (sized 2 (omega arith), (sized 3 (omega arith), tt))),
      ),
    )
