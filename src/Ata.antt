-- ===== src/Ata.antt =====
-- pkg/kernel/src/drivers/ata: the bus of an ATA disk (bus.rs, consts.rs) and its drives (mod.rs). The
-- I/O ports are an interface: reading one gives a value and changes the device. `fuel` bounds the polls of a
-- loop that waits for the device, and `none` is a wait that is not over by then. `warn` says whether the logger
-- writes warnings, since what `debug` logs is read from the ports only then.
pub mod Protocol
pub mod Transfers
pub mod Sectors
use Prim.Native.Nat.{bit_or}
use sysu_ysosv.Prelude.{
  ℕ, zero, suc, ◌+◌, ◌-◌, ◌*◌, ◌/◌, ◌%◌, ◌^◌, ◌<◌, ◌≡◌, refl, Bool, true, false, ◌&&◌, not, Option,
  none, some, List, [], ◌∷◌, ◌++◌, arith, get_or, length, ◌==◌, if◌then◌else◌, Outcome, returns,
  panics, ◌>>=◌,
}
use sysu_ysosv.Prelude.Result.{Result, ok, err}
use sysu_ysosv.Storage.Device.{
  FsError, DeviceError, device_error, unknown_device, read_error, write_error,
}

pub record Ports : Type 1 where
  pub State : Type 0
  pub read : ℕ → State → ℕ × State
  pub write : ℕ → ℕ → State → State

-- AtaStatus
abbrev pub busy : ℕ
busy = 0x80

abbrev pub data_request_ready : ℕ
data_request_ready = 0x08

abbrev pub error : ℕ
error = 0x01

-- `contains` and `intersects`, for one bit of a status
unfoldable pub has : ℕ → ℕ → Bool
has status bit = status / bit % 2 == 1

-- AtaCommand, those that are used
pub data AtaCommand : Type 0 where
  read_pio_command write_pio_command identify_device : AtaCommand

-- `cmd as u8`
unfoldable pub code : AtaCommand → ℕ
code read_pio_command = 0x20
code write_pio_command = 0x30
code identify_device = 0xEC

-- AtaDeviceType
pub data AtaDeviceType : Type 0 where
  pata : List ℕ → AtaDeviceType
  pata_pi sata sata_pi no_device : AtaDeviceType

pub record AtaBus : Type 0 where
  pub id : ℕ
  pub irq : ℕ
  pub io_base : ℕ
  pub ctrl_base : ℕ

-- The registers of AtaBus::new, by their offset from io_base; the data register is 0.
unfoldable pub register : AtaBus → ℕ → ℕ
register bus offset = (bus.io_base + offset) % 2 ^ 16

abbrev pub sector_count : ℕ
sector_count = 2

abbrev pub lba_low : ℕ
lba_low = 3

abbrev pub lba_mid : ℕ
lba_mid = 4

abbrev pub lba_high : ℕ
lba_high = 5

abbrev pub drive_register : ℕ
drive_register = 6

abbrev pub status_register : ℕ
status_register = 7

-- `u32::to_le_bytes`
unfoldable pub byte_of : ℕ → ℕ → ℕ
byte_of i block = block / 256 ^ i % 256

-- `(bytes[3] & 0x0F) | (drive | 0xE0)`
unfoldable pub drive_byte : ℕ → ℕ → ℕ
drive_byte drive high = bit_or (high % 16) (bit_or drive 0xE0)

-- `u16::to_le_bytes`, for each word
unfoldable pub bytes_of : List ℕ → List ℕ
bytes_of [] = []
bytes_of (word ∷ words) = (word % 256) ∷ (word / 256) ∷ bytes_of words

-- `u16::from_le_bytes`, for each chunk of two bytes; a last chunk of one byte panics.
unfoldable pub words_of : List ℕ → Outcome (List ℕ)
words_of [] = returns []
words_of (a ∷ []) = panics
words_of (a ∷ b ∷ bytes) = do words ← words_of bytes; returns ((a + 256 * b) ∷ words)

module _ (p : Ports) (warn : Bool) (bus : AtaBus) where
  -- AtaBus::status
  unfoldable pub status : p.State → ℕ × p.State
  unfolding register
  status s =
      let (_, s1) = p.read bus.ctrl_base s in
      let (_, s2) = p.read bus.ctrl_base s1 in
      let (_, s3) = p.read bus.ctrl_base s2 in
      let (_, s4) = p.read bus.ctrl_base s3 in p.read (register bus status_register) s4

  -- AtaBus::debug
  debug : p.State → p.State
  unfolding status register
  debug s = elim warn [
    | false ↦ s
    | true ↦ let (_, s1) = p.read (register bus 1) s in let (_, s2) = status s1 in s2
  ]

  -- The loop of AtaBus::poll, after a status was read.
  wait_for : ℕ → ℕ → Bool → ℕ × p.State → Option p.State
  unfolding debug status has
  wait_for zero bit val now = none
  wait_for (suc fuel) bit val (st, s) =
      let over = if val then has st bit else not (has st bit) in
      elim over [
        | true ↦ some s
        | false ↦ wait_for fuel bit val (status (if has st error then debug s else s))
      ]

  -- AtaBus::poll
  unfoldable pub poll : ℕ → ℕ → Bool → p.State → Option p.State
  unfolding wait_for status
  poll fuel bit val s = wait_for fuel bit val (status s)

  -- The registers that write_command writes, in its order.
  unfoldable pub issue : ℕ → ℕ → AtaCommand → p.State → p.State
  unfolding register byte_of drive_byte code
  issue drive block cmd s =
      let s1 = p.write (register bus sector_count) 1 s in
      let s2 = p.write (register bus lba_low) (byte_of 0 block) s1 in
      let s3 = p.write (register bus lba_mid) (byte_of 1 block) s2 in
      let s4 = p.write (register bus lba_high) (byte_of 2 block) s3 in
      let s5 = p.write (register bus drive_register) (drive_byte drive (byte_of 3 block)) s4 in
      p.write (register bus status_register) (code cmd) s5

  -- AtaBus::write_command
  unfoldable pub write_command :
      ℕ → ℕ → ℕ → AtaCommand → p.State → Option (Result FsError Unit × p.State)
  unfolding issue status poll has debug
  write_command fuel drive block cmd s =
      let (st, s1) = status (issue drive block cmd s) in
      if st == 0
      then some (err (device_error unknown_device), s1)
      else elim (poll fuel busy false s1) [
        | none ↦ none
        | some s2 ↦
            let (st', s3) = status s2 in
            if has st' error
            then some (err (device_error DeviceError.invalid_operation), debug s3)
            else elim (poll fuel busy false s3) [
              | none ↦ none
              | some s4 ↦ elim (poll fuel data_request_ready true s4) [
                | none ↦ none
                | some s5 ↦ some (ok tt, s5)
              ]
            ]
      ]

  -- Words from the data register
  unfoldable pub read_data : ℕ → p.State → List ℕ × p.State
  unfolding register
  read_data zero s = ([], s)
  read_data (suc n) s =
      let (word, s1) = p.read (register bus 0) s in
      let (words, s2) = read_data n s1 in (word ∷ words, s2)

  unfoldable pub write_data : List ℕ → p.State → p.State
  unfolding register
  write_data [] s = s
  write_data (word ∷ words) s = write_data words (p.write (register bus 0) word s)

  -- AtaBus::read_pio, for a buffer of one sector
  unfoldable pub read_pio : ℕ → ℕ → ℕ → p.State → Option (Result FsError (List ℕ) × p.State)
  unfolding write_command status has debug bytes_of
  read_pio fuel drive block s = elim (write_command fuel drive block read_pio_command s) [
    | none ↦ none
    | some (err e, s1) ↦ some (err e, s1)
    | some (ok _, s1) ↦
        let (words, s2) = read_data 256 s1 in
        let (st, s3) = status s2 in
        if has st error
        then some (err (device_error read_error), debug s3)
        else some (ok (bytes_of words), s3)
  ]

  -- AtaBus::write_pio
  unfoldable pub write_pio :
      ℕ → ℕ → ℕ → List ℕ → p.State → Option (Outcome (Result FsError Unit × p.State))
  unfolding write_command write_data status has debug words_of
  write_pio fuel drive block buf s = elim (write_command fuel drive block write_pio_command s) [
    | none ↦ none
    | some (err e, s1) ↦ some (returns (err e, s1))
    | some (ok _, s1) ↦ elim (words_of buf) [
      | panics ↦ some panics
      | returns words ↦
          let (st, s2) = status (write_data words s1) in
          if has st error
          then some (returns (err (device_error write_error), debug s2))
          else some (returns (ok tt, s2))
    ]
  ]

  -- The match of identify_drive on the cylinder registers
  device_type : ℕ → ℕ → p.State → AtaDeviceType × p.State
  device_type low high s =
      if low == 0x00 && high == 0x00
      then (pata (read_data 256 s).0, (read_data 256 s).1)
      else if low == 0x14 && high == 0xEB
      then (pata_pi, s)
      else if low == 0x3C && high == 0xC3
      then (sata, s)
      else if low == 0x69 && high == 0x96
      then (sata_pi, s)
      else (no_device, s)

  -- AtaBus::identify_drive
  unfoldable pub identify_drive :
      ℕ → ℕ → p.State → Option (Outcome (Result FsError AtaDeviceType × p.State))
  unfolding write_command status poll has device_type register
  identify_drive fuel drive s = elim (write_command fuel drive 0 identify_device s) [
    | none ↦ none
    | some (err e, s1) ↦ some panics
    | some (ok _, s1) ↦
        let (st, s2) = status s1 in
        if st == 0 then some (returns (ok no_device, s2)) else elim (poll fuel busy false s2) [
          | none ↦ none
          | some s3 ↦
              let (st', s4) = status s3 in
              let (low, s5) = p.read (register bus lba_mid) s4 in
              let (high, s6) = p.read (register bus lba_high) s5 in
              let (found, s7) = device_type low high s6 in
              if has st' error
              then some (returns (err (device_error unknown_device), s4))
              else some (returns (ok found, s7))
        ]
  ]

-- AtaDrive; `model` and `serial`, which are only printed, are left out.
pub record AtaDrive : Type 0 where
  pub drive : ℕ
  pub blocks : ℕ

-- `u32::from_be_bytes(..).rotate_left(16)` in AtaDrive::open, of the words as big-endian bytes
unfoldable pub block_total : List ℕ → ℕ
block_total words =
    let x = get_or words 60 0 * 2 ^ 16 + get_or words 61 0 in x * 2 ^ 16 % 2 ^ 32 + x / 2 ^ 16

module _ (p : Ports) (warn : Bool) (bus : AtaBus) where
  -- AtaDrive::open
  unfoldable pub open_drive : ℕ → ℕ → p.State → Option (Outcome (Option AtaDrive × p.State))
  unfolding identify_drive block_total
  open_drive fuel drive s = elim (identify_drive p warn bus fuel drive s) [
    | none ↦ none
    | some panics ↦ some panics
    | some (returns (ok (pata words), s1)) ↦
        some (returns (some (record { drive = drive; blocks = block_total words }), s1))
    | some (returns (_, s1)) ↦ some (returns (none, s1))
  ]

  -- BlockDevice for AtaDrive: `offset as u32`
  unfoldable pub read_sector :
      ℕ → AtaDrive → ℕ → p.State → Option (Result FsError (List ℕ) × p.State)
  unfolding read_pio
  read_sector fuel d offset s = read_pio p warn bus fuel d.drive (offset % 2 ^ 32) s

  unfoldable pub write_sector :
      ℕ → AtaDrive → ℕ → List ℕ → p.State → Option (Outcome (Result FsError Unit × p.State))
  unfolding write_pio
  write_sector fuel d offset block s = write_pio p warn bus fuel d.drive (offset % 2 ^ 32) block s
