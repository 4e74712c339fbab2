-- ===== src/Ata/Protocol.antt =====
-- pkg/kernel/src/drivers/ata: what the driver does on a disk that keeps to the protocol of PIO transfers with 28-bit
-- addresses.
use sysu_ysosv.Prelude.{
  ℕ, zero, suc, ◌+◌, ◌*◌, ◌/◌, ◌%◌, ◌^◌, ◌<◌, ◌≤◌, ◌≡◌, ◌⊎◌, refl, ◌∙◌, List, [], ◌∷◌, ◌++◌, All,
  arith, length, ◌==◌, ==→eq, Bool-cases, inl, inr, subst, if◌then◌else◌,
}
use sysu_ysosv.Ata.{
  Ports, AtaBus, register, sector_count, lba_low, lba_mid, lba_high, drive_register,
  status_register, byte_of, drive_byte,
}

-- The sectors of a disk, each as its words.
abbrev pub Sectors : Type 0
Sectors = ℕ → List ℕ

unfoldable pub replace : ℕ → List ℕ → Sectors → Sectors
replace lba words disk i = if i == lba then words else disk i

-- The status is read at two ports.
abbrev pub IsStatusPort : AtaBus → ℕ → Type 0
IsStatusPort bus port = (port ≡ bus.ctrl_base) ⊎ (port ≡ register bus status_register)

-- Four registers that address a sector by 28 bits, and a command.
abbrev pub command : (p : Ports) → AtaBus → ℕ → ℕ → ℕ → ℕ → ℕ → p.State → p.State
command p bus b0 b1 b2 d cmd s = p.write (register bus status_register) cmd (
    p.write (register bus drive_register) d (
      p.write (register bus lba_high) b2 (
        p.write (register bus lba_mid) b1
          (p.write (register bus lba_low) b0 (p.write (register bus sector_count) 1 s)))))

abbrev pub lba28 : ℕ → ℕ → ℕ → ℕ → ℕ
lba28 b0 b1 b2 d = b0 + b1 * 2 ^ 8 + b2 * 2 ^ 16 + d % 16 * 2 ^ 24

-- For `n` more readings of the status it shows BUSY, and after them `P` holds.
abbrev pub Busy : (p : Ports) → AtaBus → ℕ → (p.State → Type 0) → p.State → Type 0
Busy p bus zero P s = P s
Busy p bus (suc n) P s =
    (port : ℕ)
    → IsStatusPort bus port
    → ((p.read port s).0 ≡ 0x80) × Busy p bus n P (p.read port s).1

-- The first disk of a bus, as the protocol of PIO transfers documents it: it is ready, or sends the
-- words of a sector, or takes those of the sector `lba`, of which it already has some. Its status is 0x50
-- in the first case, and 0x58 in the others, and reading it changes nothing of that. After a command and
-- after the last word of a sector that it took, it is busy for a time, at most `patience` readings of the status.
pub record IsDisk (p : Ports) (bus : AtaBus) : Type 1 where
  pub patience : ℕ
  pub Ready : Sectors → p.State → Type 0
  pub Sends : List ℕ → Sectors → p.State → Type 0
  pub Takes : ℕ → List ℕ → Sectors → p.State → Type 0
  pub ready_status :
      (disk : Sectors) (port : ℕ) (s : p.State)
      → IsStatusPort bus port
      → Ready disk s
      → ((p.read port s).0 ≡ 0x50) × Ready disk (p.read port s).1
  pub sends_status :
      (word : ℕ) (words : List ℕ) (disk : Sectors) (port : ℕ) (s : p.State)
      → IsStatusPort bus port
      → Sends (word ∷ words) disk s
      → ((p.read port s).0 ≡ 0x58) × Sends (word ∷ words) disk (p.read port s).1
  pub takes_status :
      (lba : ℕ) (words : List ℕ) (disk : Sectors) (port : ℕ) (s : p.State)
      → IsStatusPort bus port
      → length words < 256
      → Takes lba words disk s
      → ((p.read port s).0 ≡ 0x58) × Takes lba words disk (p.read port s).1
  pub read_command :
      (b0 b1 b2 d : ℕ) (disk : Sectors) (s : p.State)
      → d / 16 ≡ 0xE
      → Ready disk s
      → (n : ℕ) × (n ≤ patience)
        × Busy p bus n (Sends (disk (lba28 b0 b1 b2 d)) disk) (command p bus b0 b1 b2 d 0x20 s)
  pub sends_word :
      (word : ℕ) (words : List ℕ) (disk : Sectors) (s : p.State)
      → Sends (word ∷ words) disk s
      → ((p.read (register bus 0) s).0 ≡ word) × Sends words disk (p.read (register bus 0) s).1
  pub sent : (disk : Sectors) (s : p.State) → Sends [] disk s → Ready disk s
  pub write_command :
      (b0 b1 b2 d : ℕ) (disk : Sectors) (s : p.State)
      → d / 16 ≡ 0xE
      → Ready disk s
      → (n : ℕ) × (n ≤ patience)
        × Busy p bus n (Takes (lba28 b0 b1 b2 d) [] disk) (command p bus b0 b1 b2 d 0x30 s)
  pub takes_word :
      (lba word : ℕ) (words : List ℕ) (disk : Sectors) (s : p.State)
      → length words < 256
      → Takes lba words disk s
      → Takes lba (words ++ word ∷ []) disk (p.write (register bus 0) word s)
  pub taken :
      (lba : ℕ) (words : List ℕ) (disk : Sectors) (s : p.State)
      → length words ≡ 256
      → Takes lba words disk s
      → (n : ℕ) × (n ≤ patience) × Busy p bus n (Ready (replace lba words disk)) s

-- The numbers below `n`, and what holds of each of them.
upto : ℕ → List ℕ
upto zero = []
upto (suc n) = n ∷ upto n

at_each : (P : ℕ → Type 0) (n x : ℕ) → All P (upto n) → x < n → P x
unfolding upto
at_each P zero x h lt = absurd (omega (arith, lt))
at_each P (suc n) x h lt = elim (Bool-cases (n == x)) [
  | inl same ↦ subst P (==→eq n x same) h.0
  | inr other ↦ at_each P n x h.1 (ground (arith, other, lt))
]

drive_byte_table : All (λ x. drive_byte 0 x ≡ 0xE0 + x) (upto 16)
unfolding upto drive_byte
drive_byte_table = ground arith

low_bits : (x : ℕ) → drive_byte 0 x ≡ drive_byte 0 (x % 16)
unfolding drive_byte
low_bits x = let same : x % 16 % 16 ≡ x % 16 = omega arith in rw same refl

pub drive_byte-eq : (x : ℕ) → drive_byte 0 x ≡ 0xE0 + x % 16
drive_byte-eq x =
    low_bits x ∙ at_each (λ y. drive_byte 0 y ≡ 0xE0 + y) 16 (x % 16) drive_byte_table (omega arith)

-- The four registers hold the lowest 28 bits of the block number.
pub lba28-eq :
    (block : ℕ)
    → lba28 (byte_of 0 block) (byte_of 1 block) (byte_of 2 block) (drive_byte 0 (byte_of 3 block))
      ≡ block % 2 ^ 28
unfolding byte_of
lba28-eq block = rw (drive_byte-eq (block / 256 ^ 3 % 256)) (omega arith)
