-- ===== src/Tests/StorageTests.antt =====
-- Partitions: runs, and the theorems at concrete inputs.
use sysu_ysosv.Prelude.{
  zero, suc, ℕ, ◌≡◌, refl, List, [], ◌∷◌, arith, replicate, ◌==◌, if◌then◌else◌, returns,
}
use sysu_ysosv.Prelude.Result.{ok}
use sysu_ysosv.Storage.Device.{BlockDevice, IsStorage}
use sysu_ysosv.Storage.Partition.{Partition, window, window-IsStorage}
use sysu_ysosv.Storage.Fat.{Fat16, get_next_cluster}
use sysu_ysosv.Storage.Mbr.{partitions, end_cylinder, end_sector, Bytes}

-- A disk whose blocks are lists of bytes.
abbrev disk : BlockDevice
disk = record {
  State = ℕ → List ℕ;
  Block = List ℕ;
  block_count = λ s. ok 100;
  read_block = λ i s. ok (s i);
  write_block = λ i b s. ok (λ j. if j == i then b else s j);
}

disk-IsStorage : IsStorage disk
disk-IsStorage = record { written = λ i j b s s' e. ground arith }

abbrev first : Partition
first = record { offset = 10; size = 5 }

abbrev second : Partition
second = record { offset = 15; size = 5 }

window-IsStorage_example : IsStorage (window disk first)
window-IsStorage_example = window-IsStorage disk disk-IsStorage first (omega arith)

abbrev empty : disk.State
empty j = []

abbrev filled : disk.State
filled j = if j == 11 then 7 ∷ [] else []

-- The entry of the source's own test.
abbrev entry : List ℕ
entry =
    0x80 ∷ 0x01 ∷ 0x01 ∷ 0x00 ∷ 0x0b ∷ 0xfe ∷ 0xbf ∷ 0xfc ∷ 0x3f ∷ 0x00 ∷ 0x00 ∷ 0x00 ∷ 0x7e ∷ 0x86
    ∷ 0xbb ∷ 0x00 ∷ []

entry-fields :
    (end_cylinder entry ≡ 764)
    × (end_sector entry ≡ 63)
    × (partitions (entry ∷ []) ≡ record { offset = 63; size = 12289662 } ∷ [])
unfolding end_cylinder end_sector partitions
entry-fields = (refl, refl, refl)

entry-Bytes : Bytes entry
entry-Bytes = ground arith

abbrev boot_block : List ℕ
boot_block = replicate 512 0

abbrev zeros : disk.State
zeros j = boot_block

-- A volume whose first entries of the table are 0, the end mark, and cluster 5.
abbrev table : List ℕ
table = 0 ∷ 0 ∷ 0xFF ∷ 0xFF ∷ 5 ∷ 0 ∷ replicate 506 0

abbrev fat : Fat16
fat = record { bpb = boot_block; fat_start = 1; first_data_sector = 40; first_root_dir_sector = 8 }

next_of_5 : get_next_cluster disk (λ b. b) fat 2 (λ j. table) ≡ returns (ok 5)
unfolding get_next_cluster
next_of_5 = refl

zeros-Bytes : (n : ℕ) → Bytes (replicate n 0)
zeros-Bytes zero = tt
zeros-Bytes (suc n) = (omega arith, zeros-Bytes n)

table-Bytes : Bytes table
table-Bytes = (
  omega arith,
  (omega arith, (omega arith, (omega arith, (omega arith, (omega arith, zeros-Bytes 506))))),
)
