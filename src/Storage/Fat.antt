-- ===== src/Storage/Fat.antt =====
-- pkg/storage/src/fs/fat16: the layout of a FAT16 volume (bpb.rs, mod.rs and impls.rs). Clusters are u32.
-- The first block of the volume is a list of 512 bytes.
use sysu_ysosv.Prelude.{
  ℕ, ◌+◌, ◌-◌, ◌*◌, ◌/◌, ◌%◌, ◌^◌, ◌<◌, ◌≤◌, ◌≡◌, sym, true, false, List, arith, length, ltb, leb,
  ◌==◌, ◌&&◌, ◌||◌, if◌then◌else◌, Outcome, returns, panics, ◌>>=◌,
}
use native.Mathlib.Nat.{add-mul}
use sysu_ysosv.Prelude.Result.{Result, ok, err}
use sysu_ysosv.Storage.Device.{BlockDevice, FsError, bad_cluster}
use sysu_ysosv.Storage.Mbr.{u8_at, u16_at, u32_at, Bytes, get_or_byte}

abbrev pub block_size : ℕ
block_size = 512

-- The constants of Cluster in direntry.rs.
abbrev pub invalid_cluster : ℕ
invalid_cluster = 0xFFFF_FFF6

abbrev pub bad : ℕ
bad = 0xFFFF_FFF7

abbrev pub empty_cluster : ℕ
empty_cluster = 0

abbrev pub root_dir : ℕ
root_dir = 0xFFFF_FFFC

abbrev pub end_of_chain : ℕ
end_of_chain = 0xFFFF_FFFF

-- Fields of Fat16Bpb.
unfoldable pub sectors_per_cluster : List ℕ → ℕ
sectors_per_cluster bpb = u8_at 0x0D bpb

unfoldable pub reserved_sector_count : List ℕ → ℕ
reserved_sector_count bpb = u16_at 0x0E bpb

unfoldable pub fat_count : List ℕ → ℕ
fat_count bpb = u8_at 0x10 bpb

unfoldable pub root_entries_count : List ℕ → ℕ
root_entries_count bpb = u16_at 0x11 bpb

unfoldable pub sectors_per_fat : List ℕ → ℕ
sectors_per_fat bpb = u16_at 0x16 bpb

-- Fat16Bpb::total_sectors
unfoldable pub total_sectors : List ℕ → ℕ
total_sectors bpb = if u16_at 0x13 bpb == 0 then u32_at 0x20 bpb else u16_at 0x13 bpb

-- Fat16Bpb::new, unwrapped as Fat16Impl::new does.
unfoldable pub new_bpb : List ℕ → Outcome (List ℕ)
new_bpb block =
    if length block == 512 && u16_at 0x1FE block == 0xAA55 then returns block else panics

-- Fat16Impl
pub record Fat16 : Type 0 where
  pub bpb : List ℕ
  pub fat_start : ℕ
  pub first_data_sector : ℕ
  pub first_root_dir_sector : ℕ

-- Fat16Impl::cluster_to_first_sector, in u32 arithmetic
unfoldable pub cluster_to_first_sector : Fat16 → ℕ → ℕ
unfolding sectors_per_cluster
cluster_to_first_sector fat c =
    if c == root_dir
    then fat.first_root_dir_sector
    else ((c + 2 ^ 32 - 2) % 2 ^ 32 * sectors_per_cluster fat.bpb + fat.first_data_sector) % 2 ^ 32

-- The cluster `k` places after a data cluster begins `k` times the length of a cluster later, as long
-- as its first sector is a 32-bit number: so clusters do not overlap.
clusters_apart :
    (fat : Fat16) (c k : ℕ)
    → 2 ≤ c
    → c + k < root_dir
    → (c + k - 2) * sectors_per_cluster fat.bpb + fat.first_data_sector < 2 ^ 32
    → cluster_to_first_sector fat (c + k)
      ≡ cluster_to_first_sector fat c + k * sectors_per_cluster fat.bpb
unfolding cluster_to_first_sector
clusters_apart fat c k lo hi fits =
    let n = sectors_per_cluster fat.bpb in
    let a = c - 2 in
    let split : (a + k) * n ≡ a * n + k * n = add-mul a k n in
    let there : (c + k + 2 ^ 32 - 2) % 2 ^ 32 ≡ a + k = omega (arith, lo, hi) in
    let here : (c + 2 ^ 32 - 2) % 2 ^ 32 ≡ a = omega (arith, lo, hi) in
    let same : c + k - 2 ≡ a + k = omega (arith, lo) in
    let no_root : (c + k == root_dir) ≡ false = ground arith in
    let not_root : (c == root_dir) ≡ false = ground arith in
    let small : (a + k) * n + fat.first_data_sector < 2 ^ 32 = rw (sym same) fits in
    rw (no_root, not_root, there, here) (omega (arith, split, small))

module _ (d : BlockDevice) (as_ref : d.Block → List ℕ) where
  -- Fat16Impl::new
  unfoldable pub new_fat : d.State → Outcome Fat16
  unfolding new_bpb reserved_sector_count root_entries_count fat_count sectors_per_fat
  new_fat s = elim (d.read_block 0 s) [
    | err e ↦ panics
    | ok block ↦ do
      bpb ← new_bpb (as_ref block)
      let fat_start = reserved_sector_count bpb
      let root_dir_sector_num = root_entries_count bpb * 32 / block_size
      let first_root_dir_sector = fat_start + fat_count bpb * sectors_per_fat bpb
      returns (record {
        bpb = bpb;
        fat_start = fat_start;
        first_data_sector = first_root_dir_sector + root_dir_sector_num;
        first_root_dir_sector = first_root_dir_sector;
      })
  ]

  -- The match of get_next_cluster on what the table holds.
  next_of : ℕ → Result FsError ℕ
  next_of c =
      if c == empty_cluster
      then ok empty_cluster
      else if c == bad
      then err bad_cluster
      else if leb 2 c && ltb c 0xFFF6
      then ok c
      else if leb 0xFFFF_FFF8 c
      then ok end_of_chain
      else ok invalid_cluster

  -- Fat16Impl::get_next_cluster; a slice out of range panics
  unfoldable pub get_next_cluster : Fat16 → ℕ → d.State → Outcome (Result FsError ℕ)
  unfolding next_of
  get_next_cluster fat cluster s =
      if cluster == root_dir
      then returns (ok end_of_chain)
      else elim (d.read_block fat.fat_start s) [
        | err e ↦ panics
        | ok block ↦
            let tem = cluster * 2 % 2 ^ 32 in
            if leb (tem + 2) (length (as_ref block))
            then returns (next_of (u16_at tem (as_ref block)))
            else panics
      ]

  u16_bound : (i : ℕ) (bytes : List ℕ) → Bytes bytes → u16_at i bytes < 2 ^ 16
  u16_bound i bytes h = omega (arith, get_or_byte i bytes h, get_or_byte (i + 1) bytes h)

  -- For a cluster whose entry is in the first block of the table, the next cluster is the entry if
  -- that is 0 or the number of a data cluster; everything else, the marks of a bad cluster and of the
  -- end of a file among it, is answered as an invalid cluster.
  get_next_cluster_lem :
      (fat : Fat16) (c : ℕ) (s : d.State) (block : d.Block)
      → d.read_block fat.fat_start s ≡ ok block
      → length (as_ref block) ≡ 512
      → Bytes (as_ref block)
      → c < 256
      → let next = u16_at (c * 2) (as_ref block) in
        get_next_cluster fat c s
        ≡ returns
            (ok (if next == 0 || leb 2 next && ltb next 0xFFF6 then next else invalid_cluster))
  unfolding get_next_cluster next_of
  get_next_cluster_lem fat c s block e size h lt =
      let fits : leb (c * 2 + 2) (length (as_ref block)) ≡ true = ground arith in
      ground (arith, e, fits, u16_bound (c * 2) (as_ref block) h)
