-- ===== src/Storage/Partition.antt =====
-- pkg/storage/src/partition/mod.rs: a partition is a window of a block device, and a block device
-- itself. `offset + self.offset` is a usize and wraps in a release build.
use sysu_ysosv.Prelude.{
  ℕ, ◌+◌, ◌%◌, ◌^◌, ◌≤◌, ◌<◌, ◌≡◌, ◌⊎◌, inl, inr, arith, leb, if◌then◌else◌, Bool-cases,
}
use sysu_ysosv.Prelude.Result.{Result, ok, err}
use sysu_ysosv.Storage.Device.{BlockDevice, IsStorage, FsError, invalid_offset}

pub record Partition : Type 0 where
  pub offset : ℕ
  pub size : ℕ

module _ (d : BlockDevice) where
  -- Partition::read_block
  unfoldable pub read_block : Partition → ℕ → d.State → Result FsError d.Block
  read_block p i s =
      if leb p.size i then err invalid_offset else d.read_block ((i + p.offset) % 2 ^ 64) s

  -- Partition::write_block
  unfoldable pub write_block : Partition → ℕ → d.Block → d.State → Result FsError d.State
  write_block p i b s =
      if leb p.size i then err invalid_offset else d.write_block ((i + p.offset) % 2 ^ 64) b s

  -- The partition as a block device; its block_count is that of the whole device.
  unfoldable pub window : Partition → BlockDevice
  unfolding read_block write_block
  window p = record {
    State = d.State;
    Block = d.Block;
    block_count = d.block_count;
    read_block = read_block p;
    write_block = write_block p;
  }

  module _ (lawful : IsStorage d) (p : Partition) (fits : p.offset + p.size ≤ 2 ^ 64) where
    inside :
        (i : ℕ) (b : d.Block) (s s' : d.State)
        → write_block p i b s ≡ ok s'
        → (i < p.size) × (d.write_block ((i + p.offset) % 2 ^ 64) b s ≡ ok s')
    unfolding write_block
    inside i b s s' e = elim (Bool-cases (leb p.size i)) [
      | inl out ↦ absurd (ground (arith, out, e))
      | inr within ↦ (ground arith, ground (arith, within, e))
    ]

    -- A partition that fits into the address range of a lawful device is a lawful device: a block
    -- that was written through it is read back through it, and its other blocks are as before.
    pub window-IsStorage : IsStorage (window p)
    unfolding window read_block
    window-IsStorage = record {
      written = λ i j b s s' e.
          let (lt, w) = inside i b s s' e in
          ground (
            arith,
            lt,
            lawful.written ((i + p.offset) % 2 ^ 64) ((j + p.offset) % 2 ^ 64) b s s' w,
          );
    }

    -- A write through a partition leaves every block of a disjoint partition as it was.
    write_block_apart :
        (q : Partition) (i j : ℕ) (b : d.Block) (s s' : d.State)
        → q.offset + q.size ≤ 2 ^ 64
        → (p.offset + p.size ≤ q.offset) ⊎ (q.offset + q.size ≤ p.offset)
        → write_block p i b s ≡ ok s'
        → read_block q j s' ≡ read_block q j s
    unfolding read_block
    write_block_apart q i j b s s' fits_q apart e =
        let (lt, w) = inside i b s s' e in
        ground (
          arith,
          lt,
          apart,
          lawful.written ((i + p.offset) % 2 ^ 64) ((j + q.offset) % 2 ^ 64) b s s' w,
        )
