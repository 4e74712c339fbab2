-- ===== src/Storage/Files.antt =====
-- pkg/storage/src/fs/fat16/file.rs and pkg/storage/src/common/io.rs: reading a file. Numbers are usize, with the
-- subtraction of a release build; `buf` of `read` is its length, and what is written to it is the list of bytes
-- that is answered. `fuel` bounds the rounds of a loop, and `none` is a loop that is not over by then.
pub mod Runs
pub mod Sectors
pub mod Reading
use sysu_ysosv.Prelude.{
  ℕ, zero, suc, ◌+◌, ◌-◌, ◌*◌, ◌/◌, ◌%◌, ◌^◌, ◌<◌, ◌≤◌, ◌≡◌, refl, min, Bool, true, false, ◌&&◌,
  ◌||◌, Option, none, some, List, [], ◌∷◌, ◌++◌, arith, length, take, drop, replicate, ltb, leb,
  ◌==◌, if◌then◌else◌, Outcome, returns, panics, ◌>>=◌,
}
use sysu_ysosv.Prelude.Result.{Result, ok, err}
use sysu_ysosv.Storage.Device.{BlockDevice, FsError, file_not_found}
use sysu_ysosv.Storage.Mbr.{u16_at}
use sysu_ysosv.Storage.Fat.{Fat16, sectors_per_cluster, cluster_to_first_sector, get_next_cluster}
use sysu_ysosv.Storage.Entries.{Externals}
use sysu_ysosv.Storage.Walk.{slice}
use sysu_ysosv.Storage.Paths.{File, file_length}

-- Fat16Bpb::bytes_per_sector
unfoldable pub bytes_per_sector : List ℕ → ℕ
bytes_per_sector bpb = u16_at 0x0B bpb

-- Subtraction of two usize
unfoldable pub wrapping_sub : ℕ → ℕ → ℕ
wrapping_sub a b = (a + 2 ^ 64 - b) % 2 ^ 64

-- What `read` answers, the part of the buffer that is filled, and the file afterwards.
pub record Transfer (x : Externals) : Type 0 where
  pub result : Result FsError ℕ
  pub bytes : List ℕ
  pub file : File x

module _ (x : Externals) (d : BlockDevice) (as_ref : d.Block → List ℕ) (fat : Fat16)
    (s : d.State) where
  -- The next sector: the one after it, or the first of the next cluster.
  unfoldable pub next_sector : ℕ → ℕ → Outcome (Result FsError (ℕ × ℕ))
  next_sector sector_offset cluster = elim (suc sector_offset == sectors_per_cluster fat.bpb) [
    | false ↦ returns (ok (suc sector_offset, cluster))
    | true ↦ elim (get_next_cluster d as_ref fat cluster s) [
      | panics ↦ panics
      | returns (err e) ↦ returns (err e)
      | returns (ok next) ↦ returns (ok (0, next))
    ]
  ]

  -- `bytes_to_read`
  unfoldable pub bytes_to_read : File x → ℕ → ℕ → ℕ → ℕ
  unfolding wrapping_sub bytes_per_sector file_length
  bytes_to_read file len read byte_offset =
      min (min (len - read) (wrapping_sub (bytes_per_sector fat.bpb) byte_offset))
        (wrapping_sub (file_length x file) file.offset)

  -- The loop of File::read, for a buffer of `len` bytes of which `read` are filled.
  unfoldable pub read_loop : ℕ → File x → ℕ → List ℕ → ℕ → ℕ → Option (Outcome (Transfer x))
  unfolding next_sector bytes_to_read slice file_length
  read_loop zero file len read sector_offset byte_offset = none
  read_loop (suc fuel) file len read sector_offset byte_offset =
      elim (d.read_block (cluster_to_first_sector fat file.current_cluster + sector_offset) s) [
        | err e ↦ some (returns (record { result = err e; bytes = read; file = file }))
        | ok block ↦
            let n = bytes_to_read file len (length read) byte_offset in
            elim (slice byte_offset n (as_ref block)) [
              | panics ↦ some panics
              | returns part ↦
                  let read' = read ++ part in
                  let file' = record file { offset = file.offset + n } in
                  elim (length read' == len || file'.offset == file_length x file) [
                    | true ↦ some (
                        returns
                          (record { result = ok (length read'); bytes = read'; file = file' }))
                    | false ↦ elim (next_sector sector_offset file.current_cluster) [
                      | panics ↦ some panics
                      | returns (err e) ↦
                          some (returns (record { result = err e; bytes = read'; file = file' }))
                      | returns (ok (sector, cluster)) ↦
                          read_loop fuel (record file' { current_cluster = cluster }) len read'
                            sector 0
                    ]
                  ]
            ]
      ]

  -- File::read; a volume with 0 bytes in a sector panics in the division.
  unfoldable pub read_file : ℕ → File x → ℕ → Option (Outcome (Transfer x))
  unfolding read_loop bytes_per_sector
  read_file fuel file len =
      let bps = bytes_per_sector fat.bpb in
      elim (bps == 0) [
        | true ↦ some panics
        | false ↦ read_loop fuel file len [] (file.offset / bps) (file.offset % bps)
      ]

  -- Read::read_all, for File: each round appends all 1024 bytes of its own buffer.
  unfoldable pub read_rounds :
      ℕ → ℕ → File x → ℕ → List ℕ → Option (Outcome (Result FsError (ℕ × List ℕ)))
  unfolding read_file
  read_rounds fuel zero file read_bytes buf = none
  read_rounds fuel (suc rounds) file read_bytes buf = elim (read_file fuel file 1024) [
    | none ↦ none
    | some panics ↦ some panics
    | some (returns t) ↦ elim t.result [
      | err e ↦ some (returns (err file_not_found))
      | ok len ↦
          let buf' = buf ++ (t.bytes ++ replicate (1024 - length t.bytes) 0) in
          elim (len == 0) [
            | true ↦ some (returns (ok (read_bytes, buf')))
            | false ↦ read_rounds fuel rounds t.file (read_bytes + len) buf'
          ]
    ]
  ]

  unfoldable pub read_all : ℕ → ℕ → File x → List ℕ → Option (Outcome (Result FsError (ℕ × List ℕ)))
  unfolding read_rounds
  read_all fuel rounds file buf = read_rounds fuel rounds file 0 buf
