-- ===== src/Storage/Device.antt =====
-- pkg/storage/src/common/device.rs and error.rs: a block device, as an interface. `State` is what is on
-- the device. A read fills a block or fails.
use sysu_ysosv.Prelude.{ℕ, ◌≡◌, List, ◌==◌, if◌then◌else◌}
use sysu_ysosv.Prelude.Result.{Result, ok}

pub data DeviceError : Type 0 where
  busy unknown_device unknown invalid_operation read_error write_error : DeviceError
  with_status : ℕ → DeviceError

pub data FilenameError : Type 0 where
  invalid_character filename_empty name_too_long misplaced_period utf8_error unable_to_parse :
      FilenameError

pub data FsError : Type 0 where
  file_not_found not_in_sector end_of_file write_zero not_a_directory not_a_file : FsError
  read_only invalid_operation not_supported bad_cluster invalid_offset : FsError
  file_name_error : FilenameError → FsError
  device_error : DeviceError → FsError
  invalid_path : List ℕ → FsError

pub record BlockDevice : Type 1 where
  pub State : Type 0
  pub Block : Type 0
  pub block_count : State → Result FsError ℕ
  pub read_block : ℕ → State → Result FsError Block
  pub write_block : ℕ → Block → State → Result FsError State

-- A block that was written is read back, and the others are as before.
pub record IsStorage (d : BlockDevice) : Type 0 where
  pub written :
      (i j : ℕ) (b : d.Block) (s s' : d.State)
      → d.write_block i b s ≡ ok s'
      → d.read_block j s' ≡ (if j == i then ok b else d.read_block j s)
