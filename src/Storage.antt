-- ===== src/Storage.antt =====
-- pkg/storage/src: block devices, partitions and the partition table.
pub mod Device
pub mod Partition
pub mod Mbr
pub mod Fat
pub mod Names
pub mod Entries
pub mod Walk
pub mod Paths
pub mod Mount
pub mod Files
