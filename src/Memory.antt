-- ===== src/Memory.antt =====
-- Physical frames, the interface of the x86_64 crate, and the mapping of page ranges.
pub mod Frames
pub mod X86
pub mod Mapping
pub mod User
