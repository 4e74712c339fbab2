-- ===== src/Proc.antt =====
-- pkg/kernel/src/proc: processes, their scheduling, and the calls that they make of the kernel.
pub mod Context
pub mod AddressSpace
pub mod State
pub mod Manager
pub mod Calls
pub mod Spawn
pub mod Schedule
pub mod Faults
