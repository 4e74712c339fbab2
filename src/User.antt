-- ===== src/User.antt =====
-- What runs in user mode: pkg/lib and the programs of pkg/app that show how it is used.
pub mod SpinLock
pub mod Calls
