-- ===== src/Vm.antt =====
-- The virtual memory of a process: its heap and its stack.
pub mod Heap
pub mod Stack
