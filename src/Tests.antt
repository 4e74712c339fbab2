-- ===== src/Tests.antt =====
-- Runs of the model at concrete inputs, and the theorems at inputs that meet their hypotheses.
mod Machine
mod StackTests
mod StorageTests
mod FatTests
mod ForkTests
mod ElfTests
mod SpawnTests
mod AtaTests
mod ProcTests
mod SyncTests
mod ResourceTests
mod MemoryTests
mod HeapTests
mod UserTests
mod BootTests
