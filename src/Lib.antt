-- ===== src/Lib.antt =====
-- Verification of YSOS, a small x86-64 operating system in Rust: the kernel's processes, their memory
-- and what they share.
--
-- Parts, with the files of the repository that they model:
--   Sync       pkg/kernel/src/proc/sync.rs: semaphores. `wait` and `signal` are Semaphore::wait and
--              Semaphore::signal, `wait_sem`, `signal_sem`, `insert_sem` and `remove_sem` the
--              operations of SemaphoreSet. Sync/Trace: any sequence of calls. Sync/Sets: the set.
--   Resource   pkg/kernel/src/utils/resource.rs: descriptors and devices. Resource/Table: opening and
--              closing. Resource/Devices: what a read answers.
--   Memory     Memory/Frames: pkg/kernel/src/memory/frames.rs. Memory/Mapping: the mapping functions of
--              pkg/elf/src/lib.rs. Memory/X86: the x86_64 crate, as an interface with laws.
--              Memory/User: the heap of user programs, pkg/kernel/src/memory/user.rs.
--   Elf        the rest of pkg/elf/src/lib.rs: what is read of the xmas_elf crate. Elf/Load: the kernel's
--              way of loading a file, with the bytes of memory as a function. Elf/Boot: the boot loader's.
--   Vm         Vm/Heap: pkg/kernel/src/proc/vm/heap.rs. Vm/Stack: pkg/kernel/src/proc/vm/stack.rs.
--   Proc       Proc/Context: context.rs. Proc/AddressSpace: vm/mod.rs and paging.rs. Proc/State:
--              process.rs, data.rs, pid.rs and processor.rs. Proc/Manager: manager.rs and the
--              operations of process.rs that it calls. Proc/Calls: mod.rs, all in
--              pkg/kernel/src/proc. Proc/Spawn: the start of programs. Proc/Schedule: the queues and the status of processes, and
--              below it one file for each call, Fairness for many timer interrupts, and Reach for
--              calls in any order. Proc/Faults: page faults.
--   Syscall    pkg/syscall/src/lib.rs and pkg/kernel/src/interrupt/syscall/service.rs: the numbers of the
--              system calls and the services, each `sys_x` of the source as `x_service`.
--              Syscall/Dispatch: the dispatcher of interrupt/syscall/mod.rs and the services that need
--              the memory of the caller, and below it Running: system calls, timer interrupts and the work
--              of programs in any order. Syscall/Panics: arguments that panic the kernel.
--   User       User/Calls: pkg/syscall/src/macros.rs and pkg/lib/src/syscall.rs, what a program
--              sees of a call. User/SpinLock: the lock of pkg/lib/src/sync.rs and pkg/app/spin, with
--              the accesses to memory of all threads in any order.
--   Boot       pkg/boot/src/config.rs: the configuration of the boot loader.
--   Storage    pkg/storage/src: Storage/Device is the interface of common/device.rs, Storage/Partition
--              is partition/mod.rs, Storage/Mbr is partition/mbr. Of fs/fat16, Storage/Fat is bpb.rs, mod.rs
--              and the first part of impls.rs, Storage/Names and Storage/Entries are direntry.rs
--              with common/metadata.rs, Storage/Walk is the walk over a directory in impls.rs,
--              Storage/Paths the path functions of impls.rs and its FileSystem, Storage/Files is
--              file.rs with read_all of common/io.rs. Storage/Mount: common/mount.rs.
--   Ata        pkg/kernel/src/drivers/ata: the bus and the drives, over ports as an interface.
--              Ata/Protocol: a disk that answers as the standard says.
--   Text       strings as lists of code points, with what the source uses of them.
--              Text/Parsing: lines and numbers.
--   Tests      runs at concrete inputs, and a machine for which the laws of Memory/X86 hold.
--
-- How they interact: an interrupt handler calls a function of Proc/Calls with the context of what it
-- interrupted: the timer `switch`, a system call the dispatcher, which reads the number and the
-- arguments from the registers that a wrapper of User/Calls has set. The call works on one record `Kernel`, with interrupts off, so it is one step; it
-- ends with the context of the process that runs next. Proc/Calls uses Sync and Resource for
-- what a family of processes shares, and Proc/AddressSpace, which uses Vm and Memory, for memory.
--
-- Conventions: an integer of the source is a natural number, with its wrap-around written out where
-- a release build wraps; an isize is its 64-bit pattern. A panic is `panics`, an Err or None is a
-- value. Shared objects (Arc) are named by a number and kept once. Locks are not modelled: the
-- kernel runs on one processor, with interrupts off while they are held.
--
-- Fuel: `fetch_ready` gets one pop for each process of the queue, and without a ready process among them
-- the loop of the source has no end. `find_room` gets one round for each slot below the first
-- try, after which the source panics on an address below 0.
-- The walk over a directory gets a bound on its clusters, and the root needs one. A read
-- gets a bound on the sectors that it reads, more than the bytes that are asked for, and `read_all`
-- on its rounds. The driver of Ata polls without a bound in the source; it gets one, and it is
-- enough that it exceeds the readings of the status for which the disk stays BUSY (`patience` of IsDisk).
--
-- Not modelled: the content of pages outside of the loading of files, so not the copying of a stack by fork;
-- logging and printing, the drivers other than ATA and the model and serial number of a drive, the exception
-- handlers, the mounting of the first partition, the calls of UEFI in the boot loader, line input, `sleep` and
-- the other user programs. The memory of a process that makes a system call is a function beside the kernel's
-- state. The x86_64, xmas_elf, crossbeam and linked_list_allocator crates, segment selectors, the clock of
-- UEFI, ports, open files, the tables for upper case and the checks of dates (chrono) are parameters.
mod Prelude
pub mod Sync
pub mod Resource
pub mod Memory
pub mod Vm
pub mod Proc
pub mod Storage
pub mod Text
pub mod Ata
pub mod Elf
pub mod User
pub mod Boot
pub mod Syscall
pub mod Tests
