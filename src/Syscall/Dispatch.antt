-- ===== src/Syscall/Dispatch.antt =====
-- dispatcher of pkg/kernel/src/interrupt/syscall/mod.rs, and the rest of service.rs. What is printed is left
-- out, so the services that list something do nothing.
pub mod Numbers
pub mod Keeping
pub mod Running
use sysu_ysosv.Prelude.{
  ℕ, zero, suc, ◌+◌, ◌-◌, ◌*◌, ◌%◌, ◌^◌, Bool, true, false, Option, none, some, List, [], ◌∷◌, ◌++◌,
  is_some, length, leb, ltb, ◌==◌, ◌&&◌, ◌||◌, if◌then◌else◌, Outcome, returns, panics, unwrap,
  ◌>>=◌,
}
use sysu_ysosv.Prelude.Map.{lookup}
use sysu_ysosv.Memory.X86.{X86}
use sysu_ysosv.Elf.{Ram}
use sysu_ysosv.Resource.{KeyQueue, FileIo}
use sysu_ysosv.Proc.Context.{Context, set_rax}
use sysu_ysosv.Proc.State.{Kernel}
use sysu_ysosv.Proc.Manager.{is_proc_alive}
use sysu_ysosv.Proc.Spawn.{Program, UserSelectors, elf_spawn}
use sysu_ysosv.Syscall

-- Syscall::from of the num_enum crate
unfoldable pub from_number : ℕ → Syscall.Syscall
from_number n =
    if n == 0
    then Syscall.sys_read
    else if n == 1
    then Syscall.sys_write
    else if n == 2
    then Syscall.sys_open
    else if n == 3
    then Syscall.sys_close
    else if n == 12
    then Syscall.sys_brk
    else if n == 39
    then Syscall.sys_get_pid
    else if n == 58
    then Syscall.sys_fork
    else if n == 59
    then Syscall.sys_spawn
    else if n == 60
    then Syscall.sys_exit
    else if n == 61
    then Syscall.sys_wait_pid
    else if n == 64
    then Syscall.sys_sem
    else if n == 65521
    then Syscall.sys_list_dir
    else if n == 65529
    then Syscall.sys_time
    else if n == 65530
    then Syscall.sys_print_info
    else if n == 65531
    then Syscall.sys_list_app
    else if n == 65532
    then Syscall.sys_stat
    else if n == 65533
    then Syscall.sys_allocate
    else if n == 65534
    then Syscall.sys_deallocate
    else Syscall.sys_unknown

-- What is not the repository's, or depends on the machine: the answer of the UEFI clock in hours, minutes and
-- seconds, the allocator of the linked_list_allocator crate for user memory, a Layout behind a
-- pointer (none for a null pointer) with its size, and the ELF file or open file that the root file system has at a path.
pub record Surroundings (F : Type 0) : Type 1 where
  pub Heap : Type 0
  pub Layout : Type 0
  pub size : Layout → ℕ
  pub layout_at : ℕ → Ram → Option Layout
  pub allocate_first_fit : Layout → Heap → Option ℕ × Heap
  pub deallocate : ℕ → Layout → Heap → Heap
  pub time : ℕ × ℕ × ℕ
  pub program_at : List ℕ → Option Program
  pub file_at : List ℕ → Option F

-- The `n` bytes at an address, and memory with bytes written to an address
unfoldable pub bytes_at : ℕ → ℕ → Ram → List ℕ
bytes_at addr zero memory = []
bytes_at addr (suc n) memory = memory addr ∷ bytes_at (suc addr) n memory

unfoldable pub write_at : ℕ → List ℕ → Ram → Ram
write_at addr [] memory = memory
write_at addr (b ∷ bs) memory = write_at (suc addr) bs (λ a. if a == addr then b else memory a)

module _ (x : X86) (q : KeyQueue) (io : FileIo) (w : Surroundings io.File) (physical_offset : ℕ)
    (selectors : UserSelectors) where
  -- What a system call works on: `user` is the memory of the process that calls.
  pub record Caller : Type 0 where
    pub kernel : Kernel x.Table io.File q.Keys
    pub ram : Ram
    pub user : Ram
    pub heap : w.Heap

  abbrev pub Called : Type 0
  Called = Outcome (Context × Caller)

  -- The call answers in rax.
  abbrev pub answers : Context → Caller → Outcome (ℕ × Kernel x.Table io.File q.Keys) → Called
  answers c s r = do (value, k) ← r; returns (set_rax value c, record s { kernel = k })

  -- The call ends with the context of some process.
  abbrev pub resumes : Caller → Outcome (Context × Kernel x.Table io.File q.Keys) → Called
  resumes s r = do (c, k) ← r; returns (c, record s { kernel = k })

  -- sys_spawn_process, and spawn of pkg/kernel/src/proc/mod.rs: no file, or no ELF file, panics.
  unfoldable pub spawn_service : Syscall.SyscallArgs → Context → Caller → Called
  unfolding elf_spawn bytes_at
  spawn_service args c s = do
    program ← unwrap (w.program_at (bytes_at args.arg0 args.arg1 s.user))
    (pid, k, ram) ← elf_spawn x physical_offset selectors program s.kernel s.ram
    returns (set_rax pid c, record s { kernel = k; ram = ram })

  -- sys_read
  unfoldable pub read_call : Syscall.SyscallArgs → Context → Caller → Called
  unfolding Syscall.read_service bytes_at write_at
  read_call args c s = do
    (value, buf, k) ← Syscall.read_service q io args (bytes_at args.arg1 args.arg2 s.user) s.kernel
    returns (set_rax value c, record s { kernel = k; user = write_at args.arg1 buf s.user })

  -- sys_allocate
  unfoldable pub allocate_service : Syscall.SyscallArgs → Context → Caller → Called
  allocate_service args c s = do
    layout ← unwrap (w.layout_at args.arg0 s.user)
    let (got, heap) = w.allocate_first_fit layout s.heap
    elim (w.size layout == 0) [
      | true ↦ returns (set_rax 0 c, s)
      | false ↦ elim got [
        | some ptr ↦ returns (set_rax ptr c, record s { heap = heap })
        | none ↦ returns (set_rax 0 c, record s { heap = heap })
      ]
    ]

  -- sys_deallocate
  unfoldable pub deallocate_service : Syscall.SyscallArgs → Context → Caller → Called
  deallocate_service args c s = do
    layout ← unwrap (w.layout_at args.arg1 s.user)
    returns (
      c,
      if args.arg0 == 0 || w.size layout == 0
          then s
          else record s { heap = w.deallocate args.arg0 layout s.heap },
    )

  -- sys_print_info; what still_alive and print_process_info answer
  unfoldable pub print_info_service : Syscall.SyscallArgs → Kernel x.Table io.File q.Keys → ℕ
  unfolding is_proc_alive
  print_info_service args k =
      let pid = args.arg0 % 2 ^ 16 in
      if is_proc_alive pid k && is_some (lookup pid k.processes) then 0 else 2 ^ 64 - 1

  -- sys_time
  unfoldable pub time_service : ℕ
  time_service = w.time.0 * 3600 + w.time.1 * 60 + w.time.2

  -- The branches of dispatcher
  unfoldable pub serve : Syscall.Syscall → Syscall.SyscallArgs → Context → Caller → Called
  unfolding read_call spawn_service allocate_service deallocate_service print_info_service
      time_service Syscall.write_service Syscall.get_pid_service Syscall.brk_service
      Syscall.exit_service Syscall.wait_pid_service Syscall.open_service Syscall.close_service
      Syscall.fork_service Syscall.sem_service
  serve Syscall.sys_read args c s = read_call args c s
  serve Syscall.sys_write args c s =
      answers c s (Syscall.write_service q io args (bytes_at args.arg1 args.arg2 s.user) s.kernel)
  serve Syscall.sys_get_pid args c s =
      answers c s (do pid ← Syscall.get_pid_service s.kernel; returns (pid, s.kernel))
  serve Syscall.sys_brk args c s = answers c s (Syscall.brk_service x args s.kernel)
  serve Syscall.sys_spawn args c s = spawn_service args c s
  serve Syscall.sys_exit args c s = resumes s (Syscall.exit_service x args s.kernel)
  serve Syscall.sys_wait_pid args c s = resumes s (Syscall.wait_pid_service args c s.kernel)
  serve Syscall.sys_open args c s =
      answers c s
        (Syscall.open_service q io (w.file_at (bytes_at args.arg0 args.arg1 s.user)) s.kernel)
  serve Syscall.sys_close args c s = answers c s (Syscall.close_service q io args s.kernel)
  serve Syscall.sys_stat args c s = returns (c, s)
  serve Syscall.sys_list_app args c s = returns (c, s)
  serve Syscall.sys_list_dir args c s = returns (c, s)
  serve Syscall.sys_allocate args c s = allocate_service args c s
  serve Syscall.sys_deallocate args c s = deallocate_service args c s
  serve Syscall.sys_print_info args c s = returns (set_rax (print_info_service args s.kernel) c, s)
  serve Syscall.sys_time args c s = returns (set_rax time_service c, s)
  serve Syscall.sys_fork args c s = resumes s (Syscall.fork_service x c s.kernel)
  serve Syscall.sys_sem args c s = resumes s (Syscall.sem_service args c s.kernel)
  serve Syscall.sys_unknown args c s = returns (c, s)

  -- dispatcher
  unfoldable pub dispatcher : Context → Caller → Called
  unfolding from_number serve
  dispatcher c s =
      serve (from_number c.regs.rax)
        (record { arg0 = c.regs.rdi; arg1 = c.regs.rsi; arg2 = c.regs.rdx }) c s
