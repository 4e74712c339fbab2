-- ===== src/Syscall.antt =====
-- pkg/syscall/src/lib.rs and pkg/kernel/src/interrupt/syscall/service.rs: the numbers of the system calls,
-- and the services on processes, semaphores, the heap and descriptors. Arguments are 64-bit
-- numbers; `as u8`, `as u16` and `as u32` keep their low bits. What a pointer and a length
-- name, the memory of the caller, is handed in.
pub mod Panics
pub mod Dispatch
use sysu_ysosv.Prelude.{
  ℕ, ◌-◌, ◌%◌, ◌^◌, ◌≡◌, ◌≢◌, refl, Bool, true, false, Option, none, some, List, arith, ◌==◌,
  if◌then◌else◌, not, Outcome, returns, panics, ◌>>=◌,
}
use sysu_ysosv.Memory.X86.{X86}
use sysu_ysosv.Resource.{KeyQueue, FileIo}
use sysu_ysosv.Proc.Context.{Context, set_rax}
use sysu_ysosv.Proc.State.{Kernel}
use sysu_ysosv.Proc.Manager.{get_pid}
use sysu_ysosv.Proc.Calls.{
  exit, wait_pid, sem_wait, sem_signal, new_sem, drop_sem, brk, fork, read, write, open_file,
  close_file,
}

-- Syscall
pub data Syscall : Type 0 where
  sys_read sys_write sys_open sys_close sys_brk sys_get_pid sys_fork sys_spawn sys_exit : Syscall
  sys_wait_pid sys_sem sys_list_dir sys_time sys_print_info sys_list_app sys_stat : Syscall
  sys_allocate sys_deallocate sys_unknown : Syscall

-- The discriminants of Syscall.
unfoldable pub number : Syscall → ℕ
number sys_read = 0
number sys_write = 1
number sys_open = 2
number sys_close = 3
number sys_brk = 12
number sys_get_pid = 39
number sys_fork = 58
number sys_spawn = 59
number sys_exit = 60
number sys_wait_pid = 61
number sys_sem = 64
number sys_list_dir = 65521
number sys_time = 65529
number sys_print_info = 65530
number sys_list_app = 65531
number sys_stat = 65532
number sys_allocate = 65533
number sys_deallocate = 65534
number sys_unknown = 65535

-- SyscallArgs
pub record SyscallArgs : Type 0 where
  pub arg0 : ℕ
  pub arg1 : ℕ
  pub arg2 : ℕ

module _ {T F K : Type 0} where
  -- sys_wait_pid
  unfoldable pub wait_pid_service :
      SyscallArgs → Context → Kernel T F K → Outcome (Context × Kernel T F K)
  unfolding wait_pid
  wait_pid_service args context k = wait_pid (args.arg0 % 2 ^ 16) context k

  -- sys_sem
  unfoldable pub sem_service :
      SyscallArgs → Context → Kernel T F K → Outcome (Context × Kernel T F K)
  unfolding new_sem drop_sem sem_signal sem_wait
  sem_service args context k =
      let key = args.arg1 % 2 ^ 32 in
      if args.arg0 == 0
      then (do (r, k') ← new_sem key args.arg2 k; returns (set_rax r context, k'))
      else if args.arg0 == 1
      then (do (r, k') ← drop_sem key k; returns (set_rax r context, k'))
      else if args.arg0 == 2
      then sem_signal key context k
      else if args.arg0 == 3
      then sem_wait key context k
      else returns (set_rax (2 ^ 64 - 1) context, k)

  -- sys_get_pid
  unfoldable pub get_pid_service : Kernel T F K → Outcome ℕ
  unfolding get_pid
  get_pid_service k = get_pid k

module _ (x : X86) {F K : Type 0} where
  -- sys_exit_process
  unfoldable pub exit_service :
      SyscallArgs → Kernel x.Table F K → Outcome (Context × Kernel x.Table F K)
  unfolding exit
  exit_service args k = exit x args.arg0 k

  -- sys_fork
  unfoldable pub fork_service :
      Context → Kernel x.Table F K → Outcome (Context × Kernel x.Table F K)
  unfolding fork
  fork_service context k = fork x context k

  -- sys_brk: VirtAddr::new panics on an address that is not canonical
  unfoldable pub brk_service : SyscallArgs → Kernel x.Table F K → Outcome (ℕ × Kernel x.Table F K)
  unfolding brk
  brk_service args k =
      if args.arg0 == 0
      then brk x none k
      else (do addr ← x.virt_addr args.arg0; brk x (some addr) k)

module _ {T : Type 0} (q : KeyQueue) (io : FileIo) where
  -- sys_read, with the buffer of the caller
  unfoldable pub read_service :
      SyscallArgs
      → List ℕ
      → Kernel T io.File q.Keys
      → Outcome (ℕ × List ℕ × Kernel T io.File q.Keys)
  unfolding read
  read_service args buf k = read q io (args.arg0 % 2 ^ 8) buf k

  -- sys_write
  unfoldable pub write_service :
      SyscallArgs → List ℕ → Kernel T io.File q.Keys → Outcome (ℕ × Kernel T io.File q.Keys)
  unfolding write
  write_service args buf k = write q io (args.arg0 % 2 ^ 8) buf k

  -- sys_open_file, with what the file system has at the path
  unfoldable pub open_service :
      Option io.File → Kernel T io.File q.Keys → Outcome (ℕ × Kernel T io.File q.Keys)
  unfolding open_file
  open_service found k = open_file q io found k

  -- sys_close_file; the answer is handed on as a usize
  unfoldable pub close_service :
      SyscallArgs → Kernel T io.File q.Keys → Outcome (ℕ × Kernel T io.File q.Keys)
  unfolding close_file
  close_service args k = do
    (closed, k') ← close_file q io (args.arg0 % 2 ^ 8) k
    returns (if closed then 1 else 0, k')
