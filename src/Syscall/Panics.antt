-- ===== src/Syscall/Panics.antt =====
-- System calls whose arguments make the kernel panic.
use sysu_ysosv.Prelude.{◌%◌, ◌^◌, ◌≡◌, refl, none, ==_ne, ◌≢◌, panics}
use sysu_ysosv.Prelude.Map.{lookup}
use sysu_ysosv.Memory.X86.{X86}
use sysu_ysosv.Proc.Context.{Context}
use sysu_ysosv.Proc.State.{Kernel}
use sysu_ysosv.Proc.Manager.{is_proc_alive, get_exit_code}
use sysu_ysosv.Proc.Calls.{wait_pid}
use sysu_ysosv.Syscall.{SyscallArgs, wait_pid_service, brk_service}

-- To wait for a process that is not in the map of processes panics, whoever asks.
wait_pid_unknown :
    {T F K : Type 0} (args : SyscallArgs) (c : Context) (k : Kernel T F K)
    → lookup (args.arg0 % 2 ^ 16) k.processes ≡ none
    → wait_pid_service args c k ≡ panics
unfolding wait_pid_service wait_pid is_proc_alive get_exit_code
wait_pid_unknown args c k gone = rw (wait_pid, is_proc_alive, gone) (rw gone refl)

-- To ask for an end of the heap that is no canonical address panics.
pub brk_not_canonical :
    (x : X86) {F K : Type 0} (args : SyscallArgs) (k : Kernel x.Table F K)
    → args.arg0 ≢ 0
    → x.virt_addr args.arg0 ≡ panics
    → brk_service x args k ≡ panics
unfolding brk_service
brk_not_canonical x args k pos bad = rw (==_ne args.arg0 0 pos, bad) refl
