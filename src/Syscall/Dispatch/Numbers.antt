-- ===== src/Syscall/Dispatch/Numbers.antt =====
-- The numbers of the system calls.
use sysu_ysosv.Prelude.{ℕ, ◌≡◌, refl, ◌⊎◌, arith}
use sysu_ysosv.Syscall
use sysu_ysosv.Syscall.Dispatch.{from_number}

-- The number of each call is read as that call.
pub from_number-number : (c : Syscall.Syscall) → from_number (Syscall.number c) ≡ c
unfolding from_number Syscall.number
from_number-number Syscall.sys_read = refl
from_number-number Syscall.sys_write = refl
from_number-number Syscall.sys_open = refl
from_number-number Syscall.sys_close = refl
from_number-number Syscall.sys_brk = refl
from_number-number Syscall.sys_get_pid = refl
from_number-number Syscall.sys_fork = refl
from_number-number Syscall.sys_spawn = refl
from_number-number Syscall.sys_exit = refl
from_number-number Syscall.sys_wait_pid = refl
from_number-number Syscall.sys_sem = refl
from_number-number Syscall.sys_list_dir = refl
from_number-number Syscall.sys_time = refl
from_number-number Syscall.sys_print_info = refl
from_number-number Syscall.sys_list_app = refl
from_number-number Syscall.sys_stat = refl
from_number-number Syscall.sys_allocate = refl
from_number-number Syscall.sys_deallocate = refl
from_number-number Syscall.sys_unknown = refl

-- Each number is that of the call it stands for, or stands for no call.
number-from_number :
    (n : ℕ) → (from_number n ≡ Syscall.sys_unknown) ⊎ (Syscall.number (from_number n) ≡ n)
unfolding from_number Syscall.number
number-from_number n = ground arith
