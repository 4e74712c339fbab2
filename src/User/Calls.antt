-- ===== src/User/Calls.antt =====
-- pkg/syscall/src/macros.rs and pkg/lib/src/syscall.rs: what a program sees of a system call. `trap` is what
-- `int 0x80` does with the registers and everything else; a str or a slice is its address and length. `sleep` is
-- left out.
pub mod Answers
use sysu_ysosv.Prelude.{
  ℕ, ◌%◌, ◌^◌, ◌-◌, Bool, Option, none, some, leb, ◌==◌, if◌then◌else◌, Outcome, returns, panics,
  ◌>>=◌,
}
use sysu_ysosv.Proc.Context.{Context}
use sysu_ysosv.Syscall

-- `as isize`, with None for a negative number
abbrev pub unless_negative : ℕ → Option ℕ
unless_negative ret = if leb (2 ^ 63) ret then none else some ret

module _ {S : Type 0} (trap : Context → S → Outcome (Context × S)) where
  -- A result with the registers and the rest of the machine
  abbrev pub Ran : Type 0 → Type 0
  Ran A = Outcome (A × Context × S)

  unfoldable pub int_0x80 : Context → S → Ran ℕ
  int_0x80 c s = do (c', s') ← trap c s; returns (c'.regs.rax, c', s')

  -- syscall0 to syscall3
  unfoldable pub syscall0 : Syscall.Syscall → Context → S → Ran ℕ
  unfolding int_0x80 Syscall.number
  syscall0 n c s = int_0x80 (record c { regs = record c.regs { rax = Syscall.number n } }) s

  unfoldable pub syscall1 : Syscall.Syscall → ℕ → Context → S → Ran ℕ
  unfolding int_0x80 Syscall.number
  syscall1 n arg0 c s =
      int_0x80 (record c { regs = record c.regs { rax = Syscall.number n; rdi = arg0 } }) s

  unfoldable pub syscall2 : Syscall.Syscall → ℕ → ℕ → Context → S → Ran ℕ
  unfolding int_0x80 Syscall.number
  syscall2 n arg0 arg1 c s =
      int_0x80
        (record c { regs = record c.regs { rax = Syscall.number n; rdi = arg0; rsi = arg1 } }) s

  unfoldable pub syscall3 : Syscall.Syscall → ℕ → ℕ → ℕ → Context → S → Ran ℕ
  unfolding int_0x80 Syscall.number
  syscall3 n arg0 arg1 arg2 c s =
      int_0x80
        (record c {
          regs = record c.regs { rax = Syscall.number n; rdi = arg0; rsi = arg1; rdx = arg2 };
        })
        s

  -- What a program makes of rax.
  abbrev pub reading : {A : Type 0} → (ℕ → A) → Ran ℕ → Ran A
  reading read r = do (ret, c, s) ← r; returns (read ret, c, s)

  unfoldable pub sys_write : ℕ → ℕ → ℕ → Context → S → Ran (Option ℕ)
  unfolding syscall3
  sys_write fd buf len c s = reading unless_negative (syscall3 Syscall.sys_write fd buf len c s)

  unfoldable pub sys_read : ℕ → ℕ → ℕ → Context → S → Ran (Option ℕ)
  unfolding syscall3
  sys_read fd buf len c s = reading unless_negative (syscall3 Syscall.sys_read fd buf len c s)

  unfoldable pub sys_wait_pid : ℕ → Context → S → Ran ℕ
  unfolding syscall1
  sys_wait_pid pid c s = syscall1 Syscall.sys_wait_pid pid c s

  unfoldable pub sys_list_app : Context → S → Ran (Unit {0})
  unfolding syscall0
  sys_list_app c s = reading (λ ret. tt) (syscall0 Syscall.sys_list_app c s)

  unfoldable pub sys_list_dir : ℕ → ℕ → Context → S → Ran (Unit {0})
  unfolding syscall2
  sys_list_dir path len c s = reading (λ ret. tt) (syscall2 Syscall.sys_list_dir path len c s)

  unfoldable pub sys_stat : Context → S → Ran (Unit {0})
  unfolding syscall0
  sys_stat c s = reading (λ ret. tt) (syscall0 Syscall.sys_stat c s)

  unfoldable pub sys_allocate : ℕ → Context → S → Ran ℕ
  unfolding syscall1
  sys_allocate layout c s = syscall1 Syscall.sys_allocate layout c s

  unfoldable pub sys_deallocate : ℕ → ℕ → Context → S → Ran ℕ
  unfolding syscall2
  sys_deallocate ptr layout c s = syscall2 Syscall.sys_deallocate ptr layout c s

  unfoldable pub sys_spawn : ℕ → ℕ → Context → S → Ran ℕ
  unfolding syscall2
  sys_spawn path len c s = reading (λ ret. ret % 2 ^ 16) (syscall2 Syscall.sys_spawn path len c s)

  unfoldable pub sys_get_pid : Context → S → Ran ℕ
  unfolding syscall0
  sys_get_pid c s = reading (λ ret. ret % 2 ^ 16) (syscall0 Syscall.sys_get_pid c s)

  -- Coming back from the call panics.
  unfoldable pub sys_exit : ℕ → Context → S → Ran (Unit {0})
  unfolding syscall1
  sys_exit code c s = do _ ← syscall1 Syscall.sys_exit code c s; panics

  unfoldable pub sys_print_info : ℕ → Context → S → Ran ℕ
  unfolding syscall1
  sys_print_info pid c s = reading (λ ret. ret % 2 ^ 16) (syscall1 Syscall.sys_print_info pid c s)

  unfoldable pub sys_time : Context → S → Ran ℕ
  unfolding syscall0
  sys_time c s = syscall0 Syscall.sys_time c s

  unfoldable pub sys_fork : Context → S → Ran ℕ
  unfolding syscall0
  sys_fork c s = reading (λ ret. ret % 2 ^ 16) (syscall0 Syscall.sys_fork c s)

  unfoldable pub sys_new_sem : ℕ → ℕ → Context → S → Ran Bool
  unfolding syscall3
  sys_new_sem key value c s = reading (λ ret. ret == 0) (syscall3 Syscall.sys_sem 0 key value c s)

  unfoldable pub sys_remove_sem : ℕ → Context → S → Ran Bool
  unfolding syscall2
  sys_remove_sem key c s = reading (λ ret. ret == 0) (syscall2 Syscall.sys_sem 1 key c s)

  unfoldable pub sys_sem_signal : ℕ → Context → S → Ran Bool
  unfolding syscall2
  sys_sem_signal key c s = reading (λ ret. ret == 0) (syscall2 Syscall.sys_sem 2 key c s)

  unfoldable pub sys_sem_wait : ℕ → Context → S → Ran Bool
  unfolding syscall2
  sys_sem_wait key c s = reading (λ ret. ret == 0) (syscall2 Syscall.sys_sem 3 key c s)

  unfoldable pub sys_open_file : ℕ → ℕ → Context → S → Ran ℕ
  unfolding syscall2
  sys_open_file path len c s = reading (λ ret. ret % 2 ^ 8) (syscall2 Syscall.sys_open path len c s)

  unfoldable pub sys_close_file : ℕ → Context → S → Ran Bool
  unfolding syscall1
  sys_close_file fd c s = reading (λ ret. ret == 0) (syscall1 Syscall.sys_close fd c s)

  unfoldable pub sys_brk : Option ℕ → Context → S → Ran (Option ℕ)
  unfolding syscall1
  sys_brk addr c s =
      reading (λ ret. if ret == 2 ^ 64 - 1 then none else some ret)
        (syscall1 Syscall.sys_brk (elim addr [ some a ↦ a | none ↦ 0 ]) c s)
