-- ===== src/Vm/Stack/Slots.antt =====
-- Each process has its own slot of 4 GiB for its stack.
use sysu_ysosv.Prelude.{ℕ, ◌+◌, ◌-◌, ◌*◌, ◌^◌, ◌≤◌, ◌<◌, ◌≡◌, ◌↔◌, true, arith}
use sysu_ysosv.Memory.X86.{X86}
use sysu_ysosv.Vm.Stack.{
  Stack, stack_max, stack_max_size, stack_def_size, stack_bottom, is_on_stack,
}

-- The initial stack of process number `pid`, from 1 to 16384, is the last page of the slot of
-- 4 GiB that ends `pid - 1` slots below the top of user memory. So two processes never share a
-- slot, and an address is taken to be on the stack of one exactly if it lies in its slot.
pub stack_bottom_slots :
    (x : X86) (pid addr : ℕ) (s : Stack)
    → 0 < pid
    → pid ≤ 16384
    → s.range.start * 4096 ≡ stack_bottom pid
    → (stack_bottom pid + stack_def_size + (pid - 1) * stack_max_size ≡ stack_max)
      × ((is_on_stack x addr s ≡ true) ↔ (
          (stack_max - pid * stack_max_size ≤ addr)
          × (addr < stack_max - (pid - 1) * stack_max_size)))
unfolding stack_bottom is_on_stack
stack_bottom_slots x pid addr s pos le e = (omega arith, (λ h. ground arith, λ h. ground arith))

-- From process number 16385 on the bottom wraps around: it is no address of the lower
-- half of the address space, where user memory lies.
stack_bottom_wraps : (pid : ℕ) → 16384 < pid → pid < 2 ^ 16 → 2 ^ 47 ≤ stack_bottom pid
unfolding stack_bottom
stack_bottom_wraps pid lo hi = omega arith
