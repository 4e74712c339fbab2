-- ===== src/Syscall/Dispatch/Running.antt =====
-- The kernel among programs: system calls, timer interrupts and what programs do by themselves, in any order.
use sysu_ysosv.Prelude.{ℕ, ◌≡◌, subst, returns}
use sysu_ysosv.Memory.X86.{X86}
use sysu_ysosv.Resource.{KeyQueue, FileIo}
use sysu_ysosv.Proc.Context.{Context}
use sysu_ysosv.Proc.Spawn.{UserSelectors}
use sysu_ysosv.Proc.Calls.{switch}
use sysu_ysosv.Proc.Schedule.{IsScheduled}
use sysu_ysosv.Proc.Schedule.Calls.{Keeps, switch-Keeps}
use sysu_ysosv.Syscall.Dispatch.{from_number, Surroundings, Caller, dispatcher}
use sysu_ysosv.Syscall.Dispatch.Keeping.{StaysScheduled, HasNumber, dispatcher-StaysScheduled}

module _ (x : X86) (q : KeyQueue) (io : FileIo) (w : Surroundings io.File) (physical_offset : ℕ)
    (selectors : UserSelectors) where
  -- What happens next: a system call with any registers that returns, if there is a number for a new process; a
  -- timer interrupt that returns; or a program changes memory, which leaves the kernel's state as it is.
  pub data Happens (s s' : Caller x q io w physical_offset selectors) : Type 0 where
    calls :
        (c c' : Context)
        → HasNumber x q io w physical_offset selectors (from_number c.regs.rax) s.kernel
        → dispatcher x q io w physical_offset selectors c s ≡ returns (c', s')
        → Happens s s'
    ticks : (c c' : Context) → switch c s.kernel ≡ returns (c', s'.kernel) → Happens s s'
    works : s.kernel ≡ s'.kernel → Happens s s'

  pub data Runs (s : Caller x q io w physical_offset selectors)
      : Caller x q io w physical_offset selectors → Type 0 where
    boots : Runs s s
    goes : {t u : Caller x q io w physical_offset selectors} → Runs s t → Happens t u → Runs s u

  Happens-IsScheduled :
      (s s' : Caller x q io w physical_offset selectors)
      → Happens s s'
      → IsScheduled s.kernel
      → IsScheduled s'.kernel
  Happens-IsScheduled s s' (calls c c' fresh e) kept =
      subst (StaysScheduled x q io w physical_offset selectors) e
        (dispatcher-StaysScheduled x q io w physical_offset selectors c s kept fresh)
  Happens-IsScheduled s s' (ticks c c' e) kept = subst Keeps e (switch-Keeps c s.kernel kept)
  Happens-IsScheduled s s' (works e) kept = subst IsScheduled e kept

  -- Suppose that the queues agree with the processes. Then they agree in every state that system calls with any registers, timer
  -- interrupts and the work of programs on memory lead to, in any order, as long as fork and spawn are only called while the
  -- next number of the counter is neither 0 nor in use.
  pub Runs-IsScheduled :
      {s t : Caller x q io w physical_offset selectors}
      → Runs s t
      → IsScheduled s.kernel
      → IsScheduled t.kernel
  Runs-IsScheduled boots kept = kept
  Runs-IsScheduled {s} {t = v} (goes {t} r h) kept =
      Happens-IsScheduled t v h (Runs-IsScheduled r kept)
