-- ===== src/Tests/StackTests.antt =====
-- The stack: runs, and the theorems at concrete inputs.
use sysu_ysosv.Prelude.{true, [], ◌∷◌, arith}
use sysu_ysosv.Memory.X86.{Mem}
use sysu_ysosv.Vm.Stack.{Stack, handle_stack_fault}
use sysu_ysosv.Vm.Stack.Growth.{Handles, handle_stack_fault-Handles}
use sysu_ysosv.Tests.Machine.{machine, machine_laws, blank}

-- The initial stack of process 2.
abbrev second : Stack
second = record { range = record { start = 0x3ffefffff; end = 0x3fff00000 }; usage = 1 }

-- Two frames are free.
abbrev memory : Mem machine.Table
memory = blank (0x1000 ∷ 0x2000 ∷ [])

handle_stack_fault-Handles_example :
    Handles machine machine_laws 9 true 0x3ffeffffe500 second memory
      (handle_stack_fault machine 9 true 0x3ffeffffe500 second memory)
handle_stack_fault-Handles_example =
    handle_stack_fault-Handles machine machine_laws 9 true 0x3ffeffffe500 second memory
      (omega arith) (omega arith)
