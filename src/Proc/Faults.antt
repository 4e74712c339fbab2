-- ===== src/Proc/Faults.antt =====
-- Page faults of the process that runs.
use sysu_ysosv.Prelude.{ℕ, ◌≡◌, refl, true, false, some, arith, ◌==◌, returns}
use sysu_ysosv.Prelude.Map.{lookup, insert, lookup-insert}
use sysu_ysosv.Memory.X86.{X86}
use sysu_ysosv.Vm.Stack.{is_on_stack, handle_stack_fault}
use sysu_ysosv.Proc.AddressSpace.{ProcessVm}
use sysu_ysosv.Proc.State.{Process, Kernel}
use sysu_ysosv.Proc.Manager.{get_pid, current_proc, handle_page_fault}

module _ (x : X86) {F K : Type 0} where
  -- A fault on a missing page outside the stack of the process that runs is reported as
  -- handled, though nothing was mapped and no process changed.
  handle_page_fault_off_stack :
      (addr : ℕ) (k : Kernel x.Table F K) (p : Process) (vm : ProcessVm)
      → (k.current == 0) ≡ false
      → lookup k.current k.processes ≡ some p
      → p.proc_vm ≡ some vm
      → is_on_stack x addr vm.stack ≡ false
      → (k' : Kernel x.Table F K) × (handle_page_fault x addr false k ≡ returns (true, k'))
        × (k'.vm ≡ k.vm)
        × ((j : ℕ) → lookup j k'.processes ≡ lookup j k.processes)
  unfolding handle_page_fault current_proc get_pid handle_stack_fault
  handle_page_fault_off_stack addr k p vm pos there has off = (
    record k {
      processes =
          insert k.current (record p { proc_vm = some (record vm { stack = vm.stack }) })
            k.processes;
    },
    rw (pos) (rw (there) (rw has (rw off refl))),
    refl,
    λ j. ground (
      arith,
      there,
      has,
      lookup-insert j k.current (record p { proc_vm = some (record vm { stack = vm.stack }) })
          k.processes,
    ),
  )
