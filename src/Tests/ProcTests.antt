-- ===== src/Tests/ProcTests.antt =====
-- Processes: runs, and the theorems at concrete inputs.
use sysu_ysosv.Prelude.{
  true, ℕ, ◌^◌, ltb, if◌then◌else◌, panics, List, ◌≡◌, refl, subst, none, some, [], ◌∷◌, arith,
  returns,
}
use sysu_ysosv.Prelude.Map.{lookup, insert, Ascends}
use sysu_ysosv.Sync.{Semaphore}
use sysu_ysosv.Vm.Heap.{heap_start}
use sysu_ysosv.Proc.Context.{default_context}
use sysu_ysosv.Proc.AddressSpace.{ProcessVm}
use sysu_ysosv.Proc.State.{
  Process, ProcessData, ProgramStatus, Kernel, Family, running, ready, blocked, resume,
}
use sysu_ysosv.Proc.Manager.{switch_next, is_proc_alive}
use sysu_ysosv.Proc.Calls.{switch, wait_pid, sem_wait, sem_signal, exit}
use sysu_ysosv.Proc.Schedule.{IsScheduled, status_at, has_vm}
use sysu_ysosv.Proc.Schedule.Fetching.{switch_next-skips}
use sysu_ysosv.Proc.Schedule.RoundRobin.{Switches, switch-Switches}
use sysu_ysosv.Proc.Schedule.Waiting.{Waits, waits_on, wait_pid-Waits}
use sysu_ysosv.Proc.Schedule.Dropping.{IsInUserSpace}
use sysu_ysosv.Proc.Schedule.Exiting.{Exits, exit-Exits}
use sysu_ysosv.Proc.Schedule.Semaphores.{
  queued, dequeued, with_sem, sem_wait-Waits, sem_signal-Wakes,
}
use sysu_ysosv.Memory.X86.{X86}
use sysu_ysosv.Syscall.{SyscallArgs}
use sysu_ysosv.Tests.Machine.{machine, machine_laws, Tables, blank}

abbrev pub memory : ProcessVm
memory = record {
  root = 9;
  stack = record { range = record { start = 0x3ffefffff; end = 0x3fff00000 }; usage = 1 };
  code = [];
  code_usage = 0;
}

abbrev pub data_of : ProcessData
data_of = record { family = 0; code_segment_pages = 0 }

abbrev pub process : ProgramStatus → Process
process status = record {
  parent = none;
  children = [];
  ticks_passed = 0;
  status = status;
  exit_code = none;
  context = default_context;
  proc_data = some data_of;
  proc_vm = some memory;
}

abbrev pub sem : Semaphore
sem = record { count = 0; wait_queue = 4 ∷ [] }

abbrev pub family : Family ℕ
family = record { resources = []; semaphores = (7, sem) ∷ [] }

-- Process 2 runs and 1 is ready; 3 waits for the end of 2, and 4 for the semaphore at key 7.
abbrev pub kernel : Kernel Tables ℕ (List ℕ)
kernel = record {
  processes =
      (1, process ready) ∷ (2, process running) ∷ (3, process blocked) ∷ (4, process blocked) ∷ [];
  ready_queue = 1 ∷ [];
  waiting = (2, 3 ∷ []) ∷ [];
  current = 2;
  counter = 4;
  families = (0, family) ∷ [];
  vm = record {
    spaces = (9, record { using_count = 4; heap_end = heap_start }) ∷ [];
    trace = true;
    mem = blank [];
  };
  console = record { keys = []; printed = [] };
  cr3 = 9;
}

pub kernel-IsScheduled : IsScheduled kernel
unfolding status_at has_vm lookup
kernel-IsScheduled = record {
  queued = λ j. ground arith;
  waits = λ j. ground arith;
  active = λ j. ground arith;
  backed = λ j. ground arith;
  absent = refl;
  waiting_Ascends = ground arith;
  families_Ascends = ground arith;
  sems_Ascends = λ id f e.
      let same : family ≡ f = ground (arith, e) in
      subst (λ g. Ascends 0 g.semaphores) same (ground arith);
}

switch-Switches_example : Switches default_context 1 [] kernel (switch default_context kernel)
switch-Switches_example = switch-Switches default_context 1 [] kernel kernel-IsScheduled refl

wait_pid-Waits_example :
    Waits default_context 1 []
      (waits_on 1 kernel).waiting
      kernel.families
      kernel
      (wait_pid 1 default_context kernel)
unfolding is_proc_alive lookup
wait_pid-Waits_example = wait_pid-Waits 1 default_context 1 [] kernel kernel-IsScheduled refl refl

memory-IsInUserSpace : IsInUserSpace memory (record { using_count = 4; heap_end = heap_start })
memory-IsInUserSpace = record {
  stack_start = omega arith;
  stack_low = omega arith;
  stack_high = omega arith;
  heap_high = omega arith;
}

exit-Exits_example : Exits 5 1 (3 ∷ []) kernel (exit machine 5 kernel)
unfolding lookup
exit-Exits_example =
    exit-Exits machine machine_laws 5 1 (3 ∷ []) kernel (process running) memory
      (record { using_count = 4; heap_end = heap_start }) kernel-IsScheduled refl refl refl
      memory-IsInUserSpace refl

sem_wait-Waits_example :
    Waits default_context 1 [] kernel.waiting
      (with_sem 0 family 7 (queued 2 sem) kernel.families)
      kernel
      (sem_wait 7 default_context kernel)
unfolding lookup
sem_wait-Waits_example =
    sem_wait-Waits 7 default_context 1 [] kernel (process running) data_of family sem
      kernel-IsScheduled refl refl refl refl refl refl

sem_signal-Wakes_example :
    (k' : Kernel Tables ℕ (List ℕ)) × (sem_signal 7 default_context kernel
      ≡ returns (default_context, k'))
    × IsScheduled k'
    × (k'.ready_queue ≡ 1 ∷ 4 ∷ [])
    × (status_at 4 k'.processes ≡ ready)
    × (k'.families ≡ with_sem 0 family 7 (dequeued [] sem) kernel.families)
unfolding lookup
sem_signal-Wakes_example =
    sem_signal-Wakes 7 default_context 4 [] kernel (process running) data_of family sem
      kernel-IsScheduled refl refl refl refl refl

-- The first two processes of the queue are not ready.
abbrev idle : Kernel Tables ℕ (List ℕ)
idle = record kernel { ready_queue = 3 ∷ 4 ∷ 1 ∷ 2 ∷ [] }

switch_next-skips_example :
    switch_next idle
    ≡ returns (
      default_context,
      record idle {
        processes = insert 1 (resume (process ready)) idle.processes;
        ready_queue = 2 ∷ 3 ∷ 4 ∷ [];
        current = 1;
        cr3 = 9;
      },
    )
unfolding lookup
switch_next-skips_example =
    switch_next-skips 1 (3 ∷ 4 ∷ []) (2 ∷ []) idle (process ready) memory
      ((process blocked, refl, refl), ((process blocked, refl, refl), tt)) refl refl refl refl

abbrev asks_for : ℕ → SyscallArgs
asks_for a = record { arg0 = a; arg1 = 0; arg2 = 0 }

-- A machine on which addresses from 2 ^ 47 on are not canonical.
abbrev strict : X86
strict = record machine { virt_addr = λ addr. if ltb addr (2 ^ 47) then returns addr else panics }
