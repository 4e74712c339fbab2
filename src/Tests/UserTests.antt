-- ===== src/Tests/UserTests.antt =====
-- System calls and programs, at concrete inputs.
use sysu_ysosv.Prelude.{
  ℕ, ◌≡◌, ◌<◌, refl, true, false, none, some, [], ◌∷◌, ◌+◌, ◌*◌, arith, List, Outcome, returns,
  panics, ◌>>=◌, if◌then◌else◌,
}
use sysu_ysosv.Prelude.Map.{lookup, insert, remove}
use sysu_ysosv.Proc.Context.{Context, default_context}
use sysu_ysosv.Proc.State.{Kernel, blocked, pause}
use sysu_ysosv.Proc.Manager.{current_proc}
use sysu_ysosv.Proc.Calls.{current_family, on_sems}
use sysu_ysosv.Proc.Schedule.Semaphores.{dequeued, with_sem}
use sysu_ysosv.Sync.{signal_sem}
use sysu_ysosv.Syscall
use sysu_ysosv.Syscall.Dispatch.{from_number, Surroundings, Caller, serve, dispatcher}
use sysu_ysosv.Syscall.Dispatch.Running.{Runs, boots, goes, calls, ticks, Runs-IsScheduled}
use sysu_ysosv.Proc.Schedule.{IsScheduled}
use sysu_ysosv.Proc.Calls.{switch}
use sysu_ysosv.User.Calls.{syscall3, sys_close_file, sys_sem_signal}
use sysu_ysosv.User.Calls.Answers.{
  kernel_call, syscall3-serve, told, sys_close_file_inverted, sys_sem_signal_denies,
}
use sysu_ysosv.User.SpinLock.{
  Shared, Thread, System, Step, picks, Reach, here, after, acquires, reads, rounds, acquired, start,
  try_acquire,
}
use sysu_ysosv.User.SpinLock
use sysu_ysosv.User.SpinLock.Counting.{total, holds, to_write, to_do, spin_counts, spin_progress}
use sysu_ysosv.Tests.Machine.{Tables, machine}
use sysu_ysosv.Tests.ProcTests.{kernel, kernel-IsScheduled, process, family, sem}
use sysu_ysosv.Tests.ResourceTests.{keys, files}
use sysu_ysosv.Tests.SpawnTests.{selectors}

-- A heap that gives out one address, and layouts whose size stands at their address; no file is found.
abbrev world : Surroundings ℕ
world = record {
  Heap = ℕ;
  Layout = ℕ;
  size = λ layout. layout;
  layout_at = λ addr memory. some (memory addr);
  allocate_first_fit = λ layout heap. (some heap, heap + layout);
  deallocate = λ ptr layout heap. heap;
  time = (1, 2, 3);
  program_at = λ path. none;
  file_at = λ path. none;
}

abbrev caller : Caller machine keys files world 0x10000 selectors
caller = record { kernel = kernel; ram = λ a. 0; user = λ a. 8; heap = 0x4000 }

-- Process 2 signals the semaphore at key 7.
abbrev signalling : Context
signalling = record default_context {
  regs = record default_context.regs { rax = 64; rdi = 2; rsi = 7 };
}

-- It is woken up, and a timer interrupt follows.
abbrev landed :
    Outcome (Context × Caller machine keys files world 0x10000 selectors)
    → Context × Caller machine keys files world 0x10000 selectors
landed (returns r) = r
landed panics = (default_context, caller)

abbrev called : Outcome (Context × Caller machine keys files world 0x10000 selectors)
called = dispatcher machine keys files world 0x10000 selectors signalling caller

called-returns : called ≡ returns (landed called)
unfolding dispatcher lookup
called-returns = refl

abbrev switched : Outcome (Context × Kernel Tables ℕ (List ℕ)) → Kernel Tables ℕ (List ℕ)
switched (returns r) = r.1
switched panics = kernel

abbrev ticked : Outcome (Context × Kernel Tables ℕ (List ℕ))
ticked = switch default_context (landed called).1.kernel

ticked-returns : ticked ≡ returns (default_context, switched ticked)
unfolding dispatcher switch lookup insert
ticked-returns = refl

abbrev next : Caller machine keys files world 0x10000 selectors
next = record (landed called).1 { kernel = switched ticked }

run : Runs machine keys files world 0x10000 selectors caller next
unfolding from_number
run =
    goes (goes boots (calls signalling (landed called).0 tt called-returns))
      (ticks default_context default_context ticked-returns)

Runs-IsScheduled_example : IsScheduled next.kernel
Runs-IsScheduled_example =
    Runs-IsScheduled machine keys files world 0x10000 selectors run kernel-IsScheduled

syscall3-serve_example :
    syscall3
      (kernel_call machine keys files world 0x10000 selectors)
      Syscall.sys_sem
      2
      7
      0
      default_context
      caller
    ≡ (do
      (c', s') ←
          serve machine keys files world 0x10000 selectors Syscall.sys_sem
            (record { arg0 = 2; arg1 = 7; arg2 = 0 })
            (record default_context {
              regs = record default_context.regs { rax = 64; rdi = 2; rsi = 7; rdx = 0 };
            })
            caller
      returns (c'.regs.rax, c', s'))
unfolding Syscall.number
syscall3-serve_example =
    syscall3-serve machine keys files world 0x10000 selectors Syscall.sys_sem 2 7 0 default_context
      caller

sys_close_file_inverted_example :
    told machine keys files world 0x10000 selectors (
      sys_close_file
        (kernel_call machine keys files world 0x10000 selectors)
        3
        default_context
        caller)
    ≡ returns (true, (0, family) ∷ [])
unfolding lookup current_family current_proc insert remove
sys_close_file_inverted_example =
    sys_close_file_inverted machine keys files world 0x10000 selectors 3 default_context caller 0
      family (omega arith) refl

sys_sem_signal_denies_example :
    (c' : Context) × (sys_sem_signal
        (kernel_call machine keys files world 0x10000 selectors)
        7
        default_context
        caller
      ≡ returns (
        false,
        c',
        record caller {
          kernel = record kernel {
            processes = insert 4 (pause (process blocked)) kernel.processes;
            ready_queue = 1 ∷ 4 ∷ [];
            families = with_sem 0 family 7 (dequeued [] sem) kernel.families;
          };
        },
      ))
unfolding lookup on_sems signal_sem current_family current_proc
sys_sem_signal_denies_example =
    sys_sem_signal_denies machine keys files world 0x10000 selectors 7 4 default_context caller
      (process blocked) (with_sem 0 family 7 (dequeued [] sem) kernel.families) (omega arith) refl
      refl

-- Three threads are to make two rounds each; the second takes the lock and reads.
abbrev locked : System
locked = record {
  shared = record { bolt = true; counter = 0 };
  threads = rounds 2 ∷ acquired 1 ∷ rounds 2 ∷ [];
}

abbrev reading : System
reading = record {
  shared = record { bolt = true; counter = 0 };
  threads = rounds 2 ∷ SpinLock.read 1 0 ∷ rounds 2 ∷ [];
}

locked-Reach : Reach (start 2 3) locked
unfolding try_acquire
locked-Reach =
    after here
      (picks (rounds 2 ∷ []) (rounds 2 ∷ []) (rounds 2) (acquired 1) refl refl (acquires 1 refl))

reading-Reach : Reach (start 2 3) reading
reading-Reach =
    after locked-Reach
      (picks (rounds 2 ∷ []) (rounds 2 ∷ []) (acquired 1) (SpinLock.read 1 0) refl refl (reads 1))

spin_counts_example :
    (total holds reading.threads ≡ (if reading.shared.bolt then 1 else 0))
    × (reading.shared.counter + total to_write reading.threads ≡ 2 * 3)
spin_counts_example = spin_counts 2 3 reading (omega arith) reading-Reach

spin_progress_example :
    (u : System) × Step reading u × (total to_do u.threads < total to_do reading.threads)
spin_progress_example = spin_progress 2 3 reading (omega arith) reading-Reach (omega arith)
