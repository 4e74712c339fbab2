-- ===== src/Proc/State.antt =====
-- The state of the kernel that pkg/kernel/src/proc keeps: the processes (process.rs), what forks
-- share (data.rs), the queues of the process manager (manager.rs), the pid counter (pid.rs) and the
-- pid that the processor runs (processor.rs). The model has one processor.
use sysu_ysosv.Prelude.{ℕ, ◌+◌, ◌%◌, ◌^◌, Bool, true, false, Option, List, if◌then◌else◌}
use sysu_ysosv.Prelude.Map.{Map}
use sysu_ysosv.Sync.{Sems}
use sysu_ysosv.Resource.{Handles, Console}
use sysu_ysosv.Proc.Context.{Context}
use sysu_ysosv.Proc.AddressSpace.{ProcessVm, Spaces}

pub data ProgramStatus : Type 0 where
  running ready blocked dead : ProgramStatus

-- ProcessData: clones share `resources` and `semaphores`, which are those of the family.
pub record ProcessData : Type 0 where
  pub family : ℕ
  pub code_segment_pages : ℕ

-- ProcessInner. `name`, which is only printed, is left out; `children` are their pids.
pub record Process : Type 0 where
  pub parent : Option ℕ
  pub children : List ℕ
  pub ticks_passed : ℕ
  pub status : ProgramStatus
  pub exit_code : Option ℕ
  pub context : Context
  pub proc_data : Option ProcessData
  pub proc_vm : Option ProcessVm

-- The descriptors and semaphores that a family of processes shares.
pub record Family (F : Type 0) : Type 0 where
  pub resources : Handles F
  pub semaphores : Sems

-- PROCESS_MANAGER, the counter of ProcessId::new and the processor, with what they reach.
pub record Kernel (T F K : Type 0) : Type 0 where
  pub processes : Map Process
  pub ready_queue : List ℕ
  pub waiting : Map (List ℕ)
  pub current : ℕ
  pub counter : ℕ
  pub families : Map (Family F)
  pub vm : Spaces T
  pub console : Console K
  pub cr3 : ℕ

-- self.status == ProgramStatus::Ready
abbrev pub is_ready : ProgramStatus → Bool
is_ready ready = true
is_ready running = false
is_ready blocked = false
is_ready dead = false

-- status == ProgramStatus::Dead
abbrev pub is_dead : ProgramStatus → Bool
is_dead dead = true
is_dead running = false
is_dead blocked = false
is_dead ready = false

-- ProcessId::new
abbrev pub next_pid : ℕ → ℕ
next_pid counter = (counter + 1) % 2 ^ 16

-- ProcessInner::save
abbrev pub save : Context → Process → Process
save c p = if is_dead p.status then p else record p { context = c; status = ready }

-- ProcessInner::tick
abbrev pub tick : Process → Process
tick p = record p { ticks_passed = (p.ticks_passed + 1) % 2 ^ 64 }

-- ProcessInner::pause
abbrev pub pause : Process → Process
pause p = record p { status = ready }

-- ProcessInner::resume
abbrev pub resume : Process → Process
resume p = record p { status = running }

-- ProcessInner::block
abbrev pub block : Process → Process
block p = record p { status = blocked }

-- self.context.set_rax(value)
abbrev pub put_rax : ℕ → Process → Process
put_rax value p = record p {
  context = record p.context { regs = record p.context.regs { rax = value } };
}
