-- ===== src/Proc/Spawn.antt =====
-- Starting a program: elf_spawn of pkg/kernel/src/proc/mod.rs, ProcessManager::spawn and the parts of Process,
-- ProcessInner, ProcessVm and ProcessContext that it calls. `physical_offset` is PHYSICAL_OFFSET; the
-- segment selectors of the user, which the GDT gives out, are arguments. Names, which are only printed, and
-- the environment are left out.
use sysu_ysosv.Prelude.{
  ℕ, suc, ◌+◌, ◌-◌, ◌*◌, ◌^◌, true, Option, none, some, List, [], ◌∷◌, leb, if◌then◌else◌, Outcome,
  returns, panics, unwrap, ◌>>=◌,
}
use sysu_ysosv.Prelude.Result.{ok, err}
use sysu_ysosv.Prelude.Map.{Map, lookup, insert}
use sysu_ysosv.Memory.X86.{X86}
use sysu_ysosv.Memory.Mapping.{PageRange}
use sysu_ysosv.Elf.{ProgramHeader, Ram, Filled}
use sysu_ysosv.Elf.Load
use sysu_ysosv.Vm.Heap.{page_size}
use sysu_ysosv.Vm.Stack.{kstack, init_stack}
use sysu_ysosv.Resource.{default_handles}
use sysu_ysosv.Proc.Context.{Context, default_context}
use sysu_ysosv.Proc.AddressSpace.{ProcessVm, clone_vm}
use sysu_ysosv.Proc.State.{Process, ProcessData, Kernel, ready, next_pid, pause}
use sysu_ysosv.Proc.Manager.{kernel_pid, current_proc, push_ready}

-- What the source reads of an ElfFile of the xmas_elf crate.
pub record Program : Type 0 where
  pub segments : List ProgramHeader
  pub entry_point : ℕ
  pub input : Ram

pub record UserSelectors : Type 0 where
  pub user_code_selector : ℕ
  pub user_data_selector : ℕ

-- ProcessContext::init_stack_frame; the flags are IOPL_HIGH, IOPL_LOW and INTERRUPT_FLAG.
abbrev pub init_stack_frame : UserSelectors → ℕ → ℕ → Context → Context
init_stack_frame selectors entry stack_top c = record c {
  stack_frame = record {
    instruction_pointer = entry;
    code_segment = selectors.user_code_selector;
    cpu_flags = 2 ^ 13 + 2 ^ 12 + 2 ^ 9;
    stack_pointer = stack_top;
    stack_segment = selectors.user_data_selector;
  };
}

-- The sum of the numbers of pages of inclusive ranges
unfoldable pub pages_total : List PageRange → ℕ
pages_total [] = 0
pages_total (range ∷ code) = suc range.end - range.start + pages_total code

-- `code_usage`
unfoldable pub usage_of : List PageRange → ℕ
unfolding pages_total
usage_of code = pages_total code * page_size

-- Process::new with the data of a new process; its context is the default.
abbrev pub new_process : Option ℕ → ProcessData → ProcessVm → Process
new_process parent data_of vm = record {
  parent = parent;
  children = [];
  ticks_passed = 0;
  status = ready;
  exit_code = none;
  context = default_context;
  proc_data = some data_of;
  proc_vm = some vm;
}

-- A name for a new family: no family has it.
unfoldable pub fresh : {V : Type 0} → Map V → ℕ
fresh [] = 0
fresh ((id, v) ∷ families) = let n = fresh families in if leb n id then suc id else n

module _ (x : X86) where
  -- ProcessVm::init_kernel_vm
  unfoldable pub init_kernel_vm : List PageRange → ProcessVm → ProcessVm
  unfolding usage_of
  init_kernel_vm pages vm = record vm {
    stack = kstack x;
    code = pages;
    code_usage = usage_of pages;
  }

  -- ProcessVm::load_elf_code; an error panics.
  unfoldable pub load_elf_code :
      ℕ → Program → ProcessVm → Filled x.Table → Outcome (ProcessVm × Filled x.Table)
  unfolding usage_of
  load_elf_code physical_offset program vm s = do
    (r, s') ← Load.load_elf x physical_offset vm.root program.input true program.segments s
    elim r [
      | err _ ↦ panics
      | ok code ↦ returns (record vm { code = code; code_usage = usage_of code }, s')
    ]

  -- ProcessVm::load_elf: the top of the stack, the memory of the process, and what it holds.
  unfoldable pub load_process :
      ℕ → Program → ℕ → ProcessVm → Filled x.Table → Outcome (ℕ × ProcessVm × Filled x.Table)
  unfolding load_elf_code init_stack
  load_process physical_offset program pid vm s = do
    (vm', s1) ← load_elf_code physical_offset program vm s
    (top, stack, mem) ← init_stack x vm.root pid vm'.stack s1.mem
    returns (top, record vm' { stack = stack }, record s1 { mem = mem })

  module _ {F K : Type 0} (physical_offset : ℕ) (selectors : UserSelectors) where
    -- ProcessManager::spawn
    unfoldable pub spawn :
        Program → Option ℕ → Kernel x.Table F K → Ram → Outcome (ℕ × Kernel x.Table F K × Ram)
    unfolding clone_vm load_process push_ready default_handles
    spawn program parent k ram = do
      kproc ← unwrap (lookup kernel_pid k.processes)
      kernel_vm ← unwrap kproc.proc_vm
      (vm, s) ← clone_vm x kernel_vm k.vm
      let pid = next_pid k.counter
      let family = fresh k.families
      (top, vm', loaded) ←
          load_process physical_offset program pid vm (record { mem = s.mem; ram = ram })
      entry ← x.virt_addr program.entry_point
      let made : Process =
          new_process parent (record { family = family; code_segment_pages = 0 }) vm'
      let p = pause (record made { context = init_stack_frame selectors entry top made.context })
      returns (
        pid,
        push_ready pid (record k {
          processes = insert pid p k.processes;
          counter = pid;
          families =
              insert family (record { resources = default_handles; semaphores = [] }) k.families;
          vm = record s { mem = loaded.mem };
        }),
        loaded.ram,
      )

    -- elf_spawn
    unfoldable pub elf_spawn :
        Program → Kernel x.Table F K → Ram → Outcome (ℕ × Kernel x.Table F K × Ram)
    unfolding current_proc spawn
    elf_spawn program k ram = do (pid, _) ← current_proc k; spawn program (some pid) k ram
