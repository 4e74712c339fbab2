-- ===== src/Proc/Schedule/Spawning.antt =====
-- The start of a program, from its file to its place in the queue.
use sysu_ysosv.Prelude.{
  ℕ, ◌≡◌, ◌≢◌, true, Option, none, some, [], ◌∷◌, ◌++◌, Outcome, returns, panics,
}
use sysu_ysosv.Prelude.Result.{Result}
use sysu_ysosv.Prelude.Map.{Map, lookup, insert}
use sysu_ysosv.Memory.X86.{X86, Laws}
use sysu_ysosv.Vm.Stack.{Stack}
use sysu_ysosv.Elf.{Ram, Filled}
use sysu_ysosv.Elf.Load.Content.{HasByte}
use sysu_ysosv.Elf.Load.Files.{EachByte}
use sysu_ysosv.Resource.{default_handles}
use sysu_ysosv.Proc.Context.{default_context}
use sysu_ysosv.Proc.AddressSpace.{ProcessVm, Spaces}
use sysu_ysosv.Proc.State.{Process, Kernel, next_pid}
use sysu_ysosv.Proc.Manager.{push_ready}
use sysu_ysosv.Proc.Spawn.{Program, UserSelectors, init_stack_frame, new_process, fresh}
use sysu_ysosv.Proc.Schedule.{IsScheduled}
use sysu_ysosv.Proc.Schedule.Switching.{context_at}

-- The page table of a process
abbrev pub root_at : ℕ → Map Process → Option ℕ
root_at pid ps = elim (lookup pid ps) [
  | none ↦ none
  | some p ↦ elim p.proc_vm [ none ↦ none | some vm ↦ some vm.root ]
]

module _ (x : X86) (laws : Laws x) (physical_offset : ℕ) where
  abbrev pub InMemory : Program → ℕ → Filled x.Table → Type 0
  InMemory program root s =
      EachByte x laws physical_offset root (HasByte x laws physical_offset root) program.input true
        program.segments s

module _ (x : X86) (laws : Laws x) {F K : Type 0} (physical_offset : ℕ) (selectors : UserSelectors)
    (program : Program) where
  -- How the start of a program ends: the new process is the last of the queue, goes on at the entry point with
  -- the top of its stack, and its memory holds the program; the process that called goes on.
  pub record IsSpawned (pid root entry top : ℕ) (k k' : Kernel x.Table F K) (ram : Ram)
      : Type 0 where
    pub scheduled : IsScheduled k'
    pub current : k'.current ≡ k.current
    pub queue : k'.ready_queue ≡ k.ready_queue ++ pid ∷ []
    pub others : (j : ℕ) → j ≢ pid → lookup j k'.processes ≡ lookup j k.processes
    pub context :
        context_at pid k'.processes ≡ some (init_stack_frame selectors entry top default_context)
    pub own_table : root_at pid k'.processes ≡ some root
    pub loaded :
        InMemory x laws physical_offset program root (record { mem = k'.vm.mem; ram = ram })

  abbrev pub Spawns :
      ℕ → ℕ → ℕ → ℕ → Kernel x.Table F K → Outcome (ℕ × Kernel x.Table F K × Ram) → Type 0
  Spawns pid root entry top k panics = ⊥
  Spawns pid root entry top k (returns (child, k', ram)) =
      (child ≡ pid) × IsSpawned pid root entry top k k' ram

  module _ (k : Kernel x.Table F K) (ram : Ram) (kproc : Process) (kernel_vm vm vm' : ProcessVm)
      (s : Spaces x.Table) (loaded : Filled x.Table) (entry top : ℕ) where
    abbrev child_made : Process
    child_made =
        record (new_process (some k.current)
          (record { family = fresh k.families; code_segment_pages = 0 }) vm') {
            context = init_stack_frame selectors entry top default_context;
          }

    abbrev after_spawn : Kernel x.Table F K
    after_spawn = push_ready (next_pid k.counter) (record k {
      processes = insert (next_pid k.counter) child_made k.processes;
      counter = next_pid k.counter;
      families =
          insert (fresh k.families) (record { resources = default_handles; semaphores = [] })
            k.families;
      vm = record s { mem = loaded.mem };
    })
