-- ===== src/Proc/AddressSpace.antt =====
-- pkg/kernel/src/proc/vm/mod.rs and pkg/kernel/src/proc/paging.rs: the memory of a process. Forks of
-- a process share its page table and its heap through reference counts; a space is what they
-- share, named by the frame of its root table.
use sysu_ysosv.Prelude.{
  ℕ, suc, ◌-◌, Bool, true, false, Option, List, [], ◌∷◌, ◌==◌, if◌then◌else◌, Outcome, returns,
  unwrap, ◌>>=◌,
}
use sysu_ysosv.Prelude.Result.{Result, ok, err}
use sysu_ysosv.Prelude.Map.{Map, lookup, insert, remove}
use sysu_ysosv.Memory.Frames.{allocate_frame, deallocate_frame}
use sysu_ysosv.Memory.X86.{X86, Mem, UnmapError}
use sysu_ysosv.Memory.Mapping.{PageRange, unmap_range}
use sysu_ysosv.Vm.Heap.{heap_start, brk, clean_up}
use sysu_ysosv.Vm.Stack.{Stack, empty_stack, fork_stack, clean_up_stack}

-- What forks share: the count of Arc<Cr3RegValue>, and the end of the heap.
pub record Space : Type 0 where
  pub using_count : ℕ
  pub heap_end : ℕ

-- ProcessVm. `code` holds inclusive ranges.
pub record ProcessVm : Type 0 where
  pub root : ℕ
  pub stack : Stack
  pub code : List PageRange
  pub code_usage : ℕ

-- All spaces, memory, and whether messages of level Trace are logged.
pub record Spaces (T : Type 0) : Type 0 where
  pub spaces : Map Space
  pub trace : Bool
  pub mem : Mem T

module _ (x : X86) where
  -- PageTableContext::clone_l4, then ProcessVm::new. `expect` panics if no frame is left.
  unfoldable pub clone_vm : ProcessVm → Spaces x.Table → Outcome (ProcessVm × Spaces x.Table)
  unfolding allocate_frame empty_stack
  clone_vm vm s =
      let (got, frames) = allocate_frame s.mem.frames in
      do
        root ← unwrap got
        returns (
          record { root = root; stack = empty_stack x; code = []; code_usage = 0 },
          record {
            spaces = insert root (record { using_count = 1; heap_end = heap_start }) s.spaces;
            trace = s.trace;
            mem = record { table = x.copy_root vm.root root s.mem.table; frames = frames };
          },
        )

  -- ProcessVm::fork
  unfoldable pub fork_vm : ℕ → ProcessVm → Spaces x.Table → Outcome (ProcessVm × Spaces x.Table)
  unfolding fork_stack
  fork_vm stack_offset_count vm s = do
    space ← unwrap (lookup vm.root s.spaces)
    (stack, mem) ← fork_stack x vm.root stack_offset_count vm.stack s.mem
    returns (
      record { root = vm.root; stack = stack; code = []; code_usage = 0 },
      record {
        spaces = insert vm.root (record space { using_count = suc space.using_count }) s.spaces;
        trace = s.trace;
        mem = mem;
      },
    )

  -- ProcessVm::brk
  unfoldable pub brk_vm :
      Bool → Option ℕ → ProcessVm → Spaces x.Table → Outcome (Option ℕ × Spaces x.Table)
  unfolding brk
  brk_vm user addr vm s = do
    space ← unwrap (lookup vm.root s.spaces)
    (r, end, mem) ← brk x s.trace vm.root user addr space.heap_end s.mem
    returns (
      r,
      record s { spaces = insert vm.root (record space { heap_end = end }) s.spaces; mem = mem },
    )

  -- `for page_range in self.code.iter()` of ProcessVm::clean_up
  free_code : ℕ → List PageRange → Mem x.Table → Result UnmapError (Unit {0}) × Mem x.Table
  unfolding unmap_range
  free_code root [] m = (ok tt, m)
  free_code root (range ∷ code) m =
      let (r, m') = unmap_range x root range.start range.end true m in
      elim r [ ok _ ↦ free_code root code m' | err e ↦ (err e, m') ]

  -- The part of ProcessVm::clean_up for the last user of the space.
  unfoldable pub free_space : ProcessVm → ℕ → Mem x.Table → Outcome (Mem x.Table)
  unfolding free_code clean_up deallocate_frame
  free_space vm end m = do
    (r, _, m') ← clean_up x vm.root heap_start end m
    let (c, m2) = free_code vm.root vm.code m'
    let m3 = x.clean_tables vm.root m2
    returns (elim r [
      | err _ ↦ m'
      | ok _ ↦ elim c [
        | err _ ↦ m2
        | ok _ ↦ record m3 { frames = deallocate_frame vm.root m3.frames }
      ]
    ])

  -- Drop of a ProcessVm: clean_up, whose error is only logged, then the page table is let go of.
  unfoldable pub drop_vm : ProcessVm → Spaces x.Table → Outcome (Spaces x.Table)
  unfolding free_space clean_up_stack
  drop_vm vm s = do
    space ← unwrap (lookup vm.root s.spaces)
    (r, _, m) ← clean_up_stack x vm.root vm.stack s.mem
    let last = space.using_count == 1
    mem ← elim r [
      | err _ ↦ returns m
      | ok _ ↦ elim last [ true ↦ free_space vm space.heap_end m | false ↦ returns m ]
    ]
    returns (record s {
      spaces =
          if last
          then remove vm.root s.spaces
          else insert vm.root (record space { using_count = space.using_count - 1 }) s.spaces;
      mem = mem;
    })
