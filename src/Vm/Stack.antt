-- ===== src/Vm/Stack.antt =====
-- pkg/kernel/src/proc/vm/stack.rs: the stack of a process. Numbers are u64 and wrap; `x & mask` for
-- the mask of the upper bits is written `x - x % 2 ^ 32`. Subtracting from a VirtAddr panics below
-- 0. The content of pages is not modelled, so `fork` leaves out the copying of `clone_range`.
pub mod Slots
pub mod Growth
use sysu_ysosv.Prelude.{
  ℕ, zero, suc, ◌+◌, ◌-◌, ◌*◌, ◌/◌, ◌%◌, ◌^◌, Bool, true, false, ltb, leb, ◌==◌, not, if◌then◌else◌,
  Outcome, returns, panics, ◌>>=◌,
}
use sysu_ysosv.Prelude.Result.{Result, ok, err}
use sysu_ysosv.Memory.X86.{X86, Mem, MapToError, UnmapError}
use sysu_ysosv.Memory.Mapping.{PageRange, map_pages, unmap_pages}
use sysu_ysosv.Vm.Heap.{page_size}

abbrev pub stack_max : ℕ
stack_max = 0x4000_0000_0000

abbrev pub stack_max_pages : ℕ
stack_max_pages = 0x100000

abbrev pub stack_max_size : ℕ
stack_max_size = stack_max_pages * page_size

abbrev pub stack_def_page : ℕ
stack_def_page = 1

abbrev pub stack_def_size : ℕ
stack_def_size = stack_def_page * page_size

abbrev pub stack_init_top : ℕ
stack_init_top = stack_max - 8

abbrev pub kstack_max : ℕ
kstack_max = 0xffff_ff02_0000_0000

abbrev pub kstack_def_page : ℕ
kstack_def_page = 32

abbrev pub kstack_init_bot : ℕ
kstack_init_bot = kstack_max - kstack_def_page * page_size

abbrev pub kstack_init_top : ℕ
kstack_init_top = kstack_max - 8

pub record Stack : Type 0 where
  pub range : PageRange
  pub usage : ℕ

-- The bottom of the initial stack of a process, in Stack::init.
unfoldable pub stack_bottom : ℕ → ℕ
stack_bottom pid =
    (stack_max + 2 ^ 64 - (pid + 2 ^ 16 - 1) % 2 ^ 16 * stack_max_size - stack_def_size) % 2 ^ 64

-- The upper bits of an address: addr & STACK_START_MASK.
unfoldable pub slot_of : ℕ → ℕ
slot_of addr = addr - addr % stack_max_size

module _ (x : X86) where
  -- Stack::empty
  unfoldable pub empty_stack : Stack
  empty_stack =
      let page = x.page_of stack_init_top in
      record { range = record { start = page; end = page }; usage = 0 }

  -- Stack::kstack
  unfoldable pub kstack : Stack
  kstack = record {
    range = record { start = x.page_of kstack_init_bot; end = x.page_of kstack_init_top };
    usage = kstack_def_page;
  }

  -- Stack::init
  unfoldable pub init_stack : ℕ → ℕ → Stack → Mem x.Table → Outcome (ℕ × Stack × Mem x.Table)
  unfolding stack_bottom
  init_stack root pid s m = do
    (r, m') ← map_pages x root (stack_bottom pid) stack_def_page true m
    elim r [
      | err _ ↦ panics
      | ok range ↦ returns (
        range.start * page_size + page_size - 8,
        record { range = range; usage = stack_def_page },
        m',
      )
    ]

  -- Stack::is_on_stack
  unfoldable pub is_on_stack : ℕ → Stack → Bool
  unfolding slot_of
  is_on_stack addr s = slot_of addr == slot_of (s.range.start * page_size)

  -- Stack::grow_stack; the difference of two pages panics below 0
  unfoldable pub grow_stack :
      ℕ
      → Bool
      → ℕ
      → Stack
      → Mem x.Table
      → Outcome (Result MapToError (Unit {0}) × Stack × Mem x.Table)
  grow_stack root user_access addr s m =
      let new_start_page = x.page_of addr in
      if ltb s.range.start new_start_page
      then panics
      else (let page_count = s.range.start - new_start_page in
          do
            (r, m') ← map_pages x root (new_start_page * page_size) page_count user_access m
            elim r [
              | err e ↦ returns (err e, s, m')
              | ok _ ↦ returns (
                ok tt,
                record {
                  range = record s.range { start = new_start_page };
                  usage = s.range.end - new_start_page;
                },
                m',
              )
            ])

  -- Stack::handle_page_fault
  unfoldable pub handle_stack_fault :
      ℕ → Bool → ℕ → Stack → Mem x.Table → Outcome (Bool × Stack × Mem x.Table)
  unfolding is_on_stack grow_stack
  handle_stack_fault root user_access addr s m =
      if not (is_on_stack addr s)
      then returns (false, s, m)
      else elim (grow_stack root user_access addr s m) [
        | panics ↦ panics
        | returns (r, s', m') ↦ returns (elim r [ ok _ ↦ true | err _ ↦ false ], s', m')
      ]

  -- Stack::clean_up
  unfoldable pub clean_up_stack :
      ℕ → Stack → Mem x.Table → Outcome (Result UnmapError (Unit {0}) × Stack × Mem x.Table)
  clean_up_stack root s m = if s.usage == 0 then returns (ok tt, s, m) else (do
    (r, m') ← unmap_pages x root (s.range.start * page_size) (s.range.end - s.range.start) true m
    returns (elim r [ err e ↦ (err e, s, m') | ok _ ↦ (ok tt, record s { usage = 0 }, m') ]))

  -- The loop of Stack::fork: it moves down by `stack_max_size` until the pages can be mapped.
  find_room : ℕ → ℕ → ℕ → ℕ → Mem x.Table → Outcome (ℕ × Mem x.Table)
  find_room zero root child_stack_min count m = panics
  find_room (suc fuel) root child_stack_min count m = do
    (r, m') ← map_pages x root child_stack_min count true m
    let next = find_room fuel root (child_stack_min - stack_max_size) count m'
    elim r [
      | ok _ ↦ returns (child_stack_min, m')
      | err _ ↦ if ltb child_stack_min stack_max_size then panics else next
    ]

  -- Stack::fork
  unfoldable pub fork_stack : ℕ → ℕ → Stack → Mem x.Table → Outcome (Stack × Mem x.Table)
  unfolding find_room
  fork_stack root stack_offset_count s m =
      if ltb s.range.start stack_offset_count
      then panics
      else (let child_stack_min = (s.range.start - stack_offset_count) * page_size in
          elim (find_room (suc (child_stack_min / stack_max_size)) root child_stack_min s.usage m) [
            | panics ↦ panics
            | returns (found, m') ↦ returns (
              record {
                range = record { start = x.page_of found; end = x.page_of found + s.usage };
                usage = s.usage;
              },
              m',
            )
          ])
