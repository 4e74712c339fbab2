-- ===== src/Vm/Heap.antt =====
-- pkg/kernel/src/proc/vm/heap.rs: the runtime heap of a process family. `end` is an atomic shared by
-- the forks of a process; here it is the number that it holds, handed in and back. Logging is
-- left out but for the panic in it: `trace` tells whether messages of level Trace are logged, as boot.conf asks for.
pub mod Backing
pub mod Stuck
use sysu_ysosv.Prelude.{
  ℕ, ◌+◌, ◌-◌, ◌*◌, ◌/◌, ◌≡◌, Bool, true, Option, none, some, ltb, leb, ◌==◌, ◌&&◌, if◌then◌else◌,
  Outcome, returns, panics, ◌>>=◌,
}
use sysu_ysosv.Prelude.Result.{Result, ok, err}
use sysu_ysosv.Memory.X86.{X86, Mem, UnmapError}
use sysu_ysosv.Memory.Mapping.{map_pages, unmap_pages}

abbrev pub page_size : ℕ
page_size = 4096

abbrev pub heap_start : ℕ
heap_start = 0x2000_0000_0000

abbrev pub heap_pages : ℕ
heap_pages = 0x100000

abbrev pub heap_size : ℕ
heap_size = heap_pages * page_size

abbrev pub heap_end : ℕ
heap_end = heap_start + heap_size - 8

module _ (x : X86) where
  -- The answer, the end after the call, and the memory after it.
  abbrev pub Broken : Type 0
  Broken = Option ℕ × ℕ × Mem x.Table

  -- The heap grows by pages from `upper_bound` on. `user` is `get_pid() != KERNEL_PID`.
  grow : ℕ → Bool → ℕ → ℕ → ℕ → ℕ → Mem x.Table → Outcome Broken
  unfolding map_pages
  grow root user upper_bound pages new_end end m = do
    (r, m') ← map_pages x root upper_bound pages user m
    returns (elim r [ ok _ ↦ (some new_end, new_end, m') | err _ ↦ (none, end, m') ])

  -- The heap gives up pages from `new_upper_bound` on.
  shrink : ℕ → ℕ → ℕ → ℕ → ℕ → Mem x.Table → Outcome Broken
  unfolding unmap_pages
  shrink root new_upper_bound pages new_end end m = do
    (r, m') ← unmap_pages x root new_upper_bound pages true m
    returns (elim r [ ok _ ↦ (some new_end, new_end, m') | err _ ↦ (none, end, m') ])

  -- The arm of `brk` for an address in range.
  move_end : ℕ → Bool → ℕ → ℕ → Mem x.Table → Outcome Broken
  unfolding grow shrink
  move_end root user new_end end m =
      let upper_bound = x.align_up end page_size in
      let new_upper_bound = x.align_up new_end page_size in
      if new_upper_bound == upper_bound
      then returns (some new_end, new_end, m)
      else if ltb upper_bound new_upper_bound
      then grow root user upper_bound ((new_upper_bound - upper_bound) / page_size) new_end end m
      else shrink root new_upper_bound ((upper_bound - new_upper_bound) / page_size) new_end end m

  -- Heap::brk. Of an address out of range nothing is left to `unwrap` for the message at the end.
  unfoldable pub brk : Bool → ℕ → Bool → Option ℕ → ℕ → Mem x.Table → Outcome Broken
  unfolding move_end
  brk trace root user none end m = returns (some end, end, m)
  brk trace root user (some new_end) end m =
      if leb heap_start new_end && leb new_end heap_end
      then move_end root user new_end end m
      else if trace
      then panics
      else returns (none, end, m)

  -- Heap::memory_usage
  unfoldable pub memory_usage : ℕ → ℕ → ℕ
  memory_usage base end = end - base

  -- Heap::clean_up. `end` is reset to `base` unless nothing is in use.
  unfoldable pub clean_up :
      ℕ → ℕ → ℕ → Mem x.Table → Outcome (Result UnmapError (Unit {0}) × ℕ × Mem x.Table)
  unfolding memory_usage
  clean_up root base end m =
      if memory_usage base end == 0
      then returns (ok tt, end, m)
      else (let pages = x.page_of end - x.page_of base in
          do (r, m') ← unmap_pages x root base pages true m; returns (r, base, m'))
