-- ===== src/Tests/HeapTests.antt =====
-- The heap: runs, and the theorems at concrete inputs.
use sysu_ysosv.Prelude.{
  ◌+◌, ◌≡◌, refl, ℕ, Option, Outcome, returns, panics, true, none, some, [], ◌∷◌, arith,
}
use sysu_ysosv.Memory.Frames.{allocate_frame}
use sysu_ysosv.Memory.X86.{Mem}
use sysu_ysosv.Memory.Mapping.{data_flags}
use sysu_ysosv.Memory.Mapping.Ranges.{Filled}
use sysu_ysosv.Vm.Heap.{heap_start, brk, Broken}
use sysu_ysosv.Vm.Heap.Backing.{first_page, pages_to, IsBacked, Answers, brk-Answers}
use sysu_ysosv.Tests.Machine.{machine, machine_laws, blank, put}

-- Two frames are free, and the heap is empty.
abbrev memory : Mem machine.Table
memory = blank (0x1000 ∷ 0x2000 ∷ [])

memory-IsBacked : IsBacked machine machine_laws 9 heap_start memory
memory-IsBacked = record {
  above = omega arith;
  below = omega arith;
  used = λ p w e. ground arith;
  free = λ p w. refl;
}

-- What a call answered
abbrev answer : Outcome (Broken machine) → Option ℕ
answer panics = none
answer (returns r) = r.0

grows :
    answer (brk machine true 9 true (some (heap_start + 5000)) heap_start memory)
    ≡ some (heap_start + 5000)
unfolding brk allocate_frame
grows = refl

out_of_range : brk machine true 9 true (some 1) heap_start memory ≡ panics
unfolding brk
out_of_range = refl

too_much : answer (brk machine true 9 true (some (heap_start + 9000)) heap_start memory) ≡ none
unfolding brk allocate_frame
too_much = refl

brk-Answers_example :
    Answers machine machine_laws true 9 true
      (some (heap_start + 9000))
      heap_start
      memory
      (brk machine true 9 true (some (heap_start + 9000)) heap_start memory)
brk-Answers_example =
    brk-Answers machine machine_laws true 9 heap_start true (some (heap_start + 9000)) memory
      memory-IsBacked

-- The first page of the heap was mapped by a growth that failed at the second.
abbrev half_grown : Mem machine.Table
half_grown = record memory {
  table = put 9 first_page (some (0x1000, data_flags true)) memory.table;
}

half_grown-Filled :
    Filled machine machine_laws 9
      (data_flags true)
      (first_page + pages_to heap_start)
      1
      memory
      half_grown
half_grown-Filled = record {
  was_free = λ p w. refl;
  is_set = λ p w. ground arith;
  same = λ p w. ground arith;
}
