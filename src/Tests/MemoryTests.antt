-- ===== src/Tests/MemoryTests.antt =====
-- Frames and page ranges: runs, and the theorems at concrete inputs.
use sysu_ysosv.Prelude.{
  count, ℕ, zero, suc, ◌*◌, ◌≤◌, ◌/◌, ◌≡◌, refl, returns, true, List, none, some, [], ◌∷◌, arith,
}
use sysu_ysosv.Prelude.Result.{ok}
use sysu_ysosv.Memory.Frames.{Frames, allocate_frame, deallocate_frame}
use sysu_ysosv.Memory.Frames.Ownership.{
  Request, takes, gives, serve, serve_all, copies, copies-serve_all, unused,
  allocate_frame_exclusive,
}
use sysu_ysosv.Memory.X86.{Mem}
use sysu_ysosv.Memory.Mapping.{map_from, map_pages, unmap_pages}
use sysu_ysosv.Memory.Mapping.Ranges.{MapsAll, map_pages_lem}
use sysu_ysosv.Memory.Mapping.Unmapping.{unmap_pages-map_pages}
use sysu_ysosv.Memory.User.{LeavesOut, init_user_heap, init_user_heap-LeavesOut}
use sysu_ysosv.Tests.Machine.{machine, machine_laws, blank}

abbrev three : Frames
three = record { size = 3; used = 0; frames = 0x1000 ∷ 0x2000 ∷ 0x3000 ∷ []; recycled = [] }

abbrev requests : List Request
requests = takes ∷ takes ∷ gives 0x1000 ∷ takes ∷ []

copies-serve_all_example :
    copies 0x2000 (serve_all (unused three) requests) ≡ copies 0x2000 (unused three)
copies-serve_all_example = copies-serve_all 0x2000 (unused three) requests

-- Of three different frames each stands once.
three_once : (x : ℕ) → copies x (unused three) ≤ 1
three_once x = ground arith

given_again :
    (allocate_frame (serve_all (unused three) (takes ∷ gives 0x1000 ∷ [])).alloc).0 ≡ some 0x1000
unfolding serve_all serve allocate_frame deallocate_frame
given_again = refl

allocate_frame_exclusive_example :
    count 0x1000 (serve_all (unused three) (takes ∷ gives 0x1000 ∷ [])).held ≡ 0
allocate_frame_exclusive_example =
    allocate_frame_exclusive three (takes ∷ gives 0x1000 ∷ []) 0x1000 three_once given_again

abbrev nothing : Frames
nothing = record { size = 0; used = 0; frames = []; recycled = [] }

abbrev memory : Mem machine.Table
memory = blank (0x1000 ∷ 0x2000 ∷ [])

map_pages_lem_example :
    MapsAll machine machine_laws 9
      (0x8000 / 4096)
      2
      true
      memory
      (map_pages machine 9 0x8000 2 true memory)
map_pages_lem_example =
    map_pages_lem machine machine_laws 9 0x8000 2 true memory (omega arith) (omega arith)

abbrev mapped : Mem machine.Table
mapped = (map_from machine 9 8 2 true memory).1

maps :
    map_pages machine 9 0x8000 2 true memory ≡ returns (ok (record { start = 8; end = 10 }), mapped)
unfolding map_pages allocate_frame
maps = refl

unmap_pages-map_pages_example :
    (m'' : Mem machine.Table) × (unmap_pages machine 9 0x8000 2 true mapped ≡ returns (ok tt, m''))
    × ((p : ℕ) → machine.entry m''.table 9 p ≡ none)
unmap_pages-map_pages_example =
    unmap_pages-map_pages machine machine_laws 9 0x8000 2 true true memory mapped
      (record { start = 8; end = 10 }) (omega arith) maps

abbrev many : ℕ → List ℕ
many zero = []
many (suc n) = 4096 * suc n ∷ many n

abbrev plenty : Mem machine.Table
plenty = blank (many 300)

init_user_heap-LeavesOut_example :
    LeavesOut machine machine_laws 9 plenty (init_user_heap machine 9 plenty)
init_user_heap-LeavesOut_example = init_user_heap-LeavesOut machine machine_laws 9 plenty
