-- ===== src/Tests/Machine.antt =====
-- A machine whose page tables are functions: the assumptions on the x86_64 crate can be met.
use sysu_ysosv.Prelude.{
  ℕ, ◌+◌, ◌*◌, ◌/◌, refl, Option, none, some, [], arith, ◌==◌, ◌&&◌, if◌then◌else◌, returns, panics,
  ◌-◌, ltb, is_some, List,
}
use sysu_ysosv.Prelude.Result.{Result, ok, err}
use sysu_ysosv.Memory.X86.{
  X86, Laws, Mem, Flags, MapToError, UnmapError, page_already_mapped, page_not_mapped,
}

abbrev pub Tables : Type 0
Tables = ℕ → ℕ → Option (ℕ × Flags)

abbrev pub put : ℕ → ℕ → Option (ℕ × Flags) → Tables → Tables
put root page v t r p = if root == r && page == p then v else t r p

abbrev pub toy_map_to : ℕ → ℕ → ℕ → Flags → Mem Tables → Result MapToError (Unit {0}) × Mem Tables
toy_map_to root page frame flags m =
    if is_some (m.table root page)
    then (err page_already_mapped, m)
    else (ok tt, record m { table = put root page (some (frame, flags)) m.table })

abbrev pub toy_unmap : ℕ → ℕ → Tables → Result UnmapError ℕ × Tables
toy_unmap root page t = elim (t root page) [
  | none ↦ (err page_not_mapped, t)
  | some e ↦ (ok e.0, put root page none t)
]

abbrev pub machine : X86
machine = record {
  Table = Tables;
  page_of = λ addr. addr / 4096;
  align_up = λ addr align. (addr + 4095) / 4096 * 4096;
  frame_of = λ addr. addr / 4096 * 4096;
  huge_of = λ addr. addr / 2097152 * 2097152;
  virt_addr = λ addr. returns addr;
  virt_add = λ addr n. returns (addr + n);
  virt_sub = λ addr n. if ltb addr n then panics else returns (addr - n);
  phys_addr = λ addr. returns addr;
  phys_add = λ addr n. returns (addr + n);
  phys_sub = λ addr n. if ltb addr n then panics else returns (addr - n);
  entry = λ t root page. t root page;
  map_to = toy_map_to;
  map_huge = λ root page frame flags m. (ok tt, m);
  unmap = toy_unmap;
  copy_root = λ from to t r. if to == r then t from else t r;
  clean_tables = λ root m. m;
}

pub machine_laws : Laws machine
machine_laws = record {
  page_of_lem = λ addr. refl;
  align_up_lem = λ addr. refl;
  virt_addr_lem = λ addr h. refl;
  virt_add_lem = λ addr n h. refl;
  virt_sub_lem = λ addr n le h. ground arith;
  phys_add_lem = λ addr n h. refl;
  phys_sub_lem = λ addr n le h. ground arith;
  frame_of_lem = λ addr. refl;
  unmap_none = λ root page frame t e h. ground arith;
  map_to_frames = λ root page frame flags m f. ground arith;
  map_to_ok = λ root page frame flags m m' e. (ground arith, λ p. ground arith);
  map_to_err = λ root page frame flags m m' e h p. ground arith;
  unmap_ok = λ root page frame flags t e. ground arith;
  unmap_entry = λ root page frame t t' e p. ground arith;
  unmap_err = λ root page t t' e h p. ground arith;
}

-- Nothing is mapped, and `n` frames are free.
abbrev pub blank : List ℕ → Mem Tables
blank frames = record {
  table = λ root page. none;
  frames = record { size = 4; used = 0; frames = frames; recycled = [] };
}
