-- ===== src/Proc/Schedule/Dropping.antt =====
-- The memory of a process that ends is given back without a panic.
use sysu_ysosv.Prelude.{
  ℕ, ◌+◌, ◌-◌, ◌*◌, ◌/◌, ◌^◌, ◌<◌, ◌≤◌, ◌≡◌, refl, true, false, some, arith, ◌==◌, Bool-cases, inl,
  inr, Outcome, returns, ◌>>=◌,
}
use sysu_ysosv.Prelude.Result.{Result, ok, err}
use sysu_ysosv.Prelude.Map.{lookup}
use sysu_ysosv.Memory.X86.{X86, Laws, Mem, UnmapError}
use sysu_ysosv.Memory.Mapping.{addressed, unmap_pages}
use sysu_ysosv.Memory.Mapping.Ranges.{addressed-eq}
use sysu_ysosv.Vm.Heap.{heap_start, heap_end, clean_up}
use sysu_ysosv.Vm.Stack.{Stack, clean_up_stack}
use sysu_ysosv.Proc.AddressSpace.{ProcessVm, Spaces, Space, free_space, drop_vm}

-- The stack of a process lies in user memory and not at its first page, and its heap within the heap.
pub record IsInUserSpace (vm : ProcessVm) (space : Space) : Type 0 where
  pub stack_start : 0 < vm.stack.range.start
  pub stack_low : vm.stack.range.start * 4096 < 2 ^ 47
  pub stack_high : vm.stack.range.end * 4096 < 2 ^ 47
  pub heap_high : space.heap_end ≤ heap_end

-- A call that returns.
abbrev pub Returns : {A : Type 0} → Outcome A → Type 0
Returns {A} r = (a : A) × (r ≡ returns a)

then_Returns :
    {A B : Type 0} (r : Outcome A) (f : A → Outcome B)
    → Returns r
    → ((a : A) → Returns (f a))
    → Returns (do a ← r; f a)
then_Returns r f (a, e) h = rw e (h a)

module _ (x : X86) (laws : Laws x) where
  unmap_pages-Returns :
      (root addr pages : ℕ) (m : Mem x.Table)
      → 0 < addr / 4096 + pages
      → addr + pages * 4096 < 2 ^ 47
      → Returns (unmap_pages x root addr pages true m)
  unfolding unmap_pages
  unmap_pages-Returns root addr pages m pos small =
      then_Returns (addressed x addr pages) _ (_, addressed-eq x laws addr pages pos small)
        (λ last. (_, refl))

  clean_up_stack-Returns :
      (vm : ProcessVm) (space : Space) (m : Mem x.Table)
      → IsInUserSpace vm space
      → Returns (clean_up_stack x vm.root vm.stack m)
  unfolding clean_up_stack
  clean_up_stack-Returns vm space m user =
      let s = vm.stack in
      elim (Bool-cases (s.usage == 0)) [
        | inl unused ↦ rw unused ((ok tt, s, m), refl)
        | inr used ↦ rw used (
            then_Returns
              (unmap_pages x vm.root (s.range.start * 4096) (s.range.end - s.range.start) true m) _
              (unmap_pages-Returns vm.root (s.range.start * 4096) (s.range.end - s.range.start) m
                (omega (arith, user.stack_start)) (omega (arith, user.stack_low, user.stack_high)))
              (λ r. (_, refl)))
      ]

  clean_up-Returns :
      (root end : ℕ) (m : Mem x.Table) → end ≤ heap_end → Returns (clean_up x root heap_start end m)
  unfolding clean_up
  clean_up-Returns root end m high = elim (Bool-cases (end - heap_start == 0)) [
    | inl empty ↦ rw empty ((ok tt, end, m), refl)
    | inr grown ↦
        let pages = x.page_of end - x.page_of heap_start in
        rw grown (
          then_Returns (unmap_pages x root heap_start pages true m) _
            (unmap_pages-Returns root heap_start pages m (omega arith)
              (omega (arith, high, laws.page_of_lem end, laws.page_of_lem heap_start)))
            (λ r. (_, refl)))
  ]

  free_space-Returns :
      (vm : ProcessVm) (space : Space) (m : Mem x.Table)
      → IsInUserSpace vm space
      → Returns (free_space x vm space.heap_end m)
  unfolding free_space
  free_space-Returns vm space m user =
      then_Returns (clean_up x vm.root heap_start space.heap_end m) _
        (clean_up-Returns vm.root space.heap_end m user.heap_high) (λ r. (_, refl))

  pub drop_vm-Returns :
      (vm : ProcessVm) (s : Spaces x.Table) (space : Space)
      → lookup vm.root s.spaces ≡ some space
      → IsInUserSpace vm space
      → Returns (drop_vm x vm s)
  unfolding drop_vm
  drop_vm-Returns vm s space there user =
      rw (drop_vm, there)
        (then_Returns (clean_up_stack x vm.root vm.stack s.mem) _
          (clean_up_stack-Returns vm space s.mem user)
          (λ r. then_Returns (freeing r) _ (freeing-Returns r) (λ mem. (_, refl))))
    where
      freeing : Result UnmapError (Unit {0}) × Stack × Mem x.Table → Outcome (Mem x.Table)
      freeing r = elim r.0 [
        | err _ ↦ returns r.2
        | ok _ ↦ elim (space.using_count == 1) [
          | true ↦ free_space x vm space.heap_end r.2
          | false ↦ returns r.2
        ]
      ]

      freeing-Returns :
          (r : Result UnmapError (Unit {0}) × Stack × Mem x.Table) → Returns (freeing r)
      freeing-Returns (err _, _, m) = (m, refl)
      freeing-Returns (ok _, _, m) = elim (Bool-cases (space.using_count == 1)) [
        | inl last ↦ rw (freeing, last) (free_space-Returns vm space m user)
        | inr others ↦ rw (freeing, others) (m, refl)
      ]
