-- ===== src/Tests/ForkTests.antt =====
-- A fork, and timer interrupts one after the other, at concrete inputs.
use sysu_ysosv.Prelude.{ℕ, ◌≡◌, refl, List, [], ◌∷◌, arith, Outcome, returns, panics}
use sysu_ysosv.Prelude.Map.{lookup, insert}
use sysu_ysosv.Memory.Frames.{allocate_frame}
use sysu_ysosv.Memory.Mapping.{map_pages}
use sysu_ysosv.Vm.Stack.{stack_max_pages}
use sysu_ysosv.Proc.Context.{Context, default_context}
use sysu_ysosv.Proc.AddressSpace.{ProcessVm, Spaces, fork_vm}
use sysu_ysosv.Proc.State.{Kernel, running}
use sysu_ysosv.Proc.Manager.{child_context, fetch_ready}
use sysu_ysosv.Proc.Calls.{fork, switch}
use sysu_ysosv.Proc.Schedule.{IsScheduled}
use sysu_ysosv.Proc.Schedule.Fairness.{switch_each, switch_each-reaches}
use sysu_ysosv.Proc.Schedule.Reach.{here, after, timer, forks, Reach-IsScheduled}
use sysu_ysosv.Proc.Schedule.Forking.{Forks, child_answer, fork-Forks}
use sysu_ysosv.Tests.Machine.{machine, Tables, blank}
use sysu_ysosv.Tests.ProcTests.{memory, data_of, process, kernel, kernel-IsScheduled}

switch_each-reaches_example :
    (k' : Kernel Tables ℕ (List ℕ)) × (switch_each (default_context ∷ []) kernel ≡ returns k')
    × IsScheduled k'
    × (k'.current ≡ 1)
switch_each-reaches_example =
    switch_each-reaches [] [] 1 (default_context ∷ []) kernel kernel-IsScheduled refl refl

-- The kernel with two frames that are free.
abbrev roomy : Kernel Tables ℕ (List ℕ)
roomy = record kernel { vm = record kernel.vm { mem = blank (70 ∷ 71 ∷ []) } }

abbrev returned : Outcome (ProcessVm × Spaces Tables) → ProcessVm × Spaces Tables
returned (returns r) = r
returned panics = (memory, roomy.vm)

abbrev copied : Outcome (ProcessVm × Spaces Tables)
copied = fork_vm machine stack_max_pages memory roomy.vm

copied-returns : copied ≡ returns (returned copied)
unfolding fork_vm lookup map_pages allocate_frame
copied-returns = refl

fork-Forks_example :
    Forks machine default_context
      (child_answer machine (returned copied).0 default_context)
      1
      (5 ∷ [])
      roomy
      (fork machine default_context roomy)
unfolding lookup
fork-Forks_example =
    fork-Forks machine default_context 1 (5 ∷ []) roomy (process running) data_of memory
      ((returned copied).0) ((returned copied).1) kernel-IsScheduled refl refl refl copied-returns
      refl (omega arith) refl refl

abbrev resumed : Outcome (Context × Kernel Tables ℕ (List ℕ)) → Context × Kernel Tables ℕ (List ℕ)
resumed (returns r) = r
resumed panics = (default_context, kernel)

-- A fork, and a timer interrupt after it.
abbrev split : Outcome (Context × Kernel Tables ℕ (List ℕ))
split = fork machine default_context roomy

split-returns : split ≡ returns (resumed split)
unfolding fork lookup insert fork_vm map_pages allocate_frame child_context
split-returns = refl

abbrev switched : Outcome (Context × Kernel Tables ℕ (List ℕ))
switched = switch default_context ((resumed split).1)

switched-returns : switched ≡ returns (resumed switched)
unfolding switch fork fetch_ready lookup insert fork_vm map_pages allocate_frame child_context
switched-returns = refl

Reach-IsScheduled_example : IsScheduled ((resumed switched).1)
unfolding lookup
Reach-IsScheduled_example =
    let k1 = (resumed split).1 in
    let k2 = (resumed switched).1 in
    Reach-IsScheduled machine roomy k2
      (after roomy k1 k2
        (after roomy roomy k1 (here roomy)
          (forks default_context ((resumed split).0) roomy k1 split-returns))
        (timer default_context ((resumed switched).0) k1 k2 switched-returns))
      ((tt, (omega arith, refl)), tt) kernel-IsScheduled
