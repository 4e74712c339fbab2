-- ===== src/Tests/SpawnTests.antt =====
-- A program that is started, at concrete inputs.
use sysu_ysosv.Prelude.{ℕ, List, [], ◌∷◌, Outcome, returns, panics}
use sysu_ysosv.Elf.{Filled}
use sysu_ysosv.Proc.AddressSpace.{ProcessVm, Spaces, clone_vm}
use sysu_ysosv.Proc.State.{Kernel}
use sysu_ysosv.Proc.Spawn.{Program, UserSelectors, load_process}
use sysu_ysosv.Tests.Machine.{machine, Tables, blank}
use sysu_ysosv.Tests.ProcTests.{memory, kernel}
use sysu_ysosv.Tests.ElfTests.{file_bytes, free_frames, code, note}

abbrev program : Program
program = record { segments = code ∷ note ∷ []; entry_point = 0x400010; input = file_bytes }

abbrev pub selectors : UserSelectors
selectors = record { user_code_selector = 0x23; user_data_selector = 0x1b }

abbrev roomy : Kernel Tables ℕ (List ℕ)
roomy = record kernel { vm = record kernel.vm { mem = blank free_frames } }

abbrev cloned : Outcome (ProcessVm × Spaces Tables) → ProcessVm × Spaces Tables
cloned (returns r) = r
cloned panics = (memory, roomy.vm)

abbrev space : Outcome (ProcessVm × Spaces Tables)
space = clone_vm machine memory roomy.vm

abbrev before : Filled Tables
before = record { mem = (cloned space).1.mem; ram = λ a. 7 }

abbrev made : Outcome (ℕ × ProcessVm × Filled Tables) → ℕ × ProcessVm × Filled Tables
made (returns r) = r
made panics = (0, memory, before)

abbrev process_made : Outcome (ℕ × ProcessVm × Filled Tables)
process_made = load_process machine 0x10000 program 5 ((cloned space).0) before
