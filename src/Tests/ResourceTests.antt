-- ===== src/Tests/ResourceTests.antt =====
-- Descriptors: runs, and the theorems at concrete inputs.
use sysu_ysosv.Prelude.{ℕ, ◌≡◌, ◌≢◌, refl, List, none, some, [], ◌∷◌, arith, returns}
use sysu_ysosv.Prelude.Map.{lookup, insert}
use sysu_ysosv.Resource.{
  KeyQueue, FileIo, stdin, stdout, stderr, file, console, null, Console, Handles, open_handle,
  close_handle, default_handles, read_handle, write_handle,
}
use sysu_ysosv.Resource.Table.{open_after_close_clobbers}
use sysu_ysosv.Resource.Devices.{IsBounded}

-- Keys in a list, and files that give nothing.
abbrev pub keys : KeyQueue
keys = record {
  Keys = List ℕ;
  push = λ q k. some (k ∷ q);
  pop = λ q. elim q [ [] ↦ none | k ∷ rest ↦ some (k, rest) ];
}

abbrev pub files : FileIo
files = record { File = ℕ; read = λ f buf. returns (some 0, buf, f) }

files_IsBounded : IsBounded files
files_IsBounded = record {
  fits = λ f f' buf buf' size e. ground arith;
  keeps = λ f f' buf buf' size e. ground arith;
}

abbrev shell : Handles ℕ
shell = (0, console stdin) ∷ (1, console stdout) ∷ (2, console stderr) ∷ []

default_is_shell : default_handles ≡ shell
unfolding default_handles insert
default_is_shell = refl

abbrev two_files : Handles ℕ
two_files =
    (0, console stdin) ∷ (1, console stdout) ∷ (2, console stderr) ∷ (3, file 8) ∷ (4, file 9) ∷ []

abbrev typed : Console (List ℕ)
typed = record { keys = 65 ∷ []; printed = [] }

write_prints :
    (write_handle keys files 1 (72 ∷ 105 ∷ []) shell typed).1.printed ≡ (stdout, 72 ∷ 105 ∷ []) ∷ []
unfolding write_handle lookup
write_prints = refl

open_after_close_clobbers_example :
    let handles = (close_handle 3 two_files).1 in
    let (next, handles') = open_handle null handles in
    (next ≡ 4) × (lookup next handles ≢ none) × (lookup next handles' ≡ some null)
open_after_close_clobbers_example =
    open_after_close_clobbers 3 null two_files (omega arith) (omega arith) (omega arith)

read_key :
    read_handle keys files 0 (0 ∷ 0 ∷ []) shell typed
    ≡ returns (1, 65 ∷ 0 ∷ [], shell, record typed { keys = [] })
unfolding read_handle lookup insert
read_key = refl
