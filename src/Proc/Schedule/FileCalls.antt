-- ===== src/Proc/Schedule/FileCalls.antt =====
-- Whatever a call on descriptors does, as long as it returns, the queues agree with the processes after
-- it.
use sysu_ysosv.Prelude.{
  ℕ, ◌≡◌, ◌==◌, some, Option, List, arith, Option-cases, inl, inr, ◌⊎◌, Outcome, returns, panics,
  ◌>>=◌, refl,
}
use sysu_ysosv.Prelude.Map.{lookup, insert}
use sysu_ysosv.Resource.{
  KeyQueue, FileIo, Console, Handles, read_handle, open_handle, close_handle, file,
}
use sysu_ysosv.Proc.State.{Kernel, Family}
use sysu_ysosv.Proc.Calls.{current_family, read, write, open_file, close_file}
use sysu_ysosv.Proc.Schedule.{IsScheduled}
use sysu_ysosv.Proc.Schedule.Calls.{Keeps}
use sysu_ysosv.Proc.Schedule.Parking.{family-IsKept}
use sysu_ysosv.Proc.Schedule.RoundRobin.{current_there, current_proc-eq}

current_family-cases :
    {T F K : Type 0} (k : Kernel T F K)
    → IsScheduled k
    → (current_family k ≡ panics)
      ⊎ ((id : ℕ) × (f : Family F) × (current_family k ≡ returns (id, f))
          × (lookup id k.families ≡ some f))
unfolding current_family
current_family-cases k kept =
    let (p, vm, there, runs, has, pos) = current_there k kept in
    elim (Option-cases p.proc_data) [
      | inl no_data ↦ inl (rw (current_family, current_proc-eq k p pos there, no_data) refl)
      | inr (d, data_there) ↦ elim (Option-cases (lookup d.family k.families)) [
        | inl gone ↦ inl (rw (current_family, current_proc-eq k p pos there, data_there, gone) refl)
        | inr (f, found) ↦ inr (
          d.family,
          f,
          rw (current_family, current_proc-eq k p pos there, data_there, found) refl,
          found,
        )
      ]
    ]

module _ {T : Type 0} (q : KeyQueue) (io : FileIo) where
  -- The family has other descriptors.
  other_handles :
      (id : ℕ) (f : Family io.File) (handles : Handles io.File) (console : Console q.Keys)
      (k : Kernel T io.File q.Keys)
      → IsScheduled k
      → lookup id k.families ≡ some f
      → IsScheduled (record k {
        families = insert id (record f { resources = handles }) k.families;
        console = console;
      })
  other_handles id f handles console k kept found =
      family-IsKept (λ j. j == k.current) (λ j. 0) k.processes k.ready_queue k.waiting k.families
        (λ j. 0) id f (record f { resources = handles }) kept found (kept.sems_Ascends id f found)
        (λ j. omega arith)

  -- What read answers.
  abbrev pub ReadKeeps : Outcome (ℕ × List ℕ × Kernel T io.File q.Keys) → Type 0
  ReadKeeps panics = Unit {0}
  ReadKeeps (returns (count, buf, k')) = IsScheduled k'

  pub read-Keeps :
      (fd : ℕ) (buf : List ℕ) (k : Kernel T io.File q.Keys)
      → IsScheduled k
      → ReadKeeps (read q io fd buf k)
  unfolding read
  read-Keeps fd buf k kept = elim (current_family-cases k kept) [
    | inl e ↦ rw (read, e) tt
    | inr (id, f, e, found) ↦
        rw (read, e) (by_result id f found (read_handle q io fd buf f.resources k.console))
  ]
    where
      by_result :
          (id : ℕ) (f : Family io.File)
          → lookup id k.families ≡ some f
          → (r : Outcome (ℕ × List ℕ × Handles io.File × Console q.Keys))
          → ReadKeeps (do
            (count, buf', handles, console) ← r
            returns (
              count,
              buf',
              record k {
                families = insert id (record f { resources = handles }) k.families;
                console = console;
              },
            ))
      by_result id f found panics = tt
      by_result id f found (returns (count, buf', handles, console)) =
          other_handles id f handles console k kept found

  pub write-Keeps :
      (fd : ℕ) (buf : List ℕ) (k : Kernel T io.File q.Keys)
      → IsScheduled k
      → Keeps (write q io fd buf k)
  unfolding write
  write-Keeps fd buf k kept = elim (current_family-cases k kept) [
    | inl e ↦ rw (write, e) tt
    | inr (id, f, e, found) ↦ rw (write, e) kept
  ]

  pub open_file-Keeps :
      (found : Option io.File) (k : Kernel T io.File q.Keys)
      → IsScheduled k
      → Keeps (open_file q io found k)
  unfolding open_file
  open_file-Keeps found k kept = elim (current_family-cases k kept) [
    | inl e ↦ rw (open_file, e) tt
    | inr (id, f, e, there) ↦ elim (Option-cases found) [
      | inl missing ↦ rw (open_file, e, missing) tt
      | inr (handle, is) ↦
          rw (open_file, e, is)
            (other_handles id f (open_handle (file handle) f.resources).1 k.console k kept there)
    ]
  ]

  pub close_file-Keeps :
      (fd : ℕ) (k : Kernel T io.File q.Keys) → IsScheduled k → Keeps (close_file q io fd k)
  unfolding close_file
  close_file-Keeps fd k kept = elim (current_family-cases k kept) [
    | inl e ↦ rw (close_file, e) tt
    | inr (id, f, e, found) ↦
        rw (close_file, e)
          (other_handles id f (close_handle fd f.resources).1 k.console k kept found)
  ]
