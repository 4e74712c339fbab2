-- ===== src/Proc/Schedule/Parking.antt =====
-- Processes begin to wait, and are taken out of what they waited in.
use sysu_ysosv.Prelude.{
  ℕ, ◌+◌, ◌≤◌, ◌≡◌, Bool, Option, none, some, List, [], ◌∷◌, arith, count, ◌==◌,
}
use sysu_ysosv.Prelude.Map.{Map, lookup, insert, remove, add, Ascends, lookup-insert}
use sysu_ysosv.Prelude.Map.Totals.{
  total, total-insert, total-remove, insert-Ascends, remove-Ascends,
}
use sysu_ysosv.Proc.State.{Process, Family}
use sysu_ysosv.Proc.Schedule.{IsKept, bit, waits_for}

pub count-add : (j pid : ℕ) (s : List ℕ) → count j (add pid s) ≤ count j s + bit (pid == j)
unfolding add
count-add j pid [] = ground arith
count-add j pid (i ∷ s) = ground (arith, count-add j pid s)

-- The set at a key, or the empty one.
abbrev pub set_at : Option (List ℕ) → List ℕ
set_at none = []
set_at (some s) = s

pub count-set_at :
    (j key : ℕ) (waiting : Map (List ℕ))
    → Ascends 0 waiting
    → count j (set_at (lookup key waiting)) ≤ total (count j) waiting
count-set_at j key waiting asc = ground (arith, total-remove (count j) 0 key waiting asc)

module _ {F : Type 0} (runs : ℕ → Bool) (held : ℕ → ℕ) (processes : Map Process) (queue : List ℕ)
    (waiting : Map (List ℕ)) (families : Map (Family F)) where
  -- A held process is put in the set of those that wait for the end of a process.
  pub park-IsKept :
      (pid key : ℕ)
      → IsKept runs (λ j. held j + bit (pid == j)) processes queue waiting families
      → IsKept runs held processes queue
          (insert key (add pid (set_at (lookup key waiting))) waiting)
          families
  park-IsKept pid key kept =
      let set = add pid (set_at (lookup key waiting)) in
      record {
        queued = kept.queued;
        waits = λ j. ground (
          arith,
          kept.waits j,
          total-insert (count j) 0 key set waiting kept.waiting_Ascends,
          count-add j pid (set_at (lookup key waiting)),
        );
        active = kept.active;
        backed = kept.backed;
        absent = kept.absent;
        waiting_Ascends = insert-Ascends 0 key set waiting kept.waiting_Ascends (omega arith);
        families_Ascends = kept.families_Ascends;
        sems_Ascends = kept.sems_Ascends;
      }

  -- The set of those that wait for the end of a process is taken out.
  pub take-IsKept :
      (key : ℕ) (set : List ℕ)
      → IsKept runs held processes queue waiting families
      → lookup key waiting ≡ some set
      → IsKept runs (λ j. held j + count j set) processes queue (remove key waiting) families
  take-IsKept key set kept there = record {
    queued = kept.queued;
    waits = λ j.
        ground
          (arith, kept.waits j, total-remove (count j) 0 key waiting kept.waiting_Ascends, there);
    active = kept.active;
    backed = kept.backed;
    absent = kept.absent;
    waiting_Ascends = remove-Ascends 0 key waiting kept.waiting_Ascends;
    families_Ascends = kept.families_Ascends;
    sems_Ascends = kept.sems_Ascends;
  }

  -- The semaphores of a family change.
  pub family-IsKept :
      (held' : ℕ → ℕ) (id : ℕ) (f f' : Family F)
      → IsKept runs held processes queue waiting families
      → lookup id families ≡ some f
      → Ascends 0 f'.semaphores
      → ((j : ℕ) → waits_for j f'.semaphores + held' j ≤ waits_for j f.semaphores + held j)
      → IsKept runs held' processes queue waiting (insert id f' families)
  family-IsKept held' id f f' kept there asc le = record {
    queued = kept.queued;
    waits = λ j. ground (
      arith,
      kept.waits j,
      le j,
      there,
      total-insert (λ (g : Family F). waits_for j g.semaphores) 0 id f' families
          kept.families_Ascends,
    );
    active = kept.active;
    backed = kept.backed;
    absent = kept.absent;
    waiting_Ascends = kept.waiting_Ascends;
    families_Ascends = insert-Ascends 0 id f' families kept.families_Ascends (omega arith);
    sems_Ascends =
        λ i g e. ground (arith, lookup-insert i id f' families, kept.sems_Ascends i g, asc, e);
  }
