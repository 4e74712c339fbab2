-- ===== src/Proc/Schedule/Spawned.antt =====
-- Whatever the start of a program does, as long as it returns, the queues agree with the processes after it.
use sysu_ysosv.Prelude.{
  is_some, ℕ, ◌≤◌, ◌≡◌, ◌≢◌, refl, Bool, true, none, List, [], ◌∷◌, ◌++◌, arith, ◌==◌, Outcome,
  returns, panics, unwrap, ◌>>=◌,
}
use sysu_ysosv.Prelude.Map.{Map, lookup, insert, lookup-insert}
use sysu_ysosv.Prelude.Map.Totals.{total-insert, insert-Ascends}
use sysu_ysosv.Memory.X86.{X86}
use sysu_ysosv.Elf.{Ram}
use sysu_ysosv.Proc.AddressSpace.{Spaces, clone_vm}
use sysu_ysosv.Proc.State.{Process, Kernel, Family, next_pid, ready}
use sysu_ysosv.Proc.Manager.{push_ready, current_proc, kernel_pid}
use sysu_ysosv.Proc.Spawn.{Program, UserSelectors, fresh, load_process, spawn, elf_spawn}
use sysu_ysosv.Proc.Schedule.{IsKept, IsScheduled, waits_for}
use sysu_ysosv.Proc.Schedule.Changes.{begin-IsKept}

lookup-fresh : {V : Type 0} (m : Map V) (id : ℕ) → fresh m ≤ id → lookup id m ≡ none
unfolding lookup fresh
lookup-fresh [] id le = refl
lookup-fresh ((j, v) ∷ m) id le = ground (arith, lookup-fresh m id)

-- A family without semaphores is new.
found-IsKept :
    {F : Type 0} (runs : ℕ → Bool) (held : ℕ → ℕ) (processes : Map Process) (queue : List ℕ)
    (waiting : Map (List ℕ)) (families : Map (Family F)) (id : ℕ) (f : Family F)
    → IsKept runs held processes queue waiting families
    → lookup id families ≡ none
    → f.semaphores ≡ []
    → IsKept runs held processes queue waiting (insert id f families)
found-IsKept {F = F} runs held processes queue waiting families id f kept gone empty = record {
  queued = kept.queued;
  waits = λ j. ground (
    arith,
    kept.waits j,
    gone,
    empty,
    total-insert (λ (g : Family F). waits_for j g.semaphores) 0 id f families kept.families_Ascends,
  );
  active = kept.active;
  backed = kept.backed;
  absent = kept.absent;
  waiting_Ascends = kept.waiting_Ascends;
  families_Ascends = insert-Ascends 0 id f families kept.families_Ascends (omega arith);
  sems_Ascends =
      λ i g e. ground (arith, lookup-insert i id f families, kept.sems_Ascends i g, empty, e);
}

-- A new process, of a new family.
pub spawned-IsScheduled :
    {T F K : Type 0} (k : Kernel T F K) (q : Process) (f : Family F) (s : Spaces T)
    → IsScheduled k
    → next_pid k.counter ≢ 0
    → lookup (next_pid k.counter) k.processes ≡ none
    → q.status ≡ ready
    → is_some q.proc_vm ≡ true
    → f.semaphores ≡ []
    → IsScheduled (
        push_ready (next_pid k.counter) (record k {
          processes = insert (next_pid k.counter) q k.processes;
          counter = next_pid k.counter;
          families = insert (fresh k.families) f k.families;
          vm = s;
        }))
unfolding push_ready
spawned-IsScheduled {F = F} k q f s kept pos free is_ready backed empty =
    let pid = next_pid k.counter in
    found-IsKept (λ j. j == k.current) (λ j. 0) (insert pid q k.processes)
      (k.ready_queue ++ pid ∷ []) k.waiting k.families (fresh k.families) f
      (begin-IsKept (λ j. 0) k.processes k.ready_queue k.waiting k.families pid q
        (λ j. j == k.current) kept free pos is_ready backed)
      (lookup-fresh k.families (fresh k.families) (omega arith)) empty

module _ (x : X86) {F K : Type 0} (physical_offset : ℕ) (selectors : UserSelectors)
    (program : Program) where
  abbrev pub Spawned : Outcome (ℕ × Kernel x.Table F K × Ram) → Type 0
  Spawned panics = Unit {0}
  Spawned (returns (pid, k', ram)) = IsScheduled k'

  then_Spawned :
      {A : Type 0} (r : Outcome A) (f : A → Outcome (ℕ × Kernel x.Table F K × Ram))
      → ((a : A) → Spawned (f a))
      → Spawned (do a ← r; f a)
  then_Spawned panics f h = tt
  then_Spawned (returns a) f h = h a

  pub elf_spawn-Keeps :
      (k : Kernel x.Table F K) (ram : Ram)
      → IsScheduled k
      → next_pid k.counter ≢ 0
      → lookup (next_pid k.counter) k.processes ≡ none
      → Spawned (elf_spawn x physical_offset selectors program k ram)
  unfolding elf_spawn spawn
  elf_spawn-Keeps k ram kept pos free = then_Spawned (current_proc k) _ (λ now.
      then_Spawned (unwrap (lookup kernel_pid k.processes)) _ (λ kproc.
        then_Spawned (unwrap kproc.proc_vm) _ (λ kernel_vm.
          then_Spawned (clone_vm x kernel_vm k.vm) _ (λ own.
            then_Spawned
              (load_process x physical_offset program (next_pid k.counter) own.0
                (record { mem = own.1.mem; ram = ram }))
              _
              (λ loaded.
                then_Spawned (x.virt_addr program.entry_point) _
                  (λ entry. spawned-IsScheduled k _ _ own.1 kept pos free refl refl refl))))))
