-- ===== src/Proc/Schedule/Waking.antt =====
-- Waking up all processes that wait for the end of one.
use sysu_ysosv.Prelude.{
  ℕ, ◌+◌, ◌≡◌, refl, sym, ◌∙◌, Bool, true, Option, none, some, List, [], ◌∷◌, ◌++◌, append-nil,
  append_assoc, arith, count, ◌==◌, if◌then◌else◌, is_some, Option-cases, inl, inr, returns,
}
use sysu_ysosv.Prelude.Map.{lookup, insert, lookup-insert, lookup-insert_self, insert-insert}
use sysu_ysosv.Proc.Context.{Context, set_rax}
use sysu_ysosv.Proc.State.{Process, Kernel, blocked, pause, put_rax}
use sysu_ysosv.Proc.Manager.{update_proc, wake_up, wake_each, push_ready}
use sysu_ysosv.Proc.Schedule.{IsKept, status_at, has_vm, bit}
use sysu_ysosv.Proc.Schedule.Changes.{wake-IsKept, fewer-IsKept}
use sysu_ysosv.Proc.Schedule.Switching.{context_at}

-- A context that has got an answer.
abbrev pub answered : ℕ → Option Context → Option Context
answered ret none = none
answered ret (some c) = some (set_rax ret c)

module _ {T F K : Type 0} where
  pub blocked_there :
      (runs : ℕ → Bool) (held : ℕ → ℕ) (pid : ℕ) (k : Kernel T F K)
      → IsKept runs (λ j. held j + bit (pid == j)) k.processes k.ready_queue k.waiting k.families
      → (p : Process) × (lookup pid k.processes ≡ some p)
        × (p.status ≡ blocked)
        × (is_some p.proc_vm ≡ true)
  unfolding status_at has_vm
  blocked_there runs held pid k kept = elim (Option-cases (lookup pid k.processes)) [
    | inl gone ↦ absurd (ground (arith, kept.waits pid, gone))
    | inr (p, there) ↦ (
      p,
      there,
      ground (arith, kept.waits pid, there),
      ground (arith, kept.waits pid, kept.backed pid, there),
    )
  ]

  -- The kernel after one process was woken up.
  abbrev awake : ℕ → ℕ → Process → Kernel T F K → Kernel T F K
  awake ret pid p k = record k {
    processes = insert pid (pause (put_rax ret p)) k.processes;
    ready_queue = k.ready_queue ++ pid ∷ [];
  }

  wake_each-eq :
      (ret pid : ℕ) (pids : List ℕ) (p : Process) (k : Kernel T F K)
      → lookup pid k.processes ≡ some p
      → wake_each ret (pid ∷ pids) k ≡ wake_each ret pids (awake ret pid p k)
  unfolding wake_each wake_up update_proc push_ready
  wake_each-eq ret pid pids p k there =
      rw
        (
          wake_each,
          there,
          lookup-insert_self pid (put_rax ret p) k.processes,
          insert-insert pid (pause (put_rax ret p)) (put_rax ret p) k.processes,
        )
        refl

  pub record IsWoken (ret : ℕ) (pids : List ℕ) (runs : ℕ → Bool) (held : ℕ → ℕ)
      (k k' : Kernel T F K) : Type 0 where
    pub kept : IsKept runs held k'.processes k'.ready_queue k'.waiting k'.families
    pub current : k'.current ≡ k.current
    pub vm : k'.vm ≡ k.vm
    pub queue : k'.ready_queue ≡ k.ready_queue ++ pids
    pub contexts :
        (j : ℕ)
        → context_at j k'.processes ≡ (
            if count j pids == 0
            then context_at j k.processes
            else answered ret (context_at j k.processes))
    pub others : (j : ℕ) → count j pids ≡ 0 → lookup j k'.processes ≡ lookup j k.processes

  pub wake_each-IsWoken :
      (ret : ℕ) (pids : List ℕ) (runs : ℕ → Bool) (held : ℕ → ℕ) (k : Kernel T F K)
      → IsKept runs (λ j. held j + count j pids) k.processes k.ready_queue k.waiting k.families
      → (k' : Kernel T F K) × (wake_each ret pids k ≡ returns k') × IsWoken ret pids runs held k k'
  unfolding wake_each context_at
  wake_each-IsWoken ret [] runs held k kept = (
    k,
    refl,
    record {
      kept =
          fewer-IsKept (λ j. held j + 0) k.processes k.ready_queue k.waiting k.families runs held
            kept (λ j. omega arith);
      current = refl;
      vm = refl;
      queue = sym (append-nil k.ready_queue);
      contexts = λ j. refl;
      others = λ j z. refl;
    },
  )
  wake_each-IsWoken ret (pid ∷ pids) runs held k kept =
      let held1 : ℕ → ℕ = λ j. held j + count j pids in
      let kept1 =
        fewer-IsKept (λ j. held j + count j (pid ∷ pids)) k.processes k.ready_queue k.waiting
          k.families runs (λ j. held1 j + bit (pid == j)) kept (λ j. ground arith) in
      let (p, there, is, vm) = blocked_there runs held1 pid k kept1 in
      let q = pause (put_rax ret p) in
      let kept2 =
        wake-IsKept held1 k.processes k.ready_queue k.waiting k.families pid q runs kept1 refl vm in
      let (k', e, w) = wake_each-IsWoken ret pids runs held (awake ret pid p k) kept2 in
      let once : count pid pids ≡ 0 = ground (arith, kept1.waits pid) in
      (
        k',
        wake_each-eq ret pid pids p k there ∙ e,
        record {
          kept = w.kept;
          current = w.current;
          vm = w.vm;
          queue = w.queue ∙ append_assoc k.ready_queue (pid ∷ []) pids;
          contexts =
              λ j. ground (arith, w.contexts j, lookup-insert j pid q k.processes, there, once);
          others = λ j z. ground (arith, w.others j, lookup-insert j pid q k.processes, z);
        },
      )
