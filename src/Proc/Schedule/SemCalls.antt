-- ===== src/Proc/Schedule/SemCalls.antt =====
-- Whatever an operation on semaphores does, as long as it returns, the queues agree with the
-- processes after it.
use sysu_ysosv.Prelude.{
  ℕ, ◌+◌, ◌-◌, ◌%◌, ◌^◌, ◌≤◌, ◌≡◌, refl, sym, ap, subst, ◌∙◌, false, none, some, List, [], ◌∷◌,
  arith, count, count-append, ◌==◌, Bool-cases, Option-cases, if◌then◌else◌, ◌>>=◌, ◌⊎◌, inl, inr,
  Outcome, returns, panics,
}
use sysu_ysosv.Prelude.Map.{lookup, insert, Ascends}
use sysu_ysosv.Prelude.Map.Totals.{total-insert, total-remove, insert-Ascends, remove-Ascends}
use sysu_ysosv.Sync.{
  Sems, Semaphore, ok, not_exist, block, wake_up, wait_sem, signal_sem, insert_sem, remove_sem, new,
}
use sysu_ysosv.Proc.Context.{Context}
use sysu_ysosv.Proc.State.{Process, ProcessData, Kernel, Family, running, save, tick}
use sysu_ysosv.Proc.State
use sysu_ysosv.Proc.Calls.{
  current_family, on_sems, sem_wait, sem_wait_as, sem_signal, new_sem, drop_sem,
}
use sysu_ysosv.Proc.Schedule.{IsScheduled, bit, waits_for}
use sysu_ysosv.Proc.Schedule.Calls.{Keeps, switch_next-Keeps, stopped-IsKept}
use sysu_ysosv.Proc.Schedule.Changes.{wake-IsKept}
use sysu_ysosv.Proc.Schedule.Parking.{family-IsKept}
use sysu_ysosv.Proc.Schedule.RoundRobin.{current_there, current_proc-eq}
use sysu_ysosv.Proc.Schedule.Semaphores.{
  sem_wait-eq-as, sem_wait-eq, sem_signal-eq, sem-IsKept, wait_sem-eq, signal_sem-eq, queued,
  dequeued, with_sem,
}
use sysu_ysosv.Proc.Schedule.Waking.{blocked_there}
use sysu_ysosv.Proc.Schedule.Waiting.{stopped}

insert_sem-fewer :
    (key value : ℕ) (sems : Sems)
    → Ascends 0 sems
    → Ascends 0 (insert_sem key value sems).1
      × ((j : ℕ) → waits_for j (insert_sem key value sems).1 ≤ waits_for j sems)
unfolding insert_sem new
insert_sem-fewer key value sems asc = (
  insert-Ascends 0 key (new value) sems asc (omega arith),
  λ j.
      omega
        (arith, total-insert (λ (s : Semaphore). count j s.wait_queue) 0 key (new value) sems asc),
)

remove_sem-fewer :
    (key : ℕ) (sems : Sems)
    → Ascends 0 sems
    → Ascends 0 (remove_sem key sems).1
      × ((j : ℕ) → waits_for j (remove_sem key sems).1 ≤ waits_for j sems)
unfolding remove_sem
remove_sem-fewer key sems asc = (
  remove-Ascends 0 key sems asc,
  λ j. omega (arith, total-remove (λ (s : Semaphore). count j s.wait_queue) 0 key sems asc),
)

-- The other answers of the two operations.
wait_sem-none :
    (key pid : ℕ) (sems : Sems) → lookup key sems ≡ none → wait_sem key pid sems ≡ (not_exist, sems)
unfolding wait_sem
wait_sem-none key pid sems gone = ground (arith, gone)

wait_sem-ok :
    (key pid : ℕ) (s : Semaphore) (sems : Sems)
    → lookup key sems ≡ some s
    → (s.count == 0) ≡ false
    → wait_sem key pid sems ≡ (ok, insert key (record s { count = s.count - 1 }) sems)
unfolding wait_sem
wait_sem-ok key pid s sems there e = ground (arith, there, e)

signal_sem-none :
    (key : ℕ) (sems : Sems) → lookup key sems ≡ none → signal_sem key sems ≡ (not_exist, sems)
unfolding signal_sem
signal_sem-none key sems gone = ground (arith, gone)

signal_sem-ok :
    (key : ℕ) (s : Semaphore) (sems : Sems)
    → lookup key sems ≡ some s
    → s.wait_queue ≡ []
    → signal_sem key sems ≡ (ok, insert key (record s { count = (s.count + 1) % 2 ^ 64 }) sems)
unfolding signal_sem
signal_sem-ok key s sems there e = ground (arith, there, e)

List-cases : (xs : List ℕ) → (xs ≡ []) ⊎ ((y : ℕ) × (ys : List ℕ) × (xs ≡ y ∷ ys))
List-cases [] = inl refl
List-cases (y ∷ ys) = inr (y, ys, refl)

module _ {T F K : Type 0} where
  -- An operation on the semaphores of the process that runs.
  on_sems-cases :
      {A : Type 0} (op : Sems → A × Sems) (k : Kernel T F K)
      → IsScheduled k
      → (on_sems op k ≡ panics)
        ⊎ ((id : ℕ) × (f : Family F) × (lookup id k.families ≡ some f)
            × (on_sems op k
                ≡ returns (
                  (op f.semaphores).0,
                  record k {
                    families = insert id (record f { semaphores = (op f.semaphores).1 }) k.families;
                  },
                )))
  unfolding on_sems current_family
  on_sems-cases op k kept =
      let (p, vm, there, runs, has, pos) = current_there k kept in
      elim (Option-cases p.proc_data) [
        | inl no_data ↦ inl (rw (on_sems, current_proc-eq k p pos there, no_data) refl)
        | inr (d, data_there) ↦ elim (Option-cases (lookup d.family k.families)) [
          | inl gone ↦ inl (rw (on_sems, current_proc-eq k p pos there, data_there, gone) refl)
          | inr (f, found) ↦ inr (
            d.family,
            f,
            found,
            rw (on_sems, current_proc-eq k p pos there, data_there, found) refl,
          )
        ]
      ]

  -- An operation after which no process waits more often than before.
  on_sems-Keeps :
      {A : Type 0} (op : Sems → A × Sems) (k : Kernel T F K)
      → IsScheduled k
      → ((sems : Sems)
          → Ascends 0 sems
          → Ascends 0 (op sems).1 × ((j : ℕ) → waits_for j (op sems).1 ≤ waits_for j sems))
      → Keeps (on_sems op k)
  on_sems-Keeps op k kept fewer = elim (on_sems-cases op k kept) [
    | inl e ↦ rw e tt
    | inr (id, f, found, e) ↦
        let (asc, le) = fewer f.semaphores (kept.sems_Ascends id f found) in
        rw e (
          family-IsKept (λ j. j == k.current) (λ j. 0) k.processes k.ready_queue k.waiting
            k.families (λ j. 0) id f (record f { semaphores = (op f.semaphores).1 }) kept found asc
            (λ j. omega (arith, le j)))
  ]

  -- What an operation answered, with the family that it worked on.
  with_result :
      {A : Type 0} (op : Sems → A × Sems) (a : A) (sems : Sems) (id : ℕ) (f : Family F)
      (k : Kernel T F K)
      → on_sems op k
        ≡ returns (
          (op f.semaphores).0,
          record k {
            families = insert id (record f { semaphores = (op f.semaphores).1 }) k.families;
          },
        )
      → op f.semaphores ≡ (a, sems)
      → on_sems op k
        ≡ returns (a, record k { families = insert id (record f { semaphores = sems }) k.families })
  with_result op a sems id f k e w =
      e
      ∙ ap
          (λ r.
            returns
              (r.0, record k { families = insert id (record f { semaphores = r.1 }) k.families }))
          w

  -- The family is as before.
  same_family :
      (id : ℕ) (f : Family F) (k : Kernel T F K)
      → IsScheduled k
      → lookup id k.families ≡ some f
      → IsScheduled (record k { families = insert id f k.families })
  same_family id f k kept found =
      family-IsKept (λ j. j == k.current) (λ j. 0) k.processes k.ready_queue k.waiting k.families
        (λ j. 0) id f f kept found (kept.sems_Ascends id f found) (λ j. omega arith)

  -- A semaphore of the family has another count.
  same_waiters :
      (id key : ℕ) (f : Family F) (s s' : Semaphore) (k : Kernel T F K)
      → IsScheduled k
      → lookup id k.families ≡ some f
      → lookup key f.semaphores ≡ some s
      → s'.wait_queue ≡ s.wait_queue
      → IsScheduled (record k { families = with_sem id f key s' k.families })
  same_waiters id key f s s' k kept found sem same =
      sem-IsKept (λ j. j == k.current) (λ j. 0) (λ j. 0) k.processes k.ready_queue k.waiting
        k.families id key f s s' kept found sem (λ j. ground (arith, same))

  pub sem_wait-Keeps :
      (key : ℕ) (c : Context) (k : Kernel T F K) → IsScheduled k → Keeps (sem_wait key c k)
  unfolding sem_wait_as
  sem_wait-Keeps key c k kept =
      let (p, vm, there, runs, has, pos) = current_there k kept in
      elim (on_sems-cases (wait_sem key k.current) k kept) [
        | inl e ↦ rw (sem_wait-eq-as key c k pos, sem_wait_as, e) tt
        | inr (id, f, found, e) ↦ elim (Option-cases (lookup key f.semaphores)) [
          | inl no_sem ↦
              let on =
                with_result (wait_sem key k.current) not_exist f.semaphores id f k e
                  (wait_sem-none key k.current f.semaphores no_sem) in
              rw (sem_wait-eq-as key c k pos, sem_wait_as, on) (same_family id f k kept found)
          | inr (s, sem) ↦ elim (Bool-cases (s.count == 0)) [
            | inl none_left ↦
                let s' = queued k.current s in
                let families = with_sem id f key s' k.families in
                let on =
                  with_result (wait_sem key k.current) (block k.current)
                    (insert key s' f.semaphores) id f k e
                    (wait_sem-eq key k.current s f.semaphores sem (ground (arith, none_left))) in
                let k1 = stopped c p (record k { families = families }) in
                subst Keeps (sym (sem_wait-eq key c k p families pos there on)) (
                  switch_next-Keeps k1 (
                    sem-IsKept (λ j. false) (λ j. 0 + bit (k.current == j)) (λ j. 0) k1.processes
                      k.ready_queue k.waiting k.families id key f s s'
                      (stopped-IsKept c k p kept there) found sem
                      (λ j. ground (arith, count-append j s.wait_queue (k.current ∷ [])))))
            | inr some_left ↦
                let s' = record s { count = s.count - 1 } in
                let on =
                  with_result (wait_sem key k.current) ok (insert key s' f.semaphores) id f k e
                    (wait_sem-ok key k.current s f.semaphores sem some_left) in
                rw (sem_wait-eq-as key c k pos, sem_wait_as, on)
                  (same_waiters id key f s s' k kept found sem refl)
          ]
        ]
      ]

  pub sem_signal-Keeps :
      (key : ℕ) (c : Context) (k : Kernel T F K) → IsScheduled k → Keeps (sem_signal key c k)
  unfolding sem_signal
  sem_signal-Keeps key c k kept = elim (on_sems-cases (signal_sem key) k kept) [
    | inl e ↦ rw (sem_signal, e) tt
    | inr (id, f, found, e) ↦ elim (Option-cases (lookup key f.semaphores)) [
      | inl no_sem ↦
          let on =
            with_result (signal_sem key) not_exist f.semaphores id f k e
              (signal_sem-none key f.semaphores no_sem) in
          rw (sem_signal, on) (same_family id f k kept found)
      | inr (s, sem) ↦ elim (List-cases s.wait_queue) [
        | inl nobody ↦
            let s' = record s { count = (s.count + 1) % 2 ^ 64 } in
            let on =
              with_result (signal_sem key) ok (insert key s' f.semaphores) id f k e
                (signal_sem-ok key s f.semaphores sem nobody) in
            rw (sem_signal, on) (same_waiters id key f s s' k kept found sem refl)
        | inr (pid, pids, first) ↦
            let s' = dequeued pids s in
            let families = with_sem id f key s' k.families in
            let on =
              with_result (signal_sem key) (wake_up pid) (insert key s' f.semaphores) id f k e
                (signal_sem-eq key pid pids s f.semaphores sem first) in
            let taken =
              sem-IsKept (λ j. j == k.current) (λ j. 0) (λ j. 0 + bit (pid == j)) k.processes
                k.ready_queue k.waiting k.families id key f s s' kept found sem
                (λ j. ground (arith, first)) in
            let (q, there, is, vm) =
              blocked_there (λ j. j == k.current) (λ j. 0) pid (record k { families = families })
                taken in
            subst Keeps (sym (sem_signal-eq key pid c k q families there on)) (
              wake-IsKept (λ j. 0) k.processes k.ready_queue k.waiting families pid (State.pause q)
                (λ j. j == k.current) taken refl vm)
      ]
    ]
  ]

  -- The answer of a call is not looked at.
  pub answer-Keeps :
      {A B : Type 0} (f : A → B) (r : Outcome (A × Kernel T F K))
      → Keeps r
      → Keeps (do (a, k') ← r; returns (f a, k'))
  answer-Keeps f panics h = h
  answer-Keeps f (returns (a, k')) h = h

  pub new_sem-Keeps :
      (key value : ℕ) (k : Kernel T F K) → IsScheduled k → Keeps (new_sem key value k)
  unfolding new_sem
  new_sem-Keeps key value k kept =
      answer-Keeps (λ r. if r then 0 else 1) (on_sems (insert_sem key value) k)
        (on_sems-Keeps (insert_sem key value) k kept (insert_sem-fewer key value))

  pub drop_sem-Keeps : (key : ℕ) (k : Kernel T F K) → IsScheduled k → Keeps (drop_sem key k)
  unfolding drop_sem
  drop_sem-Keeps key k kept =
      answer-Keeps (λ r. if r then 0 else 1) (on_sems (remove_sem key) k)
        (on_sems-Keeps (remove_sem key) k kept (remove_sem-fewer key))
