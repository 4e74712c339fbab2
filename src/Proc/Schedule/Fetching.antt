-- ===== src/Proc/Schedule/Fetching.antt =====
-- The loop of switch_next, whatever is in the queue.
use sysu_ysosv.Prelude.{
  ℕ, suc, ◌+◌, ◌≡◌, refl, sym, ap, subst, ◌∙◌, true, false, some, List, [], ◌∷◌, ◌++◌, append-nil,
  append_assoc, arith, length, length-append, All, returns,
}
use sysu_ysosv.Prelude.Map.{lookup, insert}
use sysu_ysosv.Proc.AddressSpace.{ProcessVm}
use sysu_ysosv.Proc.State.{Process, Kernel, is_ready, resume}
use sysu_ysosv.Proc.Manager.{fetch_ready, switch_next, push_ready}

fuel_eq : (front : List ℕ) (n : ℕ) → suc (length front) + n ≡ suc (length front + n)
fuel_eq front n = omega arith

module _ {T F K : Type 0} where
  -- The process is there and not ready.
  abbrev pub NotReady : Kernel T F K → ℕ → Type 0
  NotReady k j = (q : Process) × (lookup j k.processes ≡ some q) × (is_ready q.status ≡ false)

  abbrev with_queue : List ℕ → Kernel T F K → Kernel T F K
  with_queue queue k = record k { ready_queue = queue }

  fetch_skip :
      (fuel j : ℕ) (queue : List ℕ) (k : Kernel T F K)
      → NotReady k j
      → fetch_ready (suc fuel) (with_queue (j ∷ queue) k)
        ≡ fetch_ready fuel (with_queue (queue ++ j ∷ []) k)
  unfolding fetch_ready push_ready
  fetch_skip fuel j queue k (q, there, off) = rw (fetch_ready, there, off) refl

  fetch_take :
      (fuel pid : ℕ) (queue : List ℕ) (k : Kernel T F K) (p : Process)
      → lookup pid k.processes ≡ some p
      → is_ready p.status ≡ true
      → fetch_ready (suc fuel) (with_queue (pid ∷ queue) k) ≡ returns (pid, p, with_queue queue k)
  unfolding fetch_ready
  fetch_take fuel pid queue k p there on = rw (fetch_ready, there, on) refl

  fetch_ready-skips :
      (n pid : ℕ) (front rest : List ℕ) (k : Kernel T F K) (p : Process)
      → All (NotReady k) front
      → lookup pid k.processes ≡ some p
      → is_ready p.status ≡ true
      → fetch_ready (suc (length front + n)) (with_queue (front ++ pid ∷ rest) k)
        ≡ returns (pid, p, with_queue (rest ++ front) k)
  fetch_ready-skips n pid [] rest k p off there on =
      fetch_take (0 + n) pid rest k p there on
      ∙ ap (λ queue. returns (pid, p, with_queue queue k)) (sym (append-nil rest))
  fetch_ready-skips n pid (j ∷ front) rest k p off there on =
      fetch_skip (suc (length front) + n) j (front ++ pid ∷ rest) k off.0
      ∙ ap (λ fuel. fetch_ready fuel (with_queue ((front ++ pid ∷ rest) ++ j ∷ []) k))
          (fuel_eq front n)
      ∙ ap (λ queue. fetch_ready (suc (length front + n)) (with_queue queue k))
          (append_assoc front (pid ∷ rest) (j ∷ []))
      ∙ fetch_ready-skips n pid front (rest ++ j ∷ []) k p off.1 there on
      ∙ ap (λ queue. returns (pid, p, with_queue queue k)) (append_assoc rest (j ∷ []) front)

  -- As long as some process in the queue is ready, and those before it exist, the loop ends within
  -- one pop for each process of the queue: the first ready one runs, and those that were skipped
  -- go to the end of the queue in their order.
  pub switch_next-skips :
      (pid : ℕ) (front rest : List ℕ) (k : Kernel T F K) (p : Process) (vm : ProcessVm)
      → All (NotReady k) front
      → lookup pid k.processes ≡ some p
      → is_ready p.status ≡ true
      → p.proc_vm ≡ some vm
      → k.ready_queue ≡ front ++ pid ∷ rest
      → switch_next k
        ≡ returns (
          p.context,
          record k {
            processes = insert pid (resume p) k.processes;
            ready_queue = rest ++ front;
            current = pid;
            cr3 = vm.root;
          },
        )
  unfolding switch_next
  switch_next-skips pid front rest k p vm off there on has e =
      let queue = front ++ pid ∷ rest in
      let fuel : suc (length front + length rest) ≡ length queue =
        omega (arith, length-append front (pid ∷ rest)) in
      let fetched : fetch_ready (length queue) (with_queue queue k)
          ≡ returns (pid, p, with_queue (rest ++ front) k) =
        subst
          (λ n. fetch_ready n (with_queue queue k) ≡ returns (pid, p, with_queue (rest ++ front) k))
          fuel (fetch_ready-skips (length rest) pid front rest k p off there on) in
      ap (λ q. switch_next (with_queue q k)) e ∙ rw (fetched, has) refl
