-- ===== src/Proc/Schedule/Fairness.antt =====
-- Timer interrupts one after the other: each process of the ready queue gets its turn.
use sysu_ysosv.Prelude.{
  ℕ, ◌+◌, ◌≡◌, refl, ◌∙◌, List, [], ◌∷◌, ◌++◌, append_assoc, arith, length, Outcome, returns,
  panics, ◌>>=◌,
}
use sysu_ysosv.Proc.Context.{Context}
use sysu_ysosv.Proc.State.{Kernel}
use sysu_ysosv.Proc.Calls.{switch}
use sysu_ysosv.Proc.Schedule.{IsScheduled}
use sysu_ysosv.Proc.Schedule.RoundRobin.{Switches, switch-Switches}

module _ {T F K : Type 0} where
  -- A timer interrupt for each context of the list, which is what it interrupts.
  unfoldable pub switch_each : List Context → Kernel T F K → Outcome (Kernel T F K)
  unfolding switch
  switch_each [] k = returns k
  switch_each (c ∷ contexts) k = do (c', k') ← switch c k; switch_each contexts k'

  switched :
      (c : Context) (next : ℕ) (rest : List ℕ) (k : Kernel T F K)
      (r : Outcome (Context × Kernel T F K))
      → Switches c next rest k r
      → (c' : Context) × (k' : Kernel T F K) × (r ≡ returns (c', k'))
        × IsScheduled k'
        × (k'.current ≡ next)
        × (k'.ready_queue ≡ rest ++ k.current ∷ [])
  switched c next rest k panics h = absurd h
  switched c next rest k (returns (c', k')) h = (c', k', refl, h.0, h.1, h.2)

  -- If the queues agree with the processes, a process in the ready queue with `n` others before it
  -- runs after `n + 1` timer interrupts, whatever contexts they interrupt, and the queues agree
  -- with the processes again.
  pub switch_each-reaches :
      (before after : List ℕ) (pid : ℕ) (contexts : List Context) (k : Kernel T F K)
      → IsScheduled k
      → k.ready_queue ≡ before ++ pid ∷ after
      → length contexts ≡ length before + 1
      → (k' : Kernel T F K) × (switch_each contexts k ≡ returns k')
        × IsScheduled k'
        × (k'.current ≡ pid)
  unfolding switch_each
  switch_each-reaches before after pid [] k kept e size = absurd (omega (arith, size))
  switch_each-reaches [] after pid (c ∷ []) k kept e size =
      let (c', k', same, kept', now, _) =
        switched c pid after k (switch c k) (switch-Switches c pid after k kept e) in
      (k', rw (switch_each, same) refl, kept', now)
  switch_each-reaches [] after pid (c ∷ c' ∷ contexts) k kept e size = absurd (omega (arith, size))
  switch_each-reaches (b ∷ before) after pid (c ∷ contexts) k kept e size =
      let rest = before ++ pid ∷ after in
      let (c', k', same, kept', now, queue) =
        switched c b rest k (switch c k) (switch-Switches c b rest k kept e) in
      let (k2, done, kept2, there) =
        switch_each-reaches before (after ++ k.current ∷ []) pid contexts k' kept'
          (queue ∙ append_assoc before (pid ∷ after) (k.current ∷ [])) (omega (arith, size)) in
      (k2, rw (switch_each, same) done, kept2, there)
