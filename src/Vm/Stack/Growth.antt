-- ===== src/Vm/Stack/Growth.antt =====
-- What a page fault on the stack does.
use sysu_ysosv.Prelude.{
  ℕ, ◌-◌, ◌*◌, ◌^◌, ◌/◌, ◌⊎◌, ◌>>=◌, ◌<◌, ◌≡◌, refl, sym, ap, ◌∙◌, subst, Bool, true, false, arith,
  ltb, Bool-cases, inl, inr, Outcome, returns, panics,
}
use sysu_ysosv.Prelude.Result.{Result, ok, err}
use sysu_ysosv.Memory.X86.{X86, Laws, Mem, MapToError}
use sysu_ysosv.Memory.Mapping.{PageRange, data_flags, map_from, map_pages}
use sysu_ysosv.Memory.Mapping.Ranges.{Filled, Stops, MapsPages, map_from_lem, map_pages-map_from}
use sysu_ysosv.Vm.Stack.{Stack, is_on_stack, grow_stack, handle_stack_fault}

module _ (x : X86) (laws : Laws x) where
  -- How a fault below the stack ends. Either it is handled: the address lies in the slot of the stack, the stack
  -- reaches down to the faulting page, and the pages between were mapped. Or the stack is as before; then the
  -- address is not in the slot and memory is as before, or it is and a page between could not be mapped.
  abbrev pub Handles :
      ℕ → Bool → ℕ → Stack → Mem x.Table → Outcome (Bool × Stack × Mem x.Table) → Type 0
  Handles root user addr s m panics = ⊥
  Handles root user addr s m (returns (true, s', m')) =
      (is_on_stack x addr s ≡ true)
      × (s'.range ≡ record { start = addr / 4096; end = s.range.end })
      × (s'.usage ≡ s.range.end - addr / 4096)
      × Filled x laws root (data_flags user) (addr / 4096) (s.range.start - addr / 4096) m m'
  Handles root user addr s m (returns (false, s', m')) =
      (s' ≡ s)
      × ((is_on_stack x addr s ≡ false) × (m' ≡ m)
          ⊎ (is_on_stack x addr s ≡ true)
            × ((e : MapToError) × Stops x laws root (data_flags user) (addr / 4096)
                  (s.range.start - addr / 4096) m e m'))

  -- The outcome of grow_stack for the answer of map_pages.
  abbrev grown :
      ℕ
      → Stack
      → Result MapToError PageRange × Mem x.Table
      → Outcome (Result MapToError (Unit {0}) × Stack × Mem x.Table)
  grown page s (ok _, m') =
      returns
        (ok tt, record { range = record s.range { start = page }; usage = s.range.end - page }, m')
  grown page s (err e, m') = returns (err e, s, m')

  as_grown :
      (page : ℕ) (s : Stack) (r : Result MapToError PageRange × Mem x.Table)
      → elim r.0 [
        | err e ↦ returns (err e, s, r.1)
        | ok _ ↦ returns (
          ok tt,
          record { range = record s.range { start = page }; usage = s.range.end - page },
          r.1,
        )
      ]
        ≡ grown page s r
  as_grown page s (ok _, m') = refl
  as_grown page s (err e, m') = refl

  -- What map_pages answers for the pages from `page` up to the stack.
  abbrev mapped_from :
      ℕ → Bool → Stack → Mem x.Table → ℕ → Result MapToError PageRange × Mem x.Table
  mapped_from root user s m page = map_from x root page (s.range.start - page) user m

  grow_stack-eq :
      (root : ℕ) (user : Bool) (addr : ℕ) (s : Stack) (m : Mem x.Table)
      → ltb s.range.start (x.page_of addr) ≡ false
      → map_pages x root (x.page_of addr * 4096) (s.range.start - x.page_of addr) user m
        ≡ returns (mapped_from root user s m (x.page_of addr))
      → grow_stack x root user addr s m
        ≡ grown (x.page_of addr) s (mapped_from root user s m (x.page_of addr))
  unfolding grow_stack
  grow_stack-eq root user addr s m up done =
      rw (up, done, ◌>>=◌)
        (as_grown (x.page_of addr) s (mapped_from root user s m (x.page_of addr)))

  -- handle_page_fault after grow_stack
  abbrev answer :
      Outcome (Result MapToError (Unit {0}) × Stack × Mem x.Table)
      → Outcome (Bool × Stack × Mem x.Table)
  answer panics = panics
  answer (returns (r, s', m')) = returns (elim r [ ok _ ↦ true | err _ ↦ false ], s', m')

  after :
      (root : ℕ) (user : Bool) (addr : ℕ) (s : Stack) (m : Mem x.Table)
      (r : Result MapToError PageRange × Mem x.Table)
      → is_on_stack x addr s ≡ true
      → MapsPages x laws root (addr / 4096) (s.range.start - addr / 4096) user m r
      → Handles root user addr s m (answer (grown (addr / 4096) s r))
  after root user addr s m (ok range, m') on h = (on, refl, refl, h.1)
  after root user addr s m (err e, m') on h = (refl, inr (on, (e, h)))

  grow_stack-Handles :
      (root : ℕ) (user : Bool) (addr : ℕ) (s : Stack) (m : Mem x.Table)
      → addr / 4096 < s.range.start
      → s.range.start * 4096 < 2 ^ 47
      → is_on_stack x addr s ≡ true
      → Handles root user addr s m (answer (grow_stack x root user addr s m))
  grow_stack-Handles root user addr s m below small on =
      let page = x.page_of addr in
      let same : page ≡ addr / 4096 = laws.page_of_lem addr in
      let start : page * 4096 / 4096 ≡ page = omega arith in
      let done =
        map_pages-map_from x laws root (page * 4096) (s.range.start - page) user m
          (ground (arith, same)) (ground (arith, same))
        ∙ ap (λ p. returns (map_from x root p (s.range.start - page) user m)) start in
      rw (grow_stack-eq root user addr s m (ground (arith, same)) done) (
        subst (λ p. Handles root user addr s m (answer (grown p s (mapped_from root user s m p))))
          (sym same)
          (after root user addr s m (mapped_from root user s m (addr / 4096)) on (
            map_from_lem x laws root (addr / 4096) (s.range.start - addr / 4096) user m
              (omega arith))))

  as_answer :
      (o : Outcome (Result MapToError (Unit {0}) × Stack × Mem x.Table))
      → elim o [
        | panics ↦ panics
        | returns r ↦ returns (elim r.0 [ ok _ ↦ true | err _ ↦ false ], r.1, r.2)
      ]
        ≡ answer o
  as_answer panics = refl
  as_answer (returns r) = refl

  -- A fault at an address below a stack in user memory makes no panic. It is handled exactly if the address lies in the slot of the
  -- stack and all pages from its page up to the stack can be mapped; then the stack begins at its
  -- page, its end stays and its usage counts the pages. Otherwise the stack stays as it is: outside of the slot memory
  -- stays too, and within it some page is the first that cannot be mapped, and those before it are mapped.
  pub handle_stack_fault-Handles :
      (root : ℕ) (user : Bool) (addr : ℕ) (s : Stack) (m : Mem x.Table)
      → addr / 4096 < s.range.start
      → s.range.start * 4096 < 2 ^ 47
      → Handles root user addr s m (handle_stack_fault x root user addr s m)
  unfolding handle_stack_fault
  handle_stack_fault-Handles root user addr s m below small =
      elim (Bool-cases (is_on_stack x addr s)) [
        | inr off ↦ rw off (refl, inl (off, refl))
        | inl on ↦ rw on (
            subst (Handles root user addr s m) (sym (as_answer (grow_stack x root user addr s m)))
              (grow_stack-Handles root user addr s m below small on))
      ]
