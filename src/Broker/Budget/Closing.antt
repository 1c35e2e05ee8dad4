-- ===== src/Broker/Budget/Closing.antt =====
-- What closes a broker: a write that failed, and an overage of the day.
use tentaflake.Prelude.{
  ◌≡◌, arith, ◌⊎◌, true, ◌/◌, ◌<◌, ℕ, inl, u64_max, err, All, List, inr, Option, [], refl, ◌∷◌,
}
use tentaflake.Broker.Budget.History.{kept, charged, Event, nothing, run, step, step-Stepped}
use tentaflake.Broker.Budget.Disk.{Codec, Os}
use tentaflake.Broker.Budget.Admission.{System, is_strict, persist_budget}
use tentaflake.Broker.Budget.State.{BudgetState, Error}
use tentaflake.Broker.Budget.Usage.{is_overage, UsageGuard, observe}
use tentaflake.Broker.Budget.Keeping.{Kept, observe-Kept, observe-overage}

module _ (c : Codec) where
  -- The day `d` is closed by an overage: its flag is still up, or the tokens are used up.
  abbrev pub Closed : ℕ → System → Type 0
  Closed d s =
      (s.limits.daily_token_budget < u64_max)
      × (s.limits.budget.day ≡ d)
      × ((s.limits.overage_pending ≡ true) ⊎ (s.limits.budget.tokens ≡ u64_max))

  Closed-Kept : (d : ℕ) (s u : System) → Closed d s → Kept s u → Closed d u
  Closed-Kept d s u k y = (ground arith, ground arith, later k.2)
    where
      later :
          (s.limits.overage_pending ≡ true) ⊎ (s.limits.budget.tokens ≡ u64_max)
          → (u.limits.overage_pending ≡ true) ⊎ (u.limits.budget.tokens ≡ u64_max)
      later (inl f) = y.overage_kept f
      later (inr f) = inr (ground arith)

  step-Closed :
      (d : ℕ) (e : Event) (s : System)
      → e.now / 86400 ≡ d
      → Closed d s
      → Closed d (step c e s).0 × ((step c e s).1 ≡ nothing)
  step-Closed d e s h k = elim (step-Stepped c e s) [
    | kept y q ↦ (Closed-Kept d s _ k y, q)
    | charged tokens cost y _ f l q ↦ absurd (ground arith)
  ]

  run-Closed :
      (d : ℕ) (es : List Event) (s : System)
      → All (λ e. e.now / 86400 ≡ d) es
      → Closed d s
      → (run c es s).1 ≡ nothing
  unfolding run
  run-Closed d [] s h k = refl
  run-Closed d (e ∷ es) s h k =
      let (k', q) = step-Closed d e s h.0 k in rw (q, run-Closed d es (step c e s).0 h.1 k')

  -- After a usage above its reservation, on the day of the budget and whether or not it could be
  -- recorded, no history of calls within that day admits a request. The daily token budget is below
  -- the largest number of 64 bits.
  pub run-overage :
      (d : ℕ) (os : Os) (now tokens : ℕ) (cost : Option ℕ) (g : UsageGuard) (s : System)
      (es : List Event)
      → s.limits.daily_token_budget < u64_max
      → s.limits.budget.day ≡ d
      → is_overage g tokens cost ≡ true
      → All (λ e. e.now / 86400 ≡ d) es
      → (run c es (observe c os now tokens cost g s).2).1 ≡ nothing
  run-overage d os now tokens cost g s es l e o h =
      let k = observe-Kept c os now tokens cost g s in
      run-Closed d es (observe c os now tokens cost g s).2 h
        (ground arith, ground arith, (observe-overage c os now tokens cost g s o).1)

  run_failed :
      (s : System) (es : List Event) → s.limits.persistence_failed ≡ true → (run c es s).1 ≡ nothing
  unfolding run
  run_failed s [] h = refl
  run_failed s (e ∷ es) h = elim (step-Stepped c e s) [
    | kept y q ↦ rw (q, run_failed (step c e s).0 es (y.failed_kept h))
    | charged tokens cost y f _ l q ↦ absurd (ground arith)
  ]

  persist_budget_failed :
      (os : Os) (b : BudgetState) (s : System) (e : Error)
      → is_strict s.limits ≡ true
      → (persist_budget c os b s).0 ≡ err e
      → (persist_budget c os b s).1.limits.persistence_failed ≡ true
  unfolding persist_budget
  persist_budget_failed os b s e h k = ground arith

  -- Once `persist_budget`, by which an admission, a settlement and an overage write the budget, has
  -- failed in a strict broker, no history of calls admits a request.
  pub run-persist_budget :
      (os : Os) (b : BudgetState) (s : System) (e : Error) (es : List Event)
      → is_strict s.limits ≡ true
      → (persist_budget c os b s).0 ≡ err e
      → (run c es (persist_budget c os b s).1).1 ≡ nothing
  run-persist_budget os b s e es h k =
      run_failed (persist_budget c os b s).1 es (persist_budget_failed os b s e h k)
