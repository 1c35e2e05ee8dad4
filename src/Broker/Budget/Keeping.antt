-- ===== src/Broker/Budget/Keeping.antt =====
-- The operations on an admitted request keep the day, the counters, the rate and the limits, but
-- for an overage, which raises the tokens and the cost to the top of their range.
use tentaflake.Broker.Budget.Authority.{unchanged, moved, lost}
use tentaflake.Broker.Budget.Outcomes.{
  refused, admitted, unwritten, done, failed, written, persist_budget-Persisted,
  reserve_with_clock-Reserved,
}
use tentaflake.Prelude.{
  ◌≡◌, true, arith, Option, ◌⊎◌, ◌||◌, refl, some, Result, u64_max, ok, ℕ, err, inl, List,
  Option-cases, Result-cases, ◌-◌, inr, ◌+◌, Bool, ◌<◌, false, ◌&&◌, checked_sub, Bool-cases, ◌==◌,
  none, subst, ◌∙◌,
}
use tentaflake.Broker.Budget.State.{BudgetState, Error, Limits}
use tentaflake.Broker.Budget.Charging.{SameCounters-stamp}
use tentaflake.Broker.Budget.Admission.{System, is_strict, reserve_with_clock}
use tentaflake.Broker.Budget.Usage.{
  store_budget, drop_reservation, check_settlement, touch, settle_with_clock, exhaust_for_overage,
  release_usage, check_exhaustion, UsageGuard, release_checked, observe, drop_guard,
  check_usage_state, fewer_pending, set_overage, is_overage, release_pending,
}
use tentaflake.Broker.Budget.Disk.{Codec, Os, stamp}

abbrev pub SameLimits : Limits → Limits → Type 0
SameLimits l k =
    (k.window_seconds ≡ l.window_seconds)
    × (k.max_requests_per_window ≡ l.max_requests_per_window)
    × (k.daily_request_budget ≡ l.daily_request_budget)
    × (k.daily_token_budget ≡ l.daily_token_budget)
    × (k.daily_cost_microusd ≡ l.daily_cost_microusd)
    × (k.strict ≡ l.strict)

pub record Kept (s t : System) : Type 0 where
  pub limits_kept : SameLimits s.limits t.limits
  pub day_kept : t.limits.budget.day ≡ s.limits.budget.day
  pub count_kept : t.limits.budget.requests ≡ s.limits.budget.requests
  pub spent_kept :
      ((t.limits.budget.tokens ≡ s.limits.budget.tokens)
        × (t.limits.budget.cost_microusd ≡ s.limits.budget.cost_microusd))
      ⊎ ((t.limits.budget.tokens ≡ u64_max) × (t.limits.budget.cost_microusd ≡ u64_max))
  pub rate_kept : t.limits.rate ≡ s.limits.rate
  pub overage_kept :
      s.limits.overage_pending ≡ true
      → (t.limits.overage_pending ≡ true) ⊎ (t.limits.budget.tokens ≡ u64_max)
  pub failed_kept : s.limits.persistence_failed ≡ true → t.limits.persistence_failed ≡ true

-- The budget that an operation writes in place of another one.
abbrev pub Rewrites : BudgetState → BudgetState → Type 0
Rewrites b r =
    (r.day ≡ b.day)
    × (r.requests ≡ b.requests)
    × (((r.tokens ≡ b.tokens) × (r.cost_microusd ≡ b.cost_microusd))
        ⊎ ((r.tokens ≡ u64_max) × (r.cost_microusd ≡ u64_max)))

pub Kept-refl : (s : System) → Kept s s
Kept-refl s = record {
  limits_kept = (refl, refl, refl, refl, refl, refl);
  day_kept = refl;
  count_kept = refl;
  spent_kept = inl (refl, refl);
  rate_kept = refl;
  overage_kept = inl;
  failed_kept = λ h. h;
}

touch-Rewrites :
    (strict : Bool) (now : ℕ) (b r : BudgetState) → Rewrites b r → Rewrites b (touch strict now r)
unfolding touch
touch-Rewrites true now b r w = w
touch-Rewrites false now b r w = w

touch_spent :
    (strict : Bool) (now : ℕ) (r : BudgetState)
    → ((touch strict now r).tokens ≡ r.tokens)
      × ((touch strict now r).cost_microusd ≡ r.cost_microusd)
unfolding touch
touch_spent true now r = (refl, refl)
touch_spent false now r = (refl, refl)

-- One reservation less is unsettled, and nothing else changed but the checkpoint.
abbrev pub Settles : ℕ → System → System → Type 0
Settles now s t =
    (n : ℕ) × (s.limits.budget.unsettled ≡ some (n + 1))
    × (t.limits.budget.unsettled ≡ some n)
    × (t.limits.budget.last_seen_seconds ≡ some now)
    × (t.limits.budget.day ≡ s.limits.budget.day)
    × (t.limits.budget.requests ≡ s.limits.budget.requests)
    × (t.limits.budget.tokens ≡ s.limits.budget.tokens)
    × (t.limits.budget.cost_microusd ≡ s.limits.budget.cost_microusd)
    × (t.limits.budget.pending_usage ≡ s.limits.budget.pending_usage)

module _ (c : Codec) where
  -- The outcomes of a write and of the change of memory that follows it.
  pub data Stored (b : BudgetState) (s : System) (r : Result Error (Unit {0}) × System)
      : Type 0 where
    stored :
        r ≡ (
          ok tt,
          record {
            limits = record s.limits { budget = written c s b };
            file = some (c.encode (written c s b));
          },
        )
        → Stored b s r
    not_stored :
        (e : Error) (f : Option (List ℕ))
        → (f ≡ s.file) ⊎ (f ≡ some (c.encode (written c s b)))
        → r ≡ (
          err e,
          record {
            limits = record s.limits {
              persistence_failed = s.limits.persistence_failed || is_strict s.limits;
            };
            file = f;
          },
        )
        → Stored b s r

  pub store_budget-Stored :
      (os : Os) (b : BudgetState) (s : System) → Stored b s (store_budget c os b s)
  unfolding store_budget
  store_budget-Stored os b s = elim (persist_budget-Persisted c os b s) [
    | done q ↦ stored (ground arith)
    | failed e f k q ↦ not_stored e f k (ground arith)
  ]

  pub store_budget-Kept :
      (os : Os) (b : BudgetState) (s : System)
      → Rewrites s.limits.budget b
      → Kept s (store_budget c os b s).1
  store_budget-Kept os b s w =
      let z = SameCounters-stamp c (is_strict s.limits) b in
      elim (store_budget-Stored os b s) [
        | stored q ↦ record {
          limits_kept = ground arith;
          day_kept = ground arith;
          count_kept = ground arith;
          spent_kept = ground arith;
          rate_kept = ground arith;
          overage_kept = λ h. inl (ground arith);
          failed_kept = ground arith;
        }
        | not_stored e f k q ↦ record {
          limits_kept = ground arith;
          day_kept = ground arith;
          count_kept = ground arith;
          spent_kept = ground arith;
          rate_kept = ground arith;
          overage_kept = λ h. inl (ground arith);
          failed_kept = ground arith;
        }
      ]

  check_settlement-facts :
      (os : Os) (now : ℕ) (s : System) (b : BudgetState)
      → check_settlement c os now s ≡ ok b
      → (n : ℕ) × (s.limits.budget.unsettled ≡ some n)
        × (0 < n)
        × (is_strict s.limits ≡ true)
        × (b ≡ record s.limits.budget { unsettled = some (n - 1); last_seen_seconds = some now })
  unfolding check_settlement
  check_settlement-facts os now s b h = elim (Option-cases s.limits.budget.unsettled) [
    | inl e ↦ absurd (ground arith)
    | inr (n, e) ↦ (n, e, ground arith, ground arith, ground arith)
  ]

  pub settle_with_clock-Kept :
      (os : Os) (now : ℕ) (s : System) → Kept s (settle_with_clock c os now s).1
  unfolding settle_with_clock
  settle_with_clock-Kept os now s = elim (Result-cases (check_settlement c os now s)) [
    | inr (e, q) ↦ rw (q, settle_with_clock) (Kept-refl s)
    | inl (b, q) ↦
        let f = check_settlement-facts os now s b q in
        rw (q, settle_with_clock) (store_budget-Kept os b s (ground arith))
  ]

  -- A settlement that succeeds takes one reservation off the unsettled ones, and changes nothing
  -- else but the clock checkpoint.
  pub settle_with_clock-Settles :
      (os : Os) (now : ℕ) (s s' : System)
      → settle_with_clock c os now s ≡ (ok tt, s')
      → Settles now s s'
  unfolding settle_with_clock stamp
  settle_with_clock-Settles os now s s' h = elim (Result-cases (check_settlement c os now s)) [
    | inr (e, q) ↦ absurd (ground arith)
    | inl (b, q) ↦
        let f = check_settlement-facts os now s b q in
        elim (store_budget-Stored os b s) [
          | stored w ↦
              let y = SameCounters-stamp c (is_strict s.limits) b in
              (
                f.0 - 1,
                ground arith,
                ground arith,
                ground arith,
                ground arith,
                ground arith,
                ground arith,
                ground arith,
                ground arith,
              )
          | not_stored e x k w ↦ absurd (ground arith)
        ]
  ]

  exhaust_for_overage-Kept :
      (os : Os) (now : ℕ) (s : System) → Kept s (exhaust_for_overage c os now s).1
  unfolding exhaust_for_overage
  exhaust_for_overage-Kept os now s =
      let l = s.limits in
      let maxed : BudgetState = record l.budget { tokens = u64_max; cost_microusd = u64_max } in
      elim (Result-cases (check_exhaustion c os now s)) [
        | inr (e, q) ↦ rw (q, exhaust_for_overage) (Kept-refl s)
        | inl (_, q) ↦
            elim (Bool-cases (l.budget.tokens == u64_max && l.budget.cost_microusd == u64_max)) [
              | inl e ↦ rw (q, exhaust_for_overage) (rw e (Kept-refl s))
              | inr e ↦
                  rw (q, exhaust_for_overage)
                    (rw e (
                      store_budget-Kept os (touch (is_strict l) now maxed) s (
                        touch-Rewrites (is_strict l) now l.budget maxed
                          (refl, refl, inr (refl, refl)))))
            ]
      ]

  exhausted :
      (os : Os) (now : ℕ) (s : System)
      → (exhaust_for_overage c os now s).0 ≡ ok tt
      → ((exhaust_for_overage c os now s).1.limits.budget.tokens ≡ u64_max)
        × ((exhaust_for_overage c os now s).1.limits.budget.cost_microusd ≡ u64_max)
  unfolding exhaust_for_overage
  exhausted os now s h =
      let l = s.limits in
      let maxed : BudgetState = record l.budget { tokens = u64_max; cost_microusd = u64_max } in
      let b = touch (is_strict l) now maxed in
      let w = touch_spent (is_strict l) now maxed in
      let z = SameCounters-stamp c (is_strict l) b in
      elim (Result-cases (check_exhaustion c os now s)) [
        | inr (e, q) ↦ absurd (ground arith)
        | inl (_, q) ↦
            elim (Bool-cases (l.budget.tokens == u64_max && l.budget.cost_microusd == u64_max)) [
              | inl e ↦ (ground arith, ground arith)
              | inr e ↦ elim (store_budget-Stored os b s) [
                | stored v ↦ (ground arith, ground arith)
                | not_stored x f k v ↦ absurd (ground arith)
              ]
            ]
      ]

  -- An overage that is recorded charges the whole range of tokens and cost. One that is not leaves
  -- the flag up that closes admission.
  pub observe-overage :
      (os : Os) (now tokens : ℕ) (cost : Option ℕ) (g : UsageGuard) (s : System)
      → is_overage g tokens cost ≡ true
      → let t = (observe c os now tokens cost g s).2.limits in
        ((observe c os now tokens cost g s).0 ≡ ok tt
          → (t.budget.tokens ≡ u64_max) × (t.budget.cost_microusd ≡ u64_max))
        × ((t.overage_pending ≡ true) ⊎ (t.budget.tokens ≡ u64_max))
  unfolding observe
  observe-overage os now tokens cost g s e =
      let f = set_overage true s in
      let k = exhaust_for_overage-Kept os now f in
      let m = exhausted os now f in
      elim (Result-cases (exhaust_for_overage c os now f).0) [
        | inr (x, q) ↦ (λ h. absurd (ground arith), rw e (rw (q, observe) (k.overage_kept refl)))
        | inl (_, q) ↦ (λ h. (ground (arith, m q), ground (arith, m q)), inr (ground (arith, m q)))
      ]

  pub observe-Kept :
      (os : Os) (now tokens : ℕ) (cost : Option ℕ) (g : UsageGuard) (s : System)
      → Kept s (observe c os now tokens cost g s).2
  unfolding observe
  observe-Kept os now tokens cost g s =
      let k = exhaust_for_overage-Kept os now (set_overage true s) in
      let m = exhausted os now (set_overage true s) in
      elim (Bool-cases (is_overage g tokens cost)) [
        | inr e ↦ rw e (Kept-refl s)
        | inl e ↦ rw e (elim (Result-cases (exhaust_for_overage c os now (set_overage true s)).0) [
          | inr (x, q) ↦
              rw (q, observe)
                (record {
                  limits_kept = k.limits_kept;
                  day_kept = k.day_kept;
                  count_kept = k.count_kept;
                  spent_kept = k.spent_kept;
                  rate_kept = k.rate_kept;
                  overage_kept = λ _. k.overage_kept refl;
                  failed_kept = k.failed_kept;
                })
          | inl (_, q) ↦
              rw (q, observe)
                (record {
                  limits_kept = k.limits_kept;
                  day_kept = k.day_kept;
                  count_kept = k.count_kept;
                  spent_kept = k.spent_kept;
                  rate_kept = k.rate_kept;
                  overage_kept = λ _. inr (m q).0;
                  failed_kept = k.failed_kept;
                })
        ])
      ]

  release_pending-Kept :
      (os : Os) (now : ℕ) (pending : Option ℕ) (s : System)
      → Kept s (release_pending c os now pending s)
  unfolding release_pending
  release_pending-Kept os now none s = Kept-refl s
  release_pending-Kept os now (some count) s = elim (Option-cases (checked_sub count 1)) [
    | inl u ↦ rw (u, release_pending) (Kept-refl s)
    | inr (n, u) ↦
        rw (u, release_pending)
          (store_budget-Kept os _ s (
            touch-Rewrites (is_strict s.limits) now s.limits.budget
              (record s.limits.budget { pending_usage = fewer_pending n })
              (refl, refl, inl (refl, refl))))
  ]

  release_checked-Kept : (os : Os) (now : ℕ) (s : System) → Kept s (release_checked c os now s)
  unfolding release_checked
  release_checked-Kept os now s = elim (Result-cases (check_usage_state c os now s)) [
    | inr (e, q) ↦ rw (q, release_checked) (Kept-refl s)
    | inl (_, q) ↦ rw (q, release_checked) (release_pending-Kept os now _ s)
  ]

  pub drop_guard-Kept :
      (os : Os) (now : ℕ) (g : UsageGuard) (s : System) → Kept s (drop_guard c os now g s)
  unfolding drop_guard release_usage
  drop_guard-Kept os now g s =
      let t : System = record s { limits = record s.limits { active = s.limits.active - 1 } } in
      let k = release_checked-Kept os now t in
      let k' : Kept s (release_checked c os now t) = record {
        limits_kept = k.limits_kept;
        day_kept = k.day_kept;
        count_kept = k.count_kept;
        spent_kept = k.spent_kept;
        rate_kept = k.rate_kept;
        overage_kept = k.overage_kept;
        failed_kept = k.failed_kept;
      } in
      elim (Bool-cases os.locks) [
        | inr e ↦ simp e (Kept-refl s)
        | inl e ↦ simp e (elim (Bool-cases g.failed) [
          | inl f ↦ simp f (record {
            limits_kept = (refl, refl, refl, refl, refl, refl);
            day_kept = refl;
            count_kept = refl;
            spent_kept = inl (refl, refl);
            rate_kept = refl;
            overage_kept = inl;
            failed_kept = λ h. h;
          })
          | inr f ↦ simp f k'
        ])
      ]

  pub drop_reservation-Kept :
      (os : Os) (now : ℕ) (sent : Bool) (s : System) → Kept s (drop_reservation c os now sent s)
  unfolding drop_reservation
  drop_reservation-Kept os now true s = Kept-refl s
  drop_reservation-Kept os now false s = settle_with_clock-Kept os now s

  pub reserve_with_clock-Kept :
      (os : Os) (tokens cost : ℕ) (track : Bool) (now : ℕ) (s s' : System) (e : Error)
      → reserve_with_clock c os tokens cost track now s ≡ (err e, s')
      → Kept s s'
  reserve_with_clock-Kept os tokens cost track now s s' e h =
      let z = SameCounters-stamp c true (record s.limits.budget { last_seen_seconds = some now }) in
      elim (reserve_with_clock-Reserved c os tokens cost track now s) [
        | refused (unchanged x q) ↦ subst (Kept s) (ground arith) (Kept-refl s)
        | refused (moved x k q) ↦
            kept (ground arith) (ground arith) (ground arith) (ground arith) (ground arith)
              (ground arith) (ground arith)
        | refused (lost x k q) ↦
            kept (ground arith) (ground arith) (ground arith) (ground arith) (ground arith)
              (ground arith) (ground arith)
        | admitted p charged active a q ↦ absurd (ground arith)
        | unwritten p charged active x f a k q ↦
            kept (ground arith) (ground arith) (ground arith) (ground arith) (ground arith)
              (ground arith) (ground arith)
      ]
    where
      kept :
          SameLimits s.limits s'.limits
          → s'.limits.budget.day ≡ s.limits.budget.day
          → s'.limits.budget.requests ≡ s.limits.budget.requests
          → (s'.limits.budget.tokens ≡ s.limits.budget.tokens)
            × (s'.limits.budget.cost_microusd ≡ s.limits.budget.cost_microusd)
          → s'.limits.rate ≡ s.limits.rate
          → s'.limits.overage_pending ≡ s.limits.overage_pending
          → (s.limits.persistence_failed ≡ true → s'.limits.persistence_failed ≡ true)
          → Kept s s'
      kept l d r t w o f = record {
        limits_kept = l;
        day_kept = d;
        count_kept = r;
        spent_kept = inl t;
        rate_kept = w;
        overage_kept = λ h. inl (o ∙ h);
        failed_kept = f;
      }

  pub reserve_with_clock-limits :
      (os : Os) (tokens cost : ℕ) (track : Bool) (now : ℕ) (s s' : System)
      → reserve_with_clock c os tokens cost track now s ≡ (ok tt, s')
      → SameLimits s.limits s'.limits
  reserve_with_clock-limits os tokens cost track now s s' h =
      elim (reserve_with_clock-Reserved c os tokens cost track now s) [
        | refused (unchanged x q) ↦ absurd (ground arith)
        | refused (moved x k q) ↦ absurd (ground arith)
        | refused (lost x k q) ↦ absurd (ground arith)
        | admitted p charged active a q ↦ ground arith
        | unwritten p charged active x f a k q ↦ absurd (ground arith)
      ]
