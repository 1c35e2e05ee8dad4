-- ===== src/Broker/Budget/Charging.antt =====
-- What an admitted request is charged, and that a refused one is charged nothing.
use tentaflake.Broker.Budget.State.{BudgetState, RateState, Error, Limits}
use tentaflake.Prelude.{
  ◌≡◌, inr, refl, ◌≤◌, some, ◌<◌, none, ok, unwrap_or, arith, ◌⊎◌, u64_mod, true, ℕ, false, ◌+◌,
  Bool, inl, Option-cases, if◌then◌else◌, Result-cases, ◌/◌, ◌==◌, err, subst,
}
use tentaflake.Broker.Budget.Admission.{
  Proposal, over_budget, charge, count_reservation, propose, denial, count_usage, roll_day,
  reserve_with_clock, System, is_strict, roll_window,
}
use tentaflake.Broker.Budget.Disk.{stamp, Codec, Os}
use tentaflake.Broker.Budget.Authority.{unchanged, moved, lost}
use tentaflake.Broker.Budget.Outcomes.{
  admitted, unwritten, written, Admission, reserve_with_clock-Reserved, next_rate, refused,
}

-- The counters that a broker's limits speak of.
abbrev pub SameCounters : BudgetState → BudgetState → Type 0
SameCounters a b =
    (a.day ≡ b.day)
    × (a.requests ≡ b.requests)
    × (a.tokens ≡ b.tokens)
    × (a.cost_microusd ≡ b.cost_microusd)
    × (a.unsettled ≡ b.unsettled)
    × (a.pending_usage ≡ b.pending_usage)

pub SameCounters-stamp : (c : Codec) (k : Bool) (b : BudgetState) → SameCounters (stamp c k b) b
unfolding stamp
SameCounters-stamp c true b = (refl, refl, refl, refl, refl, refl)
SameCounters-stamp c false b = (refl, refl, refl, refl, refl, refl)

pub propose_facts :
    (tokens cost : ℕ) (b : BudgetState) (p : Proposal)
    → propose tokens cost b ≡ some p
    → (p.requests ≡ b.requests + 1)
      × (p.tokens ≡ b.tokens + tokens)
      × (p.cost ≡ b.cost_microusd + cost)
      × (p.requests < u64_mod)
      × (p.tokens < u64_mod)
      × (p.cost < u64_mod)
unfolding propose
propose_facts tokens cost b p h = ground arith

pub denial_facts :
    (l : Limits) (r : RateState) (p : Proposal)
    → denial l r (some p) ≡ none
    → (r.requests < l.max_requests_per_window)
      × (p.requests ≤ l.daily_request_budget)
      × (p.tokens ≤ l.daily_token_budget)
      × (p.cost ≤ l.daily_cost_microusd)
unfolding denial over_budget
denial_facts l r p h = ground arith

-- The budget after the charge, field by field.
pub record ChargeFacts (strict track : Bool) (now : ℕ) (p : Proposal) (b r : BudgetState)
    : Type 0 where
  pub same_day : r.day ≡ b.day
  pub requests_are : r.requests ≡ p.requests
  pub tokens_are : r.tokens ≡ p.tokens
  pub cost_is : r.cost_microusd ≡ p.cost
  pub seen : strict ≡ true → r.last_seen_seconds ≡ some now
  pub held :
      strict ≡ true
      → (n : ℕ) × (b.unsettled ≡ some n) × (r.unsettled ≡ some (n + 1)) × (n + 1 < u64_mod)
  pub pending :
      r.pending_usage ≡ (if track then some (unwrap_or b.pending_usage 0 + 1) else b.pending_usage)
  pub pending_fits : track ≡ true → unwrap_or b.pending_usage 0 + 1 < u64_mod
  pub same_checksum : r.checksum ≡ b.checksum

count_usage-facts :
    (track : Bool) (b r : BudgetState)
    → count_usage track b ≡ ok r
    → (track ≡ true → unwrap_or b.pending_usage 0 + 1 < u64_mod)
      × (r ≡ record b {
        pending_usage = if track then some (unwrap_or b.pending_usage 0 + 1) else b.pending_usage;
      })
unfolding count_usage
count_usage-facts false b r h = ground arith
count_usage-facts true b r h = ground arith

count_reservation-facts :
    (strict : Bool) (now : ℕ) (b r : BudgetState)
    → count_reservation strict now b ≡ ok r
    → ((strict ≡ false) × (r ≡ b))
      ⊎ ((strict ≡ true)
          × ((n : ℕ) × (b.unsettled ≡ some n)
              × (n + 1 < u64_mod)
              × (r ≡ record b { last_seen_seconds = some now; unsettled = some (n + 1) })))
unfolding count_reservation
count_reservation-facts false now b r h = inl (refl, ground arith)
count_reservation-facts true now b r h = elim (Option-cases b.unsettled) [
  | inl e ↦ absurd (ground arith)
  | inr (n, e) ↦ inr (refl, (n, e, ground arith, ground arith))
]

abbrev counted : Proposal → BudgetState → BudgetState
counted p b = record b { requests = p.requests; tokens = p.tokens; cost_microusd = p.cost }

count_facts :
    (strict track : Bool) (now : ℕ) (p : Proposal) (b m r : BudgetState)
    → count_reservation strict now (counted p b) ≡ ok m
    → count_usage track m ≡ ok r
    → ChargeFacts strict track now p b r
count_facts strict track now p b m r h k =
    elim (count_reservation-facts strict now (counted p b) m h) [
      | inl (off, e) ↦ record {
        same_day = ground (arith, u);
        requests_are = ground (arith, u);
        tokens_are = ground (arith, u);
        cost_is = ground (arith, u);
        seen = λ t. absurd (cc t);
        held = λ t. absurd (cc t);
        pending = ground (arith, u);
        pending_fits = ground (arith, u);
        same_checksum = ground (arith, u);
      }
      | inr (on, (n, q, f, e)) ↦ record {
        same_day = ground (arith, u);
        requests_are = ground (arith, u);
        tokens_are = ground (arith, u);
        cost_is = ground (arith, u);
        seen = λ _. ground (arith, u);
        held = λ _. (n, q, ground (arith, u), f);
        pending = ground (arith, u);
        pending_fits = ground (arith, u);
        same_checksum = ground (arith, u);
      }
    ]
  where
    u :
        (track ≡ true → unwrap_or m.pending_usage 0 + 1 < u64_mod)
        × (r ≡ record m {
          pending_usage = if track then some (unwrap_or m.pending_usage 0 + 1) else m.pending_usage;
        })
    u = count_usage-facts track m r k

pub charge-ChargeFacts :
    (strict track : Bool) (now : ℕ) (p : Proposal) (b r : BudgetState)
    → charge strict track now p b ≡ ok r
    → ChargeFacts strict track now p b r
unfolding charge
charge-ChargeFacts strict track now p b r h =
    elim (Result-cases (count_reservation strict now (counted p b))) [
      | inl (m, e) ↦ count_facts strict track now p b m r e (ground arith)
      | inr (x, e) ↦ absurd (ground arith)
    ]

-- What a request of `tokens` and `cost` at `now` leaves in memory once it is admitted.
pub record Charged (tokens cost now : ℕ) (s s' : System) : Type 0 where
  pub day_is : s'.limits.budget.day ≡ now / 86400
  pub requests_are :
      s'.limits.budget.requests
      ≡ (if s.limits.budget.day == now / 86400 then s.limits.budget.requests else 0) + 1
  pub tokens_are :
      s'.limits.budget.tokens
      ≡ (if s.limits.budget.day == now / 86400 then s.limits.budget.tokens else 0) + tokens
  pub cost_is :
      s'.limits.budget.cost_microusd
      ≡ (if s.limits.budget.day == now / 86400 then s.limits.budget.cost_microusd else 0) + cost
  pub requests_le : s'.limits.budget.requests ≤ s.limits.daily_request_budget
  pub tokens_le : s'.limits.budget.tokens ≤ s.limits.daily_token_budget
  pub cost_le : s'.limits.budget.cost_microusd ≤ s.limits.daily_cost_microusd
  pub rate_le : s'.limits.rate.requests ≤ s.limits.max_requests_per_window
  pub window_is : s'.limits.rate.window ≡ now / s.limits.window_seconds

module _ (c : Codec) where
  Admission-Charged :
      (os : Os) (tokens cost : ℕ) (track : Bool) (now : ℕ) (s : System) (p : Proposal)
      (charged : BudgetState) (active : ℕ)
      → Admission c os tokens cost track now s p charged active
      → Charged tokens cost now s (record {
        limits = record s.limits {
          budget = written c s charged;
          rate = next_rate c now s;
          active = active;
        };
        file = some (c.encode (written c s charged));
      })
  unfolding roll_day roll_window
  Admission-Charged os tokens cost track now s p charged active a =
      let k = charge-ChargeFacts _ track now p _ charged a.charge_ok in
      let q = propose_facts tokens cost _ p a.proposed in
      let d = denial_facts s.limits _ p a.allowed in
      let w = SameCounters-stamp c (is_strict s.limits) charged in
      record {
        day_is = ground arith;
        requests_are = ground arith;
        tokens_are = ground arith;
        cost_is = ground arith;
        requests_le = ground arith;
        tokens_le = ground arith;
        cost_le = ground arith;
        rate_le = ground arith;
        window_is = ground arith;
      }

  -- A request that is admitted is charged to the day of `now`, from zero on a new day, and leaves
  -- every counter within its limit.
  pub reserve_with_clock-Charged :
      (os : Os) (tokens cost : ℕ) (track : Bool) (now : ℕ) (s s' : System)
      → reserve_with_clock c os tokens cost track now s ≡ (ok tt, s')
      → Charged tokens cost now s s'
  reserve_with_clock-Charged os tokens cost track now s s' h =
      elim (reserve_with_clock-Reserved c os tokens cost track now s) [
        | refused (unchanged e r) ↦ absurd (ground arith)
        | refused (moved e k r) ↦ absurd (ground arith)
        | refused (lost e k r) ↦ absurd (ground arith)
        | admitted p charged active a r ↦
            subst (Charged tokens cost now s) (ground arith)
              (Admission-Charged os tokens cost track now s p charged active a)
        | unwritten p charged active e f a k r ↦ absurd (ground arith)
      ]

  -- A request that is refused or fails leaves the counters, the rate and the guards as they were.
  pub reserve_with_clock-refused :
      (os : Os) (tokens cost : ℕ) (track : Bool) (now : ℕ) (s s' : System) (e : Error)
      → reserve_with_clock c os tokens cost track now s ≡ (err e, s')
      → SameCounters s'.limits.budget s.limits.budget
        × (s'.limits.rate ≡ s.limits.rate)
        × (s'.limits.active ≡ s.limits.active)
  reserve_with_clock-refused os tokens cost track now s s' e h =
      let w = SameCounters-stamp c true (record s.limits.budget { last_seen_seconds = some now }) in
      elim (reserve_with_clock-Reserved c os tokens cost track now s) [
        | refused (unchanged x r) ↦ ground arith
        | refused (moved x k r) ↦ ground arith
        | refused (lost x k r) ↦ ground arith
        | admitted p charged active a r ↦ absurd (ground arith)
        | unwritten p charged active x f a k r ↦ ground arith
      ]
