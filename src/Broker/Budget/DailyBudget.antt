-- ===== src/Broker/Budget/DailyBudget.antt =====
-- Over any history within one UTC day, all that a broker admits together stays within its limits.
use tentaflake.Prelude.{
  ◌≡◌, ℕ, ◌∷◌, List, u64_max, ◌≤◌, [], ◌==◌, ◌/◌, All, arith, if◌then◌else◌, refl, subst,
}
use tentaflake.Broker.Budget.History.{kept, charged, spend, Spent, Event, step, run, step-Stepped}
use tentaflake.Broker.Budget.Keeping.{SameLimits, Kept}
use tentaflake.Broker.Budget.Disk.{Codec}
use tentaflake.Broker.Budget.Charging.{Charged}
use tentaflake.Broker.Budget.State.{Limits, BudgetState}
use tentaflake.Broker.Budget.Admission.{System}

-- What a budget has been charged on the day `d`.
abbrev pub on_day : ℕ → BudgetState → Spent
on_day d b = record {
  requests = if b.day == d then b.requests else 0;
  tokens = if b.day == d then b.tokens else 0;
  cost = if b.day == d then b.cost_microusd else 0;
}

pub record Within (l : Limits) (t : Spent) : Type 0 where
  pub requests_within : t.requests ≤ l.daily_request_budget
  pub tokens_within : t.tokens ≤ l.daily_token_budget
  pub cost_within : t.cost ≤ l.daily_cost_microusd

-- The limits are `u64` values.
pub record LimitsFit (l : Limits) : Type 0 where
  pub tokens_limit : l.daily_token_budget ≤ u64_max
  pub cost_limit : l.daily_cost_microusd ≤ u64_max

-- The total `t` of the day `d` is covered by the counters of `s`.
pub record Tally (d : ℕ) (t : Spent) (s : System) : Type 0 where
  pub limits_fit : LimitsFit s.limits
  pub within : Within s.limits t
  pub requests_counted : (on_day d s.limits.budget).requests ≡ t.requests
  pub tokens_counted : t.tokens ≤ (on_day d s.limits.budget).tokens
  pub cost_counted : t.cost ≤ (on_day d s.limits.budget).cost

Tally-Kept : (d : ℕ) (t : Spent) (s u : System) → Kept s u → Tally d t s → Tally d t u
Tally-Kept d t s u k y = record {
  limits_fit = record { tokens_limit = ground arith; cost_limit = ground arith };
  within = record {
    requests_within = ground arith;
    tokens_within = ground arith;
    cost_within = ground arith;
  };
  requests_counted = ground arith;
  tokens_counted = ground arith;
  cost_counted = ground arith;
}

Tally-Charged :
    (d : ℕ) (t : Spent) (tokens cost now : ℕ) (s u : System)
    → now / 86400 ≡ d
    → SameLimits s.limits u.limits
    → Charged tokens cost now s u
    → Tally d t s
    → Tally d (spend t (record { requests = 1; tokens = tokens; cost = cost })) u
Tally-Charged d t tokens cost now s u e l k y = record {
  limits_fit = record { tokens_limit = ground arith; cost_limit = ground arith };
  within = record {
    requests_within = ground arith;
    tokens_within = ground arith;
    cost_within = ground arith;
  };
  requests_counted = ground arith;
  tokens_counted = ground arith;
  cost_counted = ground arith;
}

spend_assoc : (t a b : Spent) → spend (spend t a) b ≡ spend t (spend a b)
spend_assoc t a b = ground arith

module _ (c : Codec) where
  step-Tally :
      (d : ℕ) (t : Spent) (e : Event) (s : System)
      → e.now / 86400 ≡ d
      → Tally d t s
      → Tally d (spend t (step c e s).1) (step c e s).0
  step-Tally d t e s h y = elim (step-Stepped c e s) [
    | kept k q ↦ subst (λ a. Tally d a (step c e s).0) (ground arith) (Tally-Kept d t s _ k y)
    | charged tokens cost k _ _ l q ↦ rw q (Tally-Charged d t tokens cost e.now s _ h l k y)
  ]

  run-Tally :
      (d : ℕ) (t : Spent) (es : List Event) (s : System)
      → All (λ e. e.now / 86400 ≡ d) es
      → Tally d t s
      → Tally d (spend t (run c es s).1) (run c es s).0
  unfolding run
  run-Tally d t [] s h y = subst (λ a. Tally d a s) (ground arith) y
  run-Tally d t (e ∷ es) s h y =
      let (t', a) = step c e s in
      let (_, b) = run c es t' in
      subst (λ x. Tally d x (run c es (step c e s).0).0) (spend_assoc t a b)
        (run-Tally d (spend t a) es t' h.1 (step-Tally d t e s h.0 y))

  -- All that a history within the day `d` admits, on top of what the day was already charged, stays
  -- within the three daily limits of a broker whose day was within them.
  pub run-Within :
      (d : ℕ) (es : List Event) (s : System)
      → LimitsFit s.limits
      → All (λ e. e.now / 86400 ≡ d) es
      → Within s.limits (on_day d s.limits.budget)
      → Within (run c es s).0.limits (spend (on_day d s.limits.budget) (run c es s).1)
  run-Within d es s f h w = (run-Tally d (on_day d s.limits.budget) es s h (start d s f w)).within
    where
      start :
          (k : ℕ) (u : System)
          → LimitsFit u.limits
          → Within u.limits (on_day k u.limits.budget)
          → Tally k (on_day k u.limits.budget) u
      start k u g v = record {
        limits_fit = g;
        within = v;
        requests_counted = refl;
        tokens_counted = omega arith;
        cost_counted = omega arith;
      }
