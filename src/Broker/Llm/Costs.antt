-- ===== src/Broker/Llm/Costs.antt =====
-- The cost of a request is the least number of micro-dollars that covers it, and a response within
-- its reservation is no overage.
use tentaflake.Broker.Json.{Json}
use tentaflake.Broker.Budget.Disk.{Codec, Os}
use tentaflake.Broker.Budget.Usage.{UsageGuard, observe, is_overage}
use tentaflake.Broker.Budget.Admission.{System}
use tentaflake.Prelude.{
  inr, ℕ, ◌+◌, ◌||◌, ◌≡◌, inl, u64_mod, ltb, ok, ◌≤◌, some, is_some, none, unwrap_or, and_then,
  u64_max, ◌&&◌, Option, Bool-cases, arith, ◌<◌, ◌*◌, if◌then◌else◌,
}
use tentaflake.Broker.Llm.Usage.{
  u128_mod, estimate_cost, observe_usage, per_million, ModelPolicy, input_of, total_of, observation,
  output_of,
}

abbrev pub price : ModelPolicy → ℕ → ℕ → ℕ
price model input output =
    input * model.input_microusd_per_million + output * model.output_microusd_per_million

-- An estimate covers the exact price by less than one micro-dollar, and only a price that needs more
-- than 64 bits has none.
abbrev pub Covers : ℕ → Option ℕ → Type 0
Covers p none = u64_max * 1_000_000 < p
Covers p (some k) = (p ≤ k * 1_000_000) × (k * 1_000_000 < p + 1_000_000) × (k < u64_mod)

covers :
    (p : ℕ)
    → Covers p
        (if ltb p u128_mod && ltb (per_million p) u64_mod then some (per_million p) else none)
covers p = elim (Bool-cases (ltb p u128_mod && ltb (per_million p) u64_mod)) [
  | inl e ↦ rw e (omega arith, omega arith, ground arith)
  | inr e ↦ rw e (ground arith)
]

-- The estimate never falls short of the exact price and exceeds it by less than one micro-dollar;
-- there is none exactly where the price rounded up needs more than 64 bits.
pub estimate_cost-Covers :
    (model : ModelPolicy) (input output : ℕ)
    → Covers (price model input output) (estimate_cost model input output)
unfolding estimate_cost
estimate_cost-Covers model input output = covers (price model input output)

price_mono : (model : ModelPolicy) (a b c d : ℕ) → a ≤ c → b ≤ d → price model a b ≤ price model c d
price_mono model a b c d h k = grind arith

estimate_cost_mono :
    (model : ModelPolicy) (a b c d n : ℕ)
    → a ≤ c
    → b ≤ d
    → estimate_cost model c d ≡ some n
    → (m : ℕ) × (estimate_cost model a b ≡ some m) × (m ≤ n)
unfolding estimate_cost
estimate_cost_mono model a b c d n h k e =
    let w = price_mono model a b c d h k in
    (per_million (price model a b), ground arith, ground arith)

module _ (j : Json) where
  -- The response reports at most these numbers.
  pub record Reports (v : j.Value) (input output : ℕ) : Type 0 where
    pub input_le : unwrap_or (and_then (input_of j v) j.as_u64) 0 ≤ input
    pub output_le : unwrap_or (and_then (output_of j v) j.as_u64) 0 ≤ output
    pub total_le : unwrap_or (and_then (total_of j v) j.as_u64) 0 ≤ input + output

  -- A response that reports at most the input and the output tokens that were reserved, and a total
  -- of at most their sum, which is a number of 64 bits, is no overage: its observation changes
  -- neither the guard nor the budget, where the guard holds that sum and its estimated cost.
  pub observe_usage-within :
      (c : Codec) (os : Os) (now input output cost : ℕ) (model : ModelPolicy) (v : j.Value)
      (g : UsageGuard) (s : System)
      → input + output < u64_mod
      → estimate_cost model input output ≡ some cost
      → g.reserved_tokens ≡ input + output
      → g.reserved_cost ≡ cost
      → Reports v input output
      → observe_usage j c os now model (some v) g s ≡ (ok tt, g, s)
  unfolding observe_usage observation observe is_overage
  observe_usage-within c os now input output cost model v g s w e t k r =
      let a = unwrap_or (and_then (input_of j v) j.as_u64) 0 in
      let b = unwrap_or (and_then (output_of j v) j.as_u64) 0 in
      let (m, em, le) = estimate_cost_mono model a b input output cost r.input_le r.output_le e in
      let il = r.input_le in
      let ol = r.output_le in
      let tl = r.total_le in
      elim (Bool-cases (
        is_some (and_then (input_of j v) j.as_u64)
        || is_some (and_then (output_of j v) j.as_u64)
        || is_some (and_then (total_of j v) j.as_u64))) [
          | inl x ↦ ground arith
          | inr x ↦ ground arith
        ]
