-- ===== src/Broker/Llm/Admitted.antt =====
-- A planned request meets the budget: what the policy's validation, the plan, the reservation and the
-- observation of the usage give together.
use tentaflake.Broker.Llm.Plans.{plan-Planned}
use tentaflake.Broker.Budget.Durability.{reserve_with_clock-durable}
use tentaflake.Broker.Llm.Usage.{observe_usage, ModelPolicy, estimate_cost}
use tentaflake.Prelude.{
  arith, ℕ, inr, ◌<◌, length, u64_mod, Option, inl, ◌≡◌, ◌∷◌, [], true, some, Text, List,
  Result-cases, ◌*◌, Bool-cases, ok, list_eq,
}
use tentaflake.Broker.Config.{valid_models, LlmPolicy}
use tentaflake.Broker.Json.{Json}
use tentaflake.Broker.Llm.Requests.{Plan, Request, find_model, plan}
use tentaflake.Broker.Budget.Usage.{UsageGuard}
use tentaflake.Broker.Budget.Admission.{is_strict, reserve_with_clock, System}
use tentaflake.Broker.Budget.Reservations.{Reservation, reserve_llm}
use tentaflake.Broker.Budget.Disk.{Codec, read_strict_budget, Os}
use tentaflake.Broker.Llm.Costs.{Reports, observe_usage-within}
use tentaflake.Broker.Budget.Storage.{Readable}

find_model-positive :
    (seen : List Text) (name : Text) (ms : List ModelPolicy) (m : ModelPolicy)
    → valid_models seen ms ≡ true
    → find_model name ms ≡ some m
    → (0 < m.input_microusd_per_million) × (0 < m.output_microusd_per_million)
unfolding find_model valid_models
find_model-positive seen name [] m v h = cc
find_model-positive seen name (x ∷ ms) m v h = elim (Bool-cases (list_eq x.name name)) [
  | inl e ↦ (ground arith, ground arith)
  | inr e ↦ find_model-positive (x.name ∷ seen) name ms m (ground arith) (ground arith)
]

estimate_cost_pos :
    (m : ModelPolicy) (input output cost : ℕ)
    → 0 < m.output_microusd_per_million
    → 0 < output
    → estimate_cost m input output ≡ some cost
    → 0 < cost
unfolding estimate_cost
estimate_cost_pos m input output cost h k e =
    let w : 0 < output * m.output_microusd_per_million = grind arith in ground arith

module _ (j : Json) (c : Codec) where
  -- A strict broker with valid models acknowledges a planned request only once its charge is on
  -- disk: a restart that can read the file reads back the budget that memory holds. The clock is
  -- a number of 64 bits.
  pub plan-durable :
      (policy : LlmPolicy) (r : Request) (p : Plan j) (os later : Os) (now : ℕ) (s s' : System)
      (held : Option Reservation × Option UsageGuard)
      → valid_models [] policy.allowed_models ≡ true
      → is_strict s.limits ≡ true
      → now < u64_mod
      → plan j policy r ≡ ok p
      → reserve_llm c os p.tokens p.cost now s ≡ (ok held, s')
      → Readable later
      → read_strict_budget c later s'.file ≡ ok s'.limits.budget
  unfolding reserve_llm
  plan-durable policy r p os later now s s' held v strict w h e k =
      let planned = plan-Planned j policy r p h in
      let pos =
        find_model-positive [] p.model.name policy.allowed_models p.model v planned.model_in in
      let cost =
        estimate_cost_pos p.model (length r.body) p.completion_tokens p.cost pos.1 planned.positive
          planned.cost_is in
      elim (Result-cases (reserve_with_clock c os p.tokens p.cost (is_strict s.limits) now s).0) [
        | inr (x, q) ↦ absurd (ground arith)
        | inl (_, q) ↦
            reserve_with_clock-durable c os later p.tokens p.cost (is_strict s.limits) now s s'
              strict w (omega (arith, planned.tokens_are, planned.positive)) cost (ground arith) k
      ]

  -- A response to a planned request leaves the guard and the budget as they are where it reports at
  -- most the bytes of the request as input, at most the limit that was sent as output, and a total
  -- of at most their sum.
  pub plan-within :
      (policy : LlmPolicy) (r : Request) (p : Plan j) (os₁ os₂ : Os) (now₁ now₂ : ℕ)
      (s s' t : System) (held : Option Reservation) (g : UsageGuard) (v : j.Value)
      → plan j policy r ≡ ok p
      → reserve_llm c os₁ p.tokens p.cost now₁ s ≡ (ok (held, some g), s')
      → Reports j v (length r.body) p.completion_tokens
      → observe_usage j c os₂ now₂ p.model (some v) g t ≡ (ok tt, g, t)
  unfolding reserve_llm
  plan-within policy r p os₁ os₂ now₁ now₂ s s' t held g v h e k =
      let planned = plan-Planned j policy r p h in
      let tokens = planned.tokens_are in
      elim (Result-cases (reserve_with_clock c os₁ p.tokens p.cost (is_strict s.limits) now₁ s).0) [
        | inr (x, q) ↦ absurd (ground arith)
        | inl (_, q) ↦
            observe_usage-within j c os₂ now₂ (length r.body) p.completion_tokens p.cost p.model v g
              t (omega (arith, tokens, planned.tokens_fit)) planned.cost_is (ground arith)
              (ground arith) k
      ]
