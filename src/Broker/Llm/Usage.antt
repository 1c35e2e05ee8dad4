-- ===== src/Broker/Llm/Usage.antt =====
-- crates/tentaflake-broker/src/broker.rs: the cost of a request, the usage that a response reports
-- and its observation by the guard of the budget.
use tentaflake.Broker.Budget.State.{Error}
use tentaflake.Broker.Budget.Disk.{Codec, Os}
use tentaflake.Broker.Budget.Usage.{UsageGuard, observe}
use tentaflake.Prelude.{
  ◌∷◌, u64_max, Option, ◌==◌, strip_prefix, codes, is_some_and, leb, ◌||◌, ok, ltb, some, ◌*◌,
  is_some, Result, Bool, Text, ◌+◌, unwrap_or, none, ℕ, checked_add, ◌/◌, false, u64_mod, list_eq,
  [], ◌&&◌, ◌^◌, is_digit, if◌then◌else◌, all, or_else, and_then,
}
use tentaflake.Broker.Budget.Usage.{observe, UsageGuard}
use tentaflake.Broker.Json.{get_key, Json}
use tentaflake.Broker.Budget.Admission.{System}

pub record ModelPolicy : Type 0 where
  pub name : Text
  pub input_microusd_per_million : ℕ
  pub output_microusd_per_million : ℕ

abbrev pub u128_mod : ℕ
u128_mod = 2 ^ 128

-- `div_ceil(1_000_000)`.
abbrev pub per_million : ℕ → ℕ
per_million n = (n + 999_999) / 1_000_000

unfoldable pub estimate_cost : ModelPolicy → ℕ → ℕ → Option ℕ
estimate_cost model input_tokens output_tokens =
    let input = input_tokens * model.input_microusd_per_million in
    let output = output_tokens * model.output_microusd_per_million in
    if ltb (input + output) u128_mod && ltb (per_million (input + output)) u64_mod
    then some (per_million (input + output))
    else none

unfoldable pub conservative_input_tokens : ℕ → ℕ
conservative_input_tokens body_bytes = if ltb body_bytes u64_mod then body_bytes else u64_max

-- `strip_prefix` and the tests of the snapshot in `provider_model_matches`.
abbrev pub starts_with_digit : Text → Bool
starts_with_digit [] = false
starts_with_digit (b ∷ s) = is_digit b

abbrev pub ends_with_digit : Text → Bool
ends_with_digit [] = false
ends_with_digit (b ∷ []) = is_digit b
ends_with_digit (b ∷ c ∷ s) = ends_with_digit (c ∷ s)

abbrev pub count_digits : Text → ℕ
count_digits [] = 0
count_digits (b ∷ s) = (if is_digit b then 1 else 0) + count_digits s

unfoldable pub is_snapshot : Text → Bool
is_snapshot s =
    all (λ b. is_digit b || b == b'-') s
    && starts_with_digit s
    && ends_with_digit s
    && leb 4 (count_digits s)

unfoldable pub provider_model_matches : Text → Text → Bool
provider_model_matches requested returned =
    list_eq returned requested
    || is_some_and (strip_prefix requested returned)
        (λ rest. is_some_and (strip_prefix (b'-' ∷ []) rest) is_snapshot)

module _ (j : Json) where
  abbrev pub input_of : j.Value → Option j.Value
  input_of v = or_else (get_key j v (codes "input_tokens")) (get_key j v (codes "prompt_tokens"))

  abbrev pub output_of : j.Value → Option j.Value
  output_of v =
      or_else (get_key j v (codes "output_tokens")) (get_key j v (codes "completion_tokens"))

  abbrev pub total_of : j.Value → Option j.Value
  total_of v = get_key j v (codes "total_tokens")

  unfoldable pub parse_usage : Option j.Value → Option (ℕ × ℕ × ℕ)
  parse_usage none = none
  parse_usage (some v) = and_then (and_then (input_of v) j.as_u64) (λ input.
      and_then (and_then (output_of v) j.as_u64) (λ output.
        and_then (and_then (total_of v) j.as_u64) (λ total.
          if is_some_and (checked_add input output) (λ n. n == total)
          then some (input, output, total)
          else none)))

  -- What `observe_usage` tells the guard, the tokens and the cost, where it tells anything.
  unfoldable pub observation : ModelPolicy → Option j.Value → Option (ℕ × Option ℕ)
  observation model none = none
  observation model (some v) =
      let input = and_then (input_of v) j.as_u64 in
      let output = and_then (output_of v) j.as_u64 in
      let total = and_then (total_of v) j.as_u64 in
      if is_some input || is_some output || is_some total
      then elim (checked_add (unwrap_or input 0) (unwrap_or output 0)) [
        | none ↦ some (u64_max, none)
        | some components ↦ some (
          if ltb components (unwrap_or total 0) then unwrap_or total 0 else components,
          estimate_cost model (unwrap_or input 0) (unwrap_or output 0),
        )
      ]
      else none

  -- `observe_usage`.
  unfoldable pub observe_usage :
      Codec
      → Os
      → ℕ
      → ModelPolicy
      → Option j.Value
      → UsageGuard
      → System
      → Result Error (Unit {0}) × UsageGuard × System
  observe_usage c os now model usage g s = elim (observation model usage) [
    | none ↦ (ok tt, g, s)
    | some (tokens, cost) ↦ observe c os now tokens cost g s
  ]
