-- ===== src/Broker/Budget/State.antt =====
-- crates/tentaflake-broker/src/state.rs: the records of the budget limits and the errors of their
-- operations. A `u64` is a native number; where the source adds, the model checks the 64-bit bound.
use tentaflake.Prelude.{
  ℕ, ◌<◌, ◌≡◌, refl, Bool, true, false, ◌&&◌, List, Option, none, some, arith, ◌==◌, list_eq,
  list_eq-eq, list_eq_refl, length, u64_mod,
}

pub record BudgetState : Type 0 where
  pub day : ℕ
  pub requests : ℕ
  pub tokens : ℕ
  pub cost_microusd : ℕ
  pub last_seen_seconds : Option ℕ
  pub unsettled : Option ℕ
  pub pending_usage : Option ℕ
  pub checksum : Option (List ℕ)

pub record RateState : Type 0 where
  pub window : ℕ
  pub requests : ℕ

-- The device and inode of the lock file that a strict broker holds.
pub record StrictState : Type 0 where
  pub dev : ℕ
  pub ino : ℕ

-- `inner` is the triple behind the mutex: `budget`, `rate` and `active`.
pub record Limits : Type 0 where
  pub window_seconds : ℕ
  pub max_requests_per_window : ℕ
  pub daily_request_budget : ℕ
  pub daily_token_budget : ℕ
  pub daily_cost_microusd : ℕ
  pub strict : Option StrictState
  pub persistence_failed : Bool
  pub overage_pending : Bool
  pub budget : BudgetState
  pub rate : RateState
  pub active : ℕ

-- One constructor for each message of the source.
pub data Error : Type 0 where
  lock_failed persistence_failed overage_in_progress : Error
  cannot_open cannot_stat not_private : Error
  lock_replaced cannot_read_marker invalid_marker strict_marker_present cannot_inspect_marker :
      Error
  cannot_read_state state_too_large invalid_state invalid_checksum inconsistent_counters : Error
  missing_checkpoint invalid_checkpoint clock_rollback state_changed : Error
  unresolved_usage pending_usage_next_day unsettled_next_day : Error
  rate_limit_exceeded daily_budget_exceeded missing_unsettled : Error
  too_many_pending too_many_active not_strict already_settled : Error
  cannot_create cannot_truncate cannot_protect cannot_encode cannot_sync : Error
  cannot_exchange cannot_remove cannot_sync_directory cannot_replace : Error
  invalid_clock state_exists lock_unavailable : Error

-- `BudgetState::default()`.
abbrev pub default : BudgetState
default = record {
  day = 0;
  requests = 0;
  tokens = 0;
  cost_microusd = 0;
  last_seen_seconds = none;
  unsettled = none;
  pending_usage = none;
  checksum = none;
}

-- The derived `PartialEq`.
abbrev pub opt_eq : Option ℕ → Option ℕ → Bool
opt_eq none none = true
opt_eq none (some b) = false
opt_eq (some a) none = false
opt_eq (some a) (some b) = a == b

abbrev pub opt_list_eq : Option (List ℕ) → Option (List ℕ) → Bool
opt_list_eq none none = true
opt_list_eq none (some b) = false
opt_list_eq (some a) none = false
opt_list_eq (some a) (some b) = list_eq a b

pub opt_eq-eq : (a b : Option ℕ) → opt_eq a b ≡ true → a ≡ b
opt_eq-eq none none h = refl
opt_eq-eq none (some b) h = cc
opt_eq-eq (some a) none h = cc
opt_eq-eq (some a) (some b) h = ground arith

pub opt_eq_refl : (a : Option ℕ) → opt_eq a a ≡ true
opt_eq_refl none = refl
opt_eq_refl (some a) = ground arith

pub opt_list_eq-eq : (a b : Option (List ℕ)) → opt_list_eq a b ≡ true → a ≡ b
opt_list_eq-eq none none h = refl
opt_list_eq-eq none (some b) h = cc
opt_list_eq-eq (some a) none h = cc
opt_list_eq-eq (some a) (some b) h = ground (arith, list_eq-eq a b)

pub opt_list_eq_refl : (a : Option (List ℕ)) → opt_list_eq a a ≡ true
opt_list_eq_refl none = refl
opt_list_eq_refl (some a) = list_eq_refl a

unfoldable pub budget_eq : BudgetState → BudgetState → Bool
budget_eq a b =
    a.day == b.day
    && a.requests == b.requests
    && a.tokens == b.tokens
    && a.cost_microusd == b.cost_microusd
    && opt_eq a.last_seen_seconds b.last_seen_seconds
    && opt_eq a.unsettled b.unsettled
    && opt_eq a.pending_usage b.pending_usage
    && opt_list_eq a.checksum b.checksum

pub budget_eq-eq : (a b : BudgetState) → budget_eq a b ≡ true → a ≡ b
unfolding budget_eq
budget_eq-eq a b h = ground (
  arith,
  opt_eq-eq a.last_seen_seconds b.last_seen_seconds,
  opt_eq-eq a.unsettled b.unsettled,
  opt_eq-eq a.pending_usage b.pending_usage,
  opt_list_eq-eq a.checksum b.checksum,
)

pub budget_eq_refl : (a : BudgetState) → budget_eq a a ≡ true
unfolding budget_eq
budget_eq_refl a = ground (
  arith,
  opt_eq_refl a.last_seen_seconds,
  opt_eq_refl a.unsettled,
  opt_eq_refl a.pending_usage,
  opt_list_eq_refl a.checksum,
)

-- The values that the source's types can hold.
abbrev pub OptFits : Option ℕ → Type 0
OptFits none = Unit {0}
OptFits (some n) = n < u64_mod

abbrev pub IsDigest : Option (List ℕ) → Type 0
IsDigest none = Unit {0}
IsDigest (some d) = length d ≡ 32

pub record Fits (b : BudgetState) : Type 0 where
  pub day_fits : b.day < u64_mod
  pub requests_fits : b.requests < u64_mod
  pub tokens_fits : b.tokens < u64_mod
  pub cost_fits : b.cost_microusd < u64_mod
  pub last_seen_fits : OptFits b.last_seen_seconds
  pub unsettled_fits : OptFits b.unsettled
  pub pending_fits : OptFits b.pending_usage
  pub checksum_fits : IsDigest b.checksum
