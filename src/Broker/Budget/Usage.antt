-- ===== src/Broker/Budget/Usage.antt =====
-- crates/tentaflake-broker/src/state.rs: what happens to an admitted request, `settle_with_clock`,
-- `observe` with `exhaust_for_overage`, and `release_usage`, with the guards' drops.
use tentaflake.Prelude.{
  ℕ, Bool, true, false, not, ◌&&◌, ◌||◌, Option, none, some, ltb, ◌==◌, ◌-◌, if◌then◌else◌, u64_max,
  checked_sub, Result, ok, err, ◌>>=◌, ◌>>◌, guard, ok_or,
}
use tentaflake.Broker.Budget.State.{BudgetState, Error, budget_eq}
use tentaflake.Broker.Budget.Disk.{
  Codec, Os, verify_owner_and_marker, check_strict_clock, read_strict_budget,
}
use tentaflake.Broker.Budget.Admission.{System, is_strict, persist_budget, check_authority}

-- `check_usage_state`.
unfoldable pub check_usage_state : Codec → Os → ℕ → System → Result Error (Unit {0})
check_usage_state c os now s = do
  guard (not s.limits.persistence_failed) Error.persistence_failed
  check_authority c os now s

-- The write that ends an operation on the budget, and the budget in memory after it.
unfoldable pub store_budget : Codec → Os → BudgetState → System → Result Error (Unit {0}) × System
store_budget c os b s =
    let (written, s') = persist_budget c os b s in
    elim written [
      | ok stored ↦ (ok tt, record s' { limits = record s'.limits { budget = stored } })
      | err e ↦ (err e, s')
    ]

-- `if self.strict.is_some() { budget.last_seen_seconds = Some(now); }`.
unfoldable pub touch : Bool → ℕ → BudgetState → BudgetState
touch strict now b = if strict then record b { last_seen_seconds = some now } else b

unfoldable pub check_settlement : Codec → Os → ℕ → System → Result Error BudgetState
check_settlement c os now s = do
  guard os.locks Error.lock_failed
  held ← ok_or s.limits.strict Error.not_strict
  verify_owner_and_marker os held
  stored ← read_strict_budget c os s.file
  guard (budget_eq stored s.limits.budget) Error.state_changed
  check_strict_clock s.limits.budget now
  unsettled ← ok_or s.limits.budget.unsettled Error.missing_unsettled
  fewer ← ok_or (checked_sub unsettled 1) Error.already_settled
  ok (record s.limits.budget { unsettled = some fewer; last_seen_seconds = some now })

unfoldable pub settle_with_clock : Codec → Os → ℕ → System → Result Error (Unit {0}) × System
settle_with_clock c os now s = elim (check_settlement c os now s) [
  | err e ↦ (err e, s)
  | ok b ↦ store_budget c os b s
]

unfoldable pub check_exhaustion : Codec → Os → ℕ → System → Result Error (Unit {0})
check_exhaustion c os now s = do guard os.locks Error.lock_failed; check_usage_state c os now s

unfoldable pub exhaust_for_overage : Codec → Os → ℕ → System → Result Error (Unit {0}) × System
exhaust_for_overage c os now s =
    let l = s.limits in
    elim (check_exhaustion c os now s) [
      | err e ↦ (err e, s)
      | ok _ ↦
          if l.budget.tokens == u64_max && l.budget.cost_microusd == u64_max
          then (ok tt, s)
          else store_budget c os
              (touch (is_strict l) now
                (record l.budget { tokens = u64_max; cost_microusd = u64_max }))
              s
    ]

-- A usage guard: what the request reserved, and whether an overage could not be recorded.
pub record UsageGuard : Type 0 where
  pub reserved_tokens : ℕ
  pub reserved_cost : ℕ
  pub failed : Bool

abbrev pub set_overage : Bool → System → System
set_overage b s = record s { limits = record s.limits { overage_pending = b } }

-- `tokens > self.reserved_tokens || cost.is_none_or(|cost| cost > self.reserved_cost)`.
unfoldable pub is_overage : UsageGuard → ℕ → Option ℕ → Bool
is_overage g tokens none = true
is_overage g tokens (some cost) = ltb g.reserved_tokens tokens || ltb g.reserved_cost cost

-- `observe` raises the flag of a pending overage, charges the whole budget and lowers the flag; an
-- overage that cannot be charged leaves the flag and the guard's mark up.
unfoldable pub observe :
    Codec
    → Os
    → ℕ
    → ℕ
    → Option ℕ
    → UsageGuard
    → System
    → Result Error (Unit {0}) × UsageGuard × System
observe c os now tokens cost g s =
    if is_overage g tokens cost
    then (let (charged, s') = exhaust_for_overage c os now (set_overage true s) in
        elim charged [
          | err e ↦ (err e, record g { failed = true }, s')
          | ok _ ↦ (ok tt, record g { failed = false }, set_overage false s')
        ])
    else (ok tt, g, s)

-- `(pending != 0).then_some(pending)`.
unfoldable pub fewer_pending : ℕ → Option ℕ
fewer_pending pending = if pending == 0 then none else some pending

-- `pending_usage.and_then(|count| count.checked_sub(1))`, and the write of what is left.
unfoldable pub release_pending : Codec → Os → ℕ → Option ℕ → System → System
release_pending c os now none s = s
release_pending c os now (some count) s = elim (checked_sub count 1) [
  | none ↦ s
  | some pending ↦
      (store_budget c os
        (touch (is_strict s.limits) now
          (record s.limits.budget { pending_usage = fewer_pending pending }))
        s).1
]

unfoldable pub release_checked : Codec → Os → ℕ → System → System
release_checked c os now s = elim (check_usage_state c os now s) [
  | err _ ↦ s
  | ok _ ↦ release_pending c os now s.limits.budget.pending_usage s
]

-- `release_usage`: an orphaned guard stays counted on disk.
unfoldable pub release_usage : Codec → Os → Bool → ℕ → System → System
release_usage c os clear now s =
    if os.locks
    then (let s' : System = record s {
      limits = record s.limits { active = s.limits.active - 1 };
    } in
        if clear then release_checked c os now s' else s')
    else s

-- The drop of a usage guard.
unfoldable pub drop_guard : Codec → Os → ℕ → UsageGuard → System → System
drop_guard c os now g s = release_usage c os (not g.failed) now s

-- The drop of a reservation: one that was never sent is settled, and the outcome is ignored.
unfoldable pub drop_reservation : Codec → Os → ℕ → Bool → System → System
drop_reservation c os now dispatched s = if dispatched then s else (settle_with_clock c os now s).1
