-- ===== src/Broker/Budget/Reservations.antt =====
-- crates/tentaflake-broker/src/state.rs: `Reservation`, and `reserve` and `reserve_llm`, which give it
-- out with the guard of the usage where the budget is strict.
use tentaflake.Broker.Budget.Usage.{UsageGuard, settle_with_clock}
use tentaflake.Broker.Budget.State.{Error}
use tentaflake.Broker.Budget.Admission.{System, reserve_with_clock, is_strict}
use tentaflake.Prelude.{true, Result, some, ℕ, err, Option, Bool, ok, none, false, if◌then◌else◌}
use tentaflake.Broker.Budget.Disk.{Os, Codec}

pub record Reservation : Type 0 where
  pub dispatched : Bool

unfoldable pub mark_dispatched : Reservation → Reservation
mark_dispatched r = record r { dispatched = true }

unfoldable pub settle : Codec → Os → ℕ → System → Result Error (Unit {0}) × System
settle c os now s = settle_with_clock c os now s

unfoldable pub reserve :
    Codec → Os → ℕ → ℕ → ℕ → System → Result Error (Option Reservation) × System
reserve c os tokens cost now s =
    let (r, s') = reserve_with_clock c os tokens cost false now s in
    (
      elim r [
        | err e ↦ err e
        | ok _ ↦ ok (if is_strict s.limits then some (record { dispatched = false }) else none)
      ],
      s',
    )

unfoldable pub reserve_llm :
    Codec → Os → ℕ → ℕ → ℕ → System → Result Error (Option Reservation × Option UsageGuard) × System
reserve_llm c os tokens cost now s =
    let (r, s') = reserve_with_clock c os tokens cost (is_strict s.limits) now s in
    let guard_of : UsageGuard = record {
      reserved_tokens = tokens;
      reserved_cost = cost;
      failed = false;
    } in
    (
      elim r [
        | err e ↦ err e
        | ok _ ↦ ok (
            if is_strict s.limits
            then (some (record { dispatched = false }), some guard_of)
            else (none, none))
      ],
      s',
    )
