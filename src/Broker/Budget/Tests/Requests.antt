-- ===== src/Broker/Budget/Tests/Requests.antt =====
-- A planned request on the broker's first day, its response, and a stream that ends.
use tentaflake.Broker.Samples.{json, small, policy, request, usage}
use tentaflake.Broker.Llm.Tests.{planned, is_planned}
use tentaflake.Broker.Llm.Admitted.{plan-durable, plan-within}
use tentaflake.Broker.Llm.Usage.{observe_usage, estimate_cost}
use tentaflake.Broker.Llm.Costs.{observe_usage-within, Reports}
use tentaflake.Broker.Budget.Reservations.{reserve_llm}
use tentaflake.Broker.Budget.Usage.{UsageGuard}
use tentaflake.Broker.Budget.Tests.{
  codec, healthy, noon, first_day, encode, decode, digest, checked, healthy-Readable,
}
use tentaflake.Broker.Budget.Digest.{pending_bytes, to_be_bytes, digest_message, optional_bytes}
use tentaflake.Broker.Budget.State.{budget_eq}
use tentaflake.Broker.Config.{valid_models}
use tentaflake.Broker.Budget.Disk.{
  verify_owner_and_marker, atomic_json, open_private, is_consistent, prepare_temporary, stamp,
  read_strict_budget, strict_digest, replace_state, check_strict_clock,
}
use tentaflake.Broker.Budget.Admission.{
  System, propose, check_authority, roll_window, count_usage, charge, roll_day, admit, over_budget,
  reserve_with_clock, count_reservation, denial, next_active, persist_budget, commit, ready, hold,
}
use tentaflake.Prelude.{refl, ok, some, arith, false, ◌+◌, ◌≡◌}

abbrev held : UsageGuard
held = record { reserved_tokens = 421; reserved_cost = 821; failed = false }

abbrev reserved : System
reserved = (reserve_llm codec healthy 421 821 (noon + 5) first_day).1

is_reserved :
    reserve_llm codec healthy 421 821 (noon + 5) first_day
    ≡ (ok (some (record { dispatched = false }), some held), reserved)
unfolding first_day reserve_with_clock ready check_authority verify_owner_and_marker open_private
    read_strict_budget decode encode checked strict_digest digest digest_message to_be_bytes
    optional_bytes pending_bytes is_consistent budget_eq check_strict_clock hold roll_day
    roll_window admit propose denial over_budget charge count_reservation count_usage next_active
    commit persist_budget atomic_json prepare_temporary replace_state stamp reserve_llm
is_reserved = refl

plan-durable_example : read_strict_budget codec healthy reserved.file ≡ ok reserved.limits.budget
unfolding first_day valid_models
plan-durable_example =
    plan-durable json codec policy request planned healthy healthy (noon + 5) first_day reserved
      (some (record { dispatched = false }), some held) refl refl (omega arith) is_planned
      is_reserved healthy-Readable

is_reported : Reports json usage 21 400
is_reported = record { input_le = omega arith; output_le = omega arith; total_le = omega arith }

plan-within_example :
    observe_usage json codec healthy (noon + 9) small (some usage) held reserved
    ≡ (ok tt, held, reserved)
plan-within_example =
    plan-within json codec policy request planned healthy healthy (noon + 5) (noon + 9) first_day
      reserved reserved (some (record { dispatched = false })) held usage is_planned is_reserved
      is_reported

observe_usage-within_example :
    observe_usage json codec healthy (noon + 9) small (some usage) held reserved
    ≡ (ok tt, held, reserved)
unfolding estimate_cost
observe_usage-within_example =
    observe_usage-within json codec healthy (noon + 9) 21 400 821 small usage held reserved
      (omega arith) refl refl refl is_reported
