-- ===== src/Broker/Budget/Lifecycle.antt =====
-- crates/tentaflake-broker/src/state.rs: `initialize_strict_at`, `reconcile_strict_at` and `load_at`.
use tentaflake.Broker.Budget.Disk.{
  check_strict_clock, verify_owner_and_marker, read_strict_budget, stamp, atomic_json, open_private,
  strict_marker, checkpoint_clock, reject_strict_marker, Meta, Os, Codec,
}
use tentaflake.Broker.Budget.State.{BudgetState, StrictState, Limits, default, Error}
use tentaflake.Prelude.{
  is_some, not, Option, false, List, Bool, none, ℕ, Result, err, ◌==◌, ◌/◌, unwrap_or, some, true,
  if◌then◌else◌, ◌>>=◌, ◌>>◌, guard, ok, ok_or,
}

-- What the operating system answers while a budget is provisioned; `torn` is what a write that
-- failed left in its file.
pub record Provision : Type 0 where
  pub lock_file : Option (Option Meta)
  pub locks : Bool
  pub inspects_state : Bool
  pub syncs_lock : Bool
  pub syncs_lock_parent : Bool
  pub creates_marker : Bool
  pub writes_marker : Bool
  pub syncs_marker : Bool
  pub syncs_marker_parent : Bool
  pub creates_state : Bool
  pub writes_state : Bool
  pub syncs_state : Bool
  pub syncs_state_parent : Bool
  pub torn : List ℕ

-- The marker and the state file.
pub record Files : Type 0 where
  pub marker : Option (List ℕ)
  pub state : Option (List ℕ)

-- The checks of `initialize_strict_at` before it writes; `open_or_create_lock` tests what
-- `open_private` tests.
unfoldable pub check_provision : Provision → ℕ → Option (List ℕ) → Result Error (Unit {0})
check_provision w now state = do
  guard (not (now == 0)) Error.invalid_clock
  _ ← open_private w.lock_file
  guard w.locks Error.lock_unavailable
  guard w.inspects_state Error.cannot_stat
  guard (not (is_some state)) Error.state_exists
  guard w.syncs_lock Error.cannot_sync
  guard w.syncs_lock_parent Error.cannot_sync_directory

-- The marker's file, which must be new, and its content.
unfoldable pub write_marker :
    Provision → Option (List ℕ) → Result Error (Unit {0}) × Option (List ℕ)
write_marker w (some m) = (err Error.cannot_create, some m)
write_marker w none =
    if not w.creates_marker
    then (err Error.cannot_create, none)
    else if not w.writes_marker
    then (err Error.cannot_encode, some w.torn)
    else (
      do
        guard w.syncs_marker Error.cannot_sync
        guard w.syncs_marker_parent Error.cannot_sync_directory,
      some strict_marker,
    )

unfoldable pub write_state : Provision → List ℕ → Result Error (Unit {0}) × Option (List ℕ)
write_state w bytes =
    if not w.creates_state
    then (err Error.cannot_create, none)
    else if not w.writes_state
    then (err Error.cannot_encode, some w.torn)
    else (
      do
        guard w.syncs_state Error.cannot_sync
        guard w.syncs_state_parent Error.cannot_sync_directory,
      some bytes,
    )

unfoldable pub initial_budget : ℕ → BudgetState
initial_budget now = record default {
  day = now / 86400;
  last_seen_seconds = some now;
  unsettled = some 0;
}

-- `StrictState::acquire`; `locks` is the answer of `flock`.
unfoldable pub acquire_state : Os → Bool → Result Error StrictState
acquire_state os locks = do
  m ← open_private os.lock_file
  guard locks Error.lock_unavailable
  verify_owner_and_marker os (record { dev = m.dev; ino = m.ino })
  ok (record { dev = m.dev; ino = m.ino })

-- The settings that a broker is loaded with.
pub record Settings : Type 0 where
  pub window_seconds : ℕ
  pub max_requests_per_window : ℕ
  pub daily_request_budget : ℕ
  pub daily_token_budget : ℕ
  pub daily_cost_microusd : ℕ

unfoldable pub loaded : Settings → Option StrictState → BudgetState → Limits
loaded p strict budget = record {
  window_seconds = p.window_seconds;
  max_requests_per_window = p.max_requests_per_window;
  daily_request_budget = p.daily_request_budget;
  daily_token_budget = p.daily_token_budget;
  daily_cost_microusd = p.daily_cost_microusd;
  strict = strict;
  persistence_failed = false;
  overage_pending = false;
  budget = budget;
  rate = record { window = 0; requests = 0 };
  active = 0;
}

module _ (c : Codec) where
  -- `initialize_strict_at`: the result, and the files that are left.
  unfoldable pub initialize_strict_at : Provision → ℕ → Files → Result Error (Unit {0}) × Files
  initialize_strict_at w now f = elim (check_provision w now f.state) [
    | err e ↦ (err e, f)
    | ok _ ↦
        let (r, marker) = write_marker w f.marker in
        let (q, state) = write_state w (c.encode (stamp c true (initial_budget now))) in
        elim r [
          | err e ↦ (err e, record f { marker = marker })
          | ok _ ↦ (q, record { marker = marker; state = state })
        ]
  ]

  -- The lock that a strict broker holds and the budget that it finds.
  unfoldable pub read_held :
      Os → Bool → ℕ → Option (List ℕ) → Result Error (StrictState × BudgetState)
  read_held os locks now file = do
    held ← acquire_state os locks
    budget ← read_strict_budget c os file
    check_strict_clock budget now
    ok (held, budget)

  -- The budget that `reconcile_strict_at` writes.
  abbrev pub reconciled : ℕ → BudgetState → BudgetState
  reconciled now b = record b {
    unsettled = some 0;
    pending_usage = none;
    last_seen_seconds = some now;
  }

  -- `reconcile_strict_at`: the reservations and the usage that were resolved, and the state file.
  unfoldable pub reconcile_strict_at :
      Os → Bool → ℕ → Option (List ℕ) → Result Error (ℕ × ℕ) × Option (List ℕ)
  reconcile_strict_at os locks now file = elim (read_held os locks now file) [
    | err e ↦ (err e, file)
    | ok (held, b) ↦
        let (r, after) = atomic_json c os true (reconciled now b) file in
        (
          elim r [
            | err e ↦ err e
            | ok _ ↦ ok (unwrap_or b.unsettled 0, unwrap_or b.pending_usage 0)
          ],
          after,
        )
  ]

  -- The budget of an ordinary broker: the stored one, or the default where there is no file.
  unfoldable pub read_legacy : Os → Bool → Option (List ℕ) → Result Error BudgetState
  read_legacy os locks file = do
    guard os.creates_parent Error.cannot_create
    _ ← open_private os.lock_file
    guard locks Error.lock_unavailable
    reject_strict_marker os
    elim file [
      | none ↦ ok default
      | some bytes ↦ do
        guard os.state_reads Error.cannot_read_state
        ok_or (c.decode bytes) Error.invalid_state
    ]

  -- `load_at`, strict where it is given the time: the limits, and the state file.
  unfoldable pub load_at :
      Os → Bool → Settings → Option ℕ → Option (List ℕ) → Result Error Limits × Option (List ℕ)
  load_at os locks p (some now) file = elim (read_held os locks now file) [
    | err e ↦ (err e, file)
    | ok (held, b) ↦
        let (r, after) = checkpoint_clock c os b now file in
        (elim r [ err e ↦ err e | ok v ↦ ok (loaded p (some held) v) ], after)
  ]
  load_at os locks p none file =
      (do budget ← read_legacy os locks file; ok (loaded p none budget), file)
