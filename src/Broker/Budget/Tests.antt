-- ===== src/Broker/Budget/Tests.antt =====
-- A codec that meets the assumptions, a broker on its first day, and the theorems at this input.
mod Requests
mod Streams
use tentaflake.Broker.Budget.Disk.{
  absent, verify_owner_and_marker, atomic_json, open_private, Codec, strict_marker, is_consistent,
  prepare_temporary, stamp, read_strict_budget, strict_digest, replace_state, check_strict_clock,
  Meta, Os, checkpoint_clock,
}
use tentaflake.Prelude.{
  ◌≡◌, ltb, ◌≤◌, List, ◌==◌, suc, [], refl, some, Bool, ◌∷◌, Option, ◌&&◌, ℕ, u64_mod, length, zero,
  true, none, if◌then◌else◌, ◌+◌, ok, ◌↔◌, ◌*◌, arith, ◌∙◌, false, unwrap_or,
}
use tentaflake.Broker.Budget.State.{
  BudgetState, Fits, IsDigest, budget_eq, default, OptFits, Error, Limits,
}
use tentaflake.Broker.Budget.Admission.{
  propose, check_authority, roll_window, count_usage, charge, roll_day, System, admit, over_budget,
  reserve_with_clock, count_reservation, denial, next_active, persist_budget, commit, ready, hold,
  refuse,
}
use tentaflake.Broker.Budget.Digest.{pending_bytes, to_be_bytes, digest_message, optional_bytes}
use tentaflake.Broker.Budget.Usage.{
  check_settlement, UsageGuard, settle_with_clock, is_overage, store_budget, observe,
}
use tentaflake.Broker.Budget.Charging.{
  reserve_with_clock-Charged, reserve_with_clock-refused, SameCounters, Charged,
}
use tentaflake.Broker.Budget.Storage.{Readable}
use tentaflake.Broker.Budget.DailyBudget.{on_day, run-Within, Within}
use tentaflake.Broker.Budget.History.{spend, nothing, Event, Call, reserves, run, settles}
use tentaflake.Broker.Budget.Closing.{run-persist_budget, run-overage}
use tentaflake.Broker.Budget.Durability.{reserve_with_clock-durable}
use tentaflake.Broker.Budget.Keeping.{Settles, settle_with_clock-Settles}
use tentaflake.Broker.Budget.Lifecycle.{
  write_state, read_held, reconciled, reconcile_strict_at, acquire_state, Settings, Provision,
  initial_budget, load_at, write_marker, initialize_strict_at, check_provision, loaded, Files,
}
use tentaflake.Broker.Budget.Restart.{
  initialize_strict_at-stored, load_at-durable, SameCharge, reconcile_strict_at-kept,
}

abbrev optional : Option ℕ → List ℕ → List ℕ
optional none rest = 0 ∷ 0 ∷ rest
optional (some n) rest = 1 ∷ n ∷ rest

abbrev sealed : Option (List ℕ) → List ℕ
sealed none = 0 ∷ []
sealed (some d) = 1 ∷ d

abbrev unsealed : List ℕ → Option (List ℕ)
unsealed [] = none
unsealed (zero ∷ d) = none
unsealed (suc n ∷ d) = some d

abbrev read_optional : ℕ → ℕ → Option ℕ
read_optional zero n = none
read_optional (suc k) n = some n

abbrev opt_fits : Option ℕ → Bool
opt_fits none = true
opt_fits (some n) = ltb n u64_mod

abbrev digest_fits : Option (List ℕ) → Bool
digest_fits none = true
digest_fits (some d) = length d == 32

abbrev all_fit : BudgetState → Bool
all_fit b =
    ltb b.day u64_mod
    && ltb b.requests u64_mod
    && ltb b.tokens u64_mod
    && ltb b.cost_microusd u64_mod
    && opt_fits b.last_seen_seconds
    && opt_fits b.unsettled
    && opt_fits b.pending_usage
    && digest_fits b.checksum

encode : BudgetState → List ℕ
encode b =
    b.day
    ∷ b.requests
    ∷ b.tokens
    ∷ b.cost_microusd
    ∷ optional b.last_seen_seconds
        (optional b.unsettled (optional b.pending_usage (sealed b.checksum)))

checked : BudgetState → Option BudgetState
checked b = if all_fit b then some b else none

decode : List ℕ → Option BudgetState
decode (d ∷ r ∷ t ∷ k ∷ a ∷ l ∷ e ∷ u ∷ g ∷ p ∷ rest) = checked (record {
  day = d;
  requests = r;
  tokens = t;
  cost_microusd = k;
  last_seen_seconds = read_optional a l;
  unsettled = read_optional e u;
  pending_usage = read_optional g p;
  checksum = unsealed rest;
})
decode _ = none

digest : List ℕ → List ℕ
digest m =
    length m
    ∷ 0
    ∷ 0
    ∷ 0
    ∷ 0
    ∷ 0
    ∷ 0
    ∷ 0
    ∷ 0
    ∷ 0
    ∷ 0
    ∷ 0
    ∷ 0
    ∷ 0
    ∷ 0
    ∷ 0
    ∷ 0
    ∷ 0
    ∷ 0
    ∷ 0
    ∷ 0
    ∷ 0
    ∷ 0
    ∷ 0
    ∷ 0
    ∷ 0
    ∷ 0
    ∷ 0
    ∷ 0
    ∷ 0
    ∷ 0
    ∷ 0
    ∷ []

length-digest : (m : List ℕ) → length (digest m) ≡ 32
unfolding digest
length-digest m = refl

length-optional : (o : Option ℕ) (rest : List ℕ) → length (optional o rest) ≡ length rest + 2
length-optional none rest = omega arith
length-optional (some n) rest = omega arith

length-sealed : (o : Option (List ℕ)) → IsDigest o → length (sealed o) ≤ 33
length-sealed none h = omega arith
length-sealed (some d) h = omega arith

length-encode : (b : BudgetState) → Fits b → length (encode b) ≤ 4096
unfolding encode
length-encode b f = omega (
  arith,
  length-optional b.last_seen_seconds
      (optional b.unsettled (optional b.pending_usage (sealed b.checksum))),
  length-optional b.unsettled (optional b.pending_usage (sealed b.checksum)),
  length-optional b.pending_usage (sealed b.checksum),
  length-sealed b.checksum f.checksum_fits,
)

opt_fits_iff : (o : Option ℕ) → (opt_fits o ≡ true) ↔ OptFits o
opt_fits_iff none = (λ _. tt, λ _. refl)
opt_fits_iff (some n) = ground arith

digest_fits_iff : (o : Option (List ℕ)) → (digest_fits o ≡ true) ↔ IsDigest o
digest_fits_iff none = (λ _. tt, λ _. refl)
digest_fits_iff (some d) = ground arith

Fits-all_fit : (b : BudgetState) → Fits b → all_fit b ≡ true
Fits-all_fit b f =
    let l = (opt_fits_iff b.last_seen_seconds).1 f.last_seen_fits in
    let u = (opt_fits_iff b.unsettled).1 f.unsettled_fits in
    let p = (opt_fits_iff b.pending_usage).1 f.pending_fits in
    let d = (digest_fits_iff b.checksum).1 f.checksum_fits in ground arith

all_fit-Fits : (b : BudgetState) → all_fit b ≡ true → Fits b
all_fit-Fits b h = record {
  day_fits = ground arith;
  requests_fits = ground arith;
  tokens_fits = ground arith;
  cost_fits = ground arith;
  last_seen_fits = (opt_fits_iff b.last_seen_seconds).0 (ground arith);
  unsettled_fits = (opt_fits_iff b.unsettled).0 (ground arith);
  pending_fits = (opt_fits_iff b.pending_usage).0 (ground arith);
  checksum_fits = (digest_fits_iff b.checksum).0 (ground arith);
}

rebuilt :
    (d r t k : ℕ) (l u p : Option ℕ) (x : Option (List ℕ))
    → decode (d ∷ r ∷ t ∷ k ∷ optional l (optional u (optional p (sealed x))))
      ≡ checked (record {
        day = d;
        requests = r;
        tokens = t;
        cost_microusd = k;
        last_seen_seconds = l;
        unsettled = u;
        pending_usage = p;
        checksum = x;
      })
unfolding decode
rebuilt d r t k none none none none = refl
rebuilt d r t k none none none (some x) = refl
rebuilt d r t k none none (some p) none = refl
rebuilt d r t k none none (some p) (some x) = refl
rebuilt d r t k none (some u) none none = refl
rebuilt d r t k none (some u) none (some x) = refl
rebuilt d r t k none (some u) (some p) none = refl
rebuilt d r t k none (some u) (some p) (some x) = refl
rebuilt d r t k (some l) none none none = refl
rebuilt d r t k (some l) none none (some x) = refl
rebuilt d r t k (some l) none (some p) none = refl
rebuilt d r t k (some l) none (some p) (some x) = refl
rebuilt d r t k (some l) (some u) none none = refl
rebuilt d r t k (some l) (some u) none (some x) = refl
rebuilt d r t k (some l) (some u) (some p) none = refl
rebuilt d r t k (some l) (some u) (some p) (some x) = refl

decode-encode : (b : BudgetState) → Fits b → decode (encode b) ≡ some b
unfolding encode checked
decode-encode b f =
    rebuilt b.day b.requests b.tokens b.cost_microusd b.last_seen_seconds b.unsettled
      b.pending_usage b.checksum
    ∙ (rw (Fits-all_fit b f))

checked-Fits : (x b : BudgetState) → checked x ≡ some b → Fits b
unfolding checked
checked-Fits x b h = all_fit-Fits b (ground arith)

decode-Fits : (m : List ℕ) (b : BudgetState) → decode m ≡ some b → Fits b
unfolding decode
decode-Fits (d ∷ r ∷ t ∷ k ∷ a ∷ l ∷ e ∷ u ∷ g ∷ p ∷ rest) b h = checked-Fits _ b h
decode-Fits [] b h = cc
decode-Fits _ b h = ground arith

abbrev codec : Codec
codec = record {
  sha256 = digest;
  encode = encode;
  decode = decode;
  length-sha256 = length-digest;
  length-encode = length-encode;
  decode-encode = decode-encode;
  decode-Fits = decode-Fits;
}

-- A private regular file, and an operating system whose calls all succeed.
abbrev private : Meta
private = record { is_file = true; mode = 0o600; nlink = 1; dev = 7; ino = 9 }

abbrev healthy : Os
healthy = record {
  locks = true;
  lock_file = some (some private);
  held_stats = true;
  marker_file = some (some private);
  marker_bytes = some strict_marker;
  marker_entry = absent;
  state_file = some (some private);
  state_reads = true;
  creates_parent = true;
  temporary = some (some private);
  truncates = true;
  protects = true;
  encodes = true;
  syncs = true;
  exchanges = true;
  removes = true;
  syncs_parent = true;
  renames = true;
}

-- 20,000 days after the epoch, noon.
abbrev noon : ℕ
noon = 20000 * 86400 + 43200

abbrev morning : BudgetState
morning = record default { day = 20000; last_seen_seconds = some noon; unsettled = some 0 }

first_day : System
unfolding stamp strict_digest digest_message to_be_bytes optional_bytes pending_bytes
first_day =
    let b = stamp codec true morning in
    record {
      limits = record {
        window_seconds = 60;
        max_requests_per_window = 2;
        daily_request_budget = 10;
        daily_token_budget = 1000;
        daily_cost_microusd = 5000;
        strict = some (record { dev = 7; ino = 9 });
        persistence_failed = false;
        overage_pending = false;
        budget = b;
        rate = record { window = 0; requests = 0 };
        active = 0;
      };
      file = some (encode b);
    }

-- The state after one request of 400 tokens and 1000 micro-dollars.
abbrev after_first : System
after_first = (reserve_with_clock codec healthy 400 1000 true (noon + 5) first_day).1

first_admitted :
    reserve_with_clock codec healthy 400 1000 true (noon + 5) first_day ≡ (ok tt, after_first)
unfolding first_day reserve_with_clock ready check_authority verify_owner_and_marker open_private
    read_strict_budget decode encode checked strict_digest digest digest_message to_be_bytes
    optional_bytes pending_bytes is_consistent budget_eq check_strict_clock hold roll_day
    roll_window admit propose denial over_budget charge count_reservation count_usage next_active
    commit persist_budget atomic_json prepare_temporary replace_state stamp
first_admitted = refl

-- All that a call of the broker computes with.
runs : Unit {0}
unfolding first_day reserve_with_clock ready check_authority verify_owner_and_marker open_private
    read_strict_budget decode encode checked strict_digest digest digest_message to_be_bytes
    optional_bytes pending_bytes is_consistent budget_eq check_strict_clock hold roll_day
    roll_window admit propose denial over_budget charge count_reservation count_usage next_active
    commit persist_budget atomic_json prepare_temporary replace_state stamp refuse checkpoint_clock
    settle_with_clock check_settlement store_budget
runs = tt

abbrev event : Call → ℕ → Event
event call now = record { call = call; now = now; os = healthy }

-- Three requests, of which the third exceeds the rate, a settlement and the end of a guard.
abbrev busy_day : List Event
busy_day =
    event (reserves 400 1000 true) (noon + 5)
    ∷ event (reserves 500 1000 true) (noon + 6)
    ∷ event (reserves 50 1000 true) (noon + 7)
    ∷ event settles (noon + 8)
    ∷ []

run-Within_example :
    Within
      (run codec busy_day first_day).0.limits
      (spend (on_day 20000 first_day.limits.budget) (run codec busy_day first_day).1)
unfolding runs
run-Within_example =
    run-Within codec 20000 busy_day first_day (omega arith) (omega arith) (omega arith)

reserve_with_clock-Charged_example : Charged 400 1000 (noon + 5) first_day after_first
reserve_with_clock-Charged_example =
    reserve_with_clock-Charged codec healthy 400 1000 true (noon + 5) first_day after_first
      first_admitted

healthy-Readable : Readable healthy
unfolding open_private
healthy-Readable = record { meta = private; opens = refl; reads = refl }

reserve_with_clock-durable_example :
    read_strict_budget codec healthy after_first.file ≡ ok after_first.limits.budget
unfolding first_day
reserve_with_clock-durable_example =
    reserve_with_clock-durable codec healthy healthy 400 1000 true (noon + 5) first_day after_first
      refl (omega arith) (omega arith) (omega arith) first_admitted healthy-Readable

-- A request beyond the day's tokens.
abbrev after_refused : System
after_refused = (reserve_with_clock codec healthy 1001 1000 true (noon + 5) first_day).1

reserve_with_clock-refused_example :
    SameCounters after_refused.limits.budget first_day.limits.budget
    × (after_refused.limits.rate ≡ first_day.limits.rate)
    × (after_refused.limits.active ≡ first_day.limits.active)
unfolding runs
reserve_with_clock-refused_example =
    reserve_with_clock-refused codec healthy 1001 1000 true (noon + 5) first_day after_refused
      Error.daily_budget_exceeded refl

abbrev guard_of_first : UsageGuard
guard_of_first = record { reserved_tokens = 400; reserved_cost = 1000; failed = false }

run-overage_example :
    (run codec busy_day
      (observe codec healthy (noon + 5) 401 (some 10) guard_of_first first_day).2).1
    ≡ nothing
unfolding runs is_overage
run-overage_example =
    run-overage codec 20000 healthy (noon + 5) 401 (some 10) guard_of_first first_day busy_day
      (omega arith) refl refl (omega arith)

abbrev after_failure : System
after_failure =
    (persist_budget codec (record healthy { syncs = false }) first_day.limits.budget first_day).1

run-persist_budget_example : (run codec busy_day after_failure).1 ≡ nothing
unfolding runs
run-persist_budget_example =
    run-persist_budget codec (record healthy { syncs = false }) first_day.limits.budget first_day
      Error.cannot_sync busy_day refl refl

abbrev after_settled : System
after_settled = (settle_with_clock codec healthy (noon + 8) after_first).1

settle_with_clock-Settles_example : Settles (noon + 8) after_first after_settled
unfolding runs
settle_with_clock-Settles_example =
    settle_with_clock-Settles codec healthy (noon + 8) after_first after_settled refl

abbrev provision : Provision
provision = record {
  lock_file = some (some private);
  locks = true;
  inspects_state = true;
  syncs_lock = true;
  syncs_lock_parent = true;
  creates_marker = true;
  writes_marker = true;
  syncs_marker = true;
  syncs_marker_parent = true;
  creates_state = true;
  writes_state = true;
  syncs_state = true;
  syncs_state_parent = true;
  torn = [];
}

abbrev no_state : Files
no_state = record { marker = none; state = none }

abbrev provisioned : Files
provisioned = (initialize_strict_at codec provision noon no_state).1

initialize_strict_at-stored_example :
    (no_state.state ≡ none)
    × (no_state.marker ≡ none)
    × (provisioned.marker ≡ some strict_marker)
    × (read_strict_budget codec healthy provisioned.state
        ≡ ok (stamp codec true (initial_budget noon)))
unfolding initialize_strict_at check_provision write_marker write_state open_private
initialize_strict_at-stored_example =
    initialize_strict_at-stored codec provision healthy noon no_state provisioned (omega arith) refl
      healthy-Readable

abbrev recovered : Option (List ℕ)
recovered = (reconcile_strict_at codec healthy true (noon + 9) after_first.file).1

reconcile_strict_at-kept_example :
    (b : BudgetState) × (read_strict_budget codec healthy after_first.file ≡ ok b)
    × (b.unsettled ≡ some 1)
    × (unwrap_or b.pending_usage 0 ≡ 1)
    × ((d : BudgetState) × (read_strict_budget codec healthy recovered ≡ ok d)
        × (d.day ≡ b.day)
        × (d.requests ≡ b.requests)
        × (d.tokens ≡ b.tokens)
        × (d.cost_microusd ≡ b.cost_microusd)
        × (d.unsettled ≡ some 0)
        × (d.pending_usage ≡ none)
        × (d.last_seen_seconds ≡ some (noon + 9)))
unfolding runs reconcile_strict_at read_held acquire_state
reconcile_strict_at-kept_example =
    reconcile_strict_at-kept codec healthy healthy true (noon + 9) 1 1 after_first.file recovered
      (omega arith) refl healthy-Readable

abbrev settings : Settings
settings = record {
  window_seconds = 60;
  max_requests_per_window = 2;
  daily_request_budget = 10;
  daily_token_budget = 1000;
  daily_cost_microusd = 5000;
}

-- A strict broker that starts on the state of the first day.
abbrev started : Limits
started =
    loaded settings (some (record { dev = 7; ino = 9 }))
      (stamp codec true (record first_day.limits.budget { last_seen_seconds = some (noon + 9) }))

abbrev started_file : Option (List ℕ)
started_file = (load_at codec healthy true settings (some (noon + 9)) first_day.file).1

load_at-durable_example :
    (b : BudgetState) × (read_strict_budget codec healthy first_day.file ≡ ok b)
    × (started.budget.last_seen_seconds ≡ some (noon + 9))
    × SameCharge started.budget b
    × (read_strict_budget codec healthy started_file ≡ ok started.budget)
unfolding runs load_at read_held acquire_state loaded
load_at-durable_example =
    load_at-durable codec healthy healthy true settings (noon + 9) started first_day.file
      started_file (omega arith) refl healthy-Readable
