-- ===== src/Integrations/Tests.antt =====
-- A grant, a request, an environment and a store of proposals, and the theorems at them.
use tentaflake.Integrations.Proposals.{
  review, pending, acknowledged, dismissed, state_uncertain, Files, Codec, Store, set_review,
  Opening, position, Saving, misnumbered, Row, open_store, load_rows, list, check_directory,
  read_state, bound_rows, save, publish, submit, review_at,
}
use tentaflake.Integrations.Gateway.{
  file, World, Dispatch, acquire, prepare, Moment, Json, read_inner, exchange, conclude, content,
  take_slot, Event, overlap, begins, ends, drop_slot,
}
use tentaflake.Integrations.Grants.{
  route, Grant, origin, label, authorize, ReadRequest, Provider, is_valid_grant, ReadMethod,
  segments, query, provider,
}
use tentaflake.Prelude.{
  List, ◌≡◌, ◌∷◌, none, ℕ, true, ==_refl, refl, ok, some, codes, [], arith, ◌==◌, err, sym, length,
  false, ◌≢◌, ◌≤◌,
}
use tentaflake.Integrations.Advisory.{
  Category, Supported, gather, Finding, has_bounds, Telemetry, Policy, propose-Supported,
  ReviewProposal, is_id, propose, cite,
}
use tentaflake.Integrations.Reviews.{
  Keeps, Request, submits, run, reviews, run-Keeps, open_store-run,
}
use tentaflake.Integrations.Unsaved.{submit-unsaved}
use tentaflake.Integrations.Credentials.{
  rotate, check_rotation, RuntimeCredentials, validate, revoke, load,
}
use tentaflake.Integrations.Reads.{
  Earned, prepare-Bounded, Bounded, overlap-within, read_inner-Earned,
}
use tentaflake.Integrations.Rotation.{validate-load_stale, changes, change, rotates, revokes}

abbrev grant : Grant
grant = record {
  agent = codes "agent";
  tenant = codes "t";
  account = codes "me";
  provider = Provider.drive;
  resources = codes "file-1" ∷ [];
  methods = ReadMethod.drive_file ∷ [];
  credential_reference = codes "runtime";
  generation = 3;
  expires_unix = 1000;
  max_body_bytes = 10;
  max_concurrency = 2;
  deadline_ms = 500;
}

abbrev request : ReadRequest
request = record {
  tenant = codes "t";
  account = codes "me";
  resource = codes "file-1";
  method = ReadMethod.drive_file;
  generation = 3;
}

abbrev moment : Moment
moment = record { generation = 3; clock = some 900 }

abbrev world : World
world = record {
  start = moment;
  dispatch = moment;
  arrival = moment;
  elapsed_before = 20;
  elapsed_after = 30;
  credential = some (record { token = codes "k"; epoch = 1 });
  response = ok (record { status = 200; body = 1 ∷ 2 ∷ [] });
  valid = ok tt;
}

abbrev no_json : Json
no_json = record { Value = Unit {0}; parse = λ _. none; is_object = λ _. false; id = λ _. none }

abbrev dispatched : Dispatch
dispatched = record {
  url = record {
    host = origin Provider.drive;
    segments = segments request ReadMethod.drive_file;
    query = query ReadMethod.drive_file;
  };
  bearer = record { token = codes "k"; epoch = 1 };
  cap = 10;
  remaining = 480;
}

prepare-Bounded_example : Bounded grant request dispatched
unfolding is_valid_grant label authorize prepare route segments query origin provider
prepare-Bounded_example = prepare-Bounded grant world request dispatched refl refl

read_inner-Earned_example : Earned no_json grant world request (file (1 ∷ 2 ∷ []))
unfolding label authorize prepare route segments query origin provider read_inner take_slot exchange
    conclude content acquire drop_slot
read_inner-Earned_example =
    read_inner-Earned no_json grant world 1 1 request (file (1 ∷ 2 ∷ [])) refl

-- Three reads come in where the grant has room for fewer, and one of them is done.
abbrev events : List (Event)
events =
    begins world request
    ∷ begins world request
    ∷ begins world request
    ∷ ends 0
    ∷ begins world request
    ∷ []

overlap-within_example :
    let s = overlap grant events (record { active = 0; running = [] }) in
    (s.active ≡ length s.running)
    × (length s.running ≤ grant.max_concurrency)
    × (length s.running ≤ 16)
unfolding is_valid_grant label origin provider
overlap-within_example = overlap-within grant events refl

abbrev credentials : RuntimeCredentials
credentials = record {
  lease = some (record { token = codes "k"; epoch = 4; expires = 2000 });
  epoch = 4;
  provider = Provider.drive;
  tenant = codes "t";
  account = codes "me";
  generation = 3;
}

validate-load_stale_example : ¬ (
    validate true
      (some 900)
      (record { token = codes "k"; epoch = 4 })
      (changes
        (rotates true (codes "n") 3 3000 true (some 900) (some 900) ∷ [])
        (change (revokes true) credentials).1)
    ≡ ok tt)
unfolding load revoke rotate check_rotation validate changes
validate-load_stale_example =
    validate-load_stale true true (codes "runtime") Provider.drive (codes "t") (codes "me")
      (some 900) (some 900) credentials (record { token = codes "k"; epoch = 4 }) [] (revokes true)
      (rotates true (codes "n") 3 3000 true (some 900) (some 900) ∷ []) (omega arith) (omega arith)
      refl refl

abbrev policy : Policy
policy = record {
  system = codes "s";
  observer = codes "o";
  admitted = true;
  resources = codes "db" ∷ [];
  max_evidence = 2;
  max_content_bytes = 100;
}

abbrev telemetry : List Telemetry
telemetry =
    record { resource = codes "db"; evidence_reference = codes "e1"; summary = codes "slow" } ∷ []

abbrev finding : Finding
finding = record {
  title = codes "slow";
  explanation = codes "index";
  evidence_references = codes "e1" ∷ [];
  category = Category.optimization;
}

abbrev proposal : ReviewProposal
proposal = record { system = codes "s"; observer = codes "o"; finding = finding }

propose-Supported_example :
    Supported policy (codes "o") telemetry proposal × (proposal.finding ≡ finding)
unfolding propose gather cite has_bounds is_id
propose-Supported_example = propose-Supported policy (codes "o") telemetry finding proposal refl

-- A codec whose bytes are the snapshots themselves.
abbrev codec : Codec
codec = record {
  Context = ℕ;
  context_eq = ◌==◌;
  context_eq_refl = ==_refl;
  Bytes = ℕ × List Row;
  len = λ b. length b.1;
  to_vec = λ c rows. some (c, rows);
  from_slice = λ b. some b;
  from_slice-to_vec = λ c rows b h. sym h;
  Value = Row;
  to_value = λ r. some r;
  proposals = λ rows. record { id = []; proposal = proposal; review = pending };
}

abbrev opening : Opening
opening = record {
  directory = some (record { is_dir = true; uid = 7; mode = 0o40700 });
  euid = 7;
  opens_lock = true;
  locks = true;
  opens_state = true;
  reads = true;
  inspects_next = true;
}

abbrev saving : Saving
saving = record { opens = true; writes = true; renames = true; syncs = true }

abbrev no_files : Files codec
no_files = record { state = none; next = none }

abbrev new_files : Files codec
new_files = record { state = some (5, []); next = none }

abbrev new_store : Store codec
new_store = record { context = 5; rows = []; poisoned = false }

abbrev requests : List (Request codec)
requests =
    submits saving proposal
    ∷ reviews saving (codes "proposal-1") acknowledged
    ∷ reviews saving (codes "proposal-1") dismissed
    ∷ []

-- All that the calls of the store compute with.
stores : Unit {0}
unfolding open_store load_rows check_directory read_state bound_rows misnumbered save publish run
    submit review review_at position set_review
stores = tt

run-Keeps_example : Keeps new_store.rows (run codec requests (new_store, new_files)).0.rows
unfolding stores
run-Keeps_example = run-Keeps codec opening saving 5 no_files new_files new_store requests refl

open_store-run_example :
    open_store codec opening saving 5 (run codec requests (new_store, new_files)).1 ≡ (
      ok (run codec requests (new_store, new_files)).0,
      (run codec requests (new_store, new_files)).1,
    )
unfolding stores
open_store-run_example =
    open_store-run codec opening opening saving saving 5 no_files new_files new_store requests refl
      refl refl refl refl

abbrev unsynced : Saving
unsynced = record saving { syncs = false }

abbrev unsaved : Store codec × Files codec
unsaved = (submit codec unsynced proposal (new_store, new_files)).1

abbrev row : Row
row = record { id = codes "proposal-1"; proposal = proposal; review = pending }

submit-unsaved_example :
    ((submit codec unsynced proposal (new_store, new_files)).0 ≢ ok row)
    × (run codec requests unsaved ≡ unsaved)
    × (list codec unsaved.0 ≡ err state_uncertain)
submit-unsaved_example =
    submit-unsaved codec unsynced proposal new_store new_files requests row (omega arith) refl refl
