-- ===== src/Worker/Tests.antt =====
-- A workspace that is copied, a state with one finished job, and a claim.
use tentaflake.Worker.Config.{
  Config, validate_config, validate_identifier, valid_bytes, is_identifier_byte, is_absolute,
  is_positive, fits_one_job, job_storage_budget,
}
use tentaflake.Worker.Trees.{
  Entry, Item, Listing, CopyBudget, directory, file, link, end, entry, is_skipped, list_fd_dir,
}
use tentaflake.Worker.Measures.{image, is_copyable, tree_bytes, tree_entries, Spent}
use tentaflake.Worker.Snapshots.{copy_directory_fd}
use tentaflake.Worker.Snapshots.Copies.{copy_directory_fd-image}
use tentaflake.Worker.Retained.{scan_retained_tree, scan_entries, scan_item, enter, is_owned}
use tentaflake.Worker.Retained.Charges.{scan_retained_tree-charge, is_retained}
use tentaflake.Worker.Retained.Admission.{scan_retained_tree-copy_directory_fd, snapshot_budget}
use tentaflake.Worker.Reservations.{
  State, RetainedUsage, check_retained, check_names, check_receipts, is_valid_job, is_receipt,
  check_place, check_entries, check_entry, job_of, count_job, is_private, check_item, check_tree,
  is_jobs, charge, set_slot, no_usage, is_claim, running,
}
use tentaflake.Worker.Claims.{Answers, claim, find_name}
use tentaflake.Worker.Claims.Ceilings.{claim-check_retained, IsClaimable}
use tentaflake.Prelude.{
  subst, if◌then◌else◌, refl, true, false, ok, [], ◌∷◌, arith, codes, ◌≡◌, ◌↔◌, leb, List, Text,
  list_eq,
}

abbrev config : Config
config = record {
  agent = codes "builder";
  has_activity = false;
  has_relay_socket = false;
  backend = codes "podman";
  runtime = codes "/run/podman";
  image = codes "worker@sha256";
  workspace = codes "/srv/workspace";
  state_dir = codes "/var/lib/worker";
  max_request_bytes = 4096;
  max_inbox_entries = 8;
  max_inbox_bytes = 65536;
  max_queue_entries = 8;
  max_queue_bytes = 65536;
  max_retained_results = 4;
  max_retained_result_bytes = 65536;
  max_retained_entries = 64;
  max_snapshot_bytes = 1000;
  max_snapshot_entries = 10;
  max_log_bytes = 2000;
  max_timeout_seconds = 300;
  pids_limit = 64;
}

-- A directory with a file and a link, and the exchange directory that is left out.
abbrev workspace : Listing
workspace =
    entry (record { name = codes ".tentaflake-worker"; uid = 0; mode = 0o777 })
      (directory
        (entry (record { name = codes "x"; uid = 0; mode = 0o666 }) (file 9 (codes "y")) end))
      (entry (record { name = codes "src"; uid = 1000; mode = 0o755 })
        (directory (
          entry (record { name = codes "a"; uid = 1000; mode = 0o644 }) (file 2 (codes "hello"))
            (entry (record { name = codes "b"; uid = 1000; mode = 0o777 }) (link (codes "a")) end)))
        end)

abbrev copied : CopyBudget × Listing
copied = (record { bytes_left = 995; entries_left = 7 }, image 0 true workspace)

copy_directory_fd-image_example :
    (copy_directory_fd 0 (snapshot_budget config) true workspace ≡ ok copied) ↔ (
      (is_copyable 0 true workspace ≡ true)
      × Spent
          (snapshot_budget config)
          copied.0
          (tree_bytes true workspace)
          (tree_entries true workspace)
      × (copied.1 ≡ image 0 true workspace))
copy_directory_fd-image_example =
    copy_directory_fd-image 0 (snapshot_budget config) copied.0 true workspace copied.1

is_copied : copy_directory_fd 0 (snapshot_budget config) true workspace ≡ ok copied
unfolding is_skipped
is_copied =
    (copy_directory_fd-image 0 (snapshot_budget config) copied.0 true workspace copied.1).1
      (refl, (refl, refl), refl)

abbrev input : Entry
input = record { name = codes "input"; uid = 0; mode = 0o700 }

scan_retained_tree-charge_example :
    (scan_retained_tree 0 (snapshot_budget config) 1 true copied.1 ≡ ok copied.0) ↔ (
      (leb 1 129 ≡ true)
      × (is_retained 0 true 1 copied.1 ≡ true)
      × Spent
          (snapshot_budget config)
          copied.0
          (tree_bytes false copied.1)
          (tree_entries false copied.1))
scan_retained_tree-charge_example =
    scan_retained_tree-charge 0 true 1 (snapshot_budget config) copied.0 copied.1

scan_retained_tree-copy_directory_fd_example :
    (rest : CopyBudget) × (scan_retained_tree 0
        (job_storage_budget config)
        0
        true
        (entry input (directory copied.1) end)
      ≡ ok rest)
unfolding validate_config validate_identifier valid_bytes is_identifier_byte is_absolute is_positive
    fits_one_job
scan_retained_tree-copy_directory_fd_example =
    scan_retained_tree-copy_directory_fd (λ _. true) config 0 copied.0 workspace copied.1 input refl
      is_copied refl

-- One job is done, with a log of three bytes, and one is pending.
abbrev state : State
state = record {
  reservations = (record { name = codes "one"; uid = 0; mode = 0o600 }, file 1 []) ∷ [];
  pending = (record { name = codes "two.json"; uid = 0; mode = 0o600 }, file 1 (codes "{}")) ∷ [];
  claimed = [];
  finished =
      (
        record { name = codes "one"; uid = 0; mode = 0o750 },
        directory (
            entry (record { name = codes "log"; uid = 0; mode = 0o640 }) (file 1 (codes "log"))
              end),
      )
      ∷ [];
  staged = [];
}

abbrev succeeds : Answers
succeeds = record {
  links = true;
  finishes = true;
  syncs = true;
  renames = true;
  syncs_directories = true;
}

abbrev before : List Text × RetainedUsage
before = (
  codes "one" ∷ [],
  record {
    slots = λ k.
        if list_eq (codes "one") k
        then record {
          budget = record { bytes_left = 20381; entries_left = 27 };
          is_running = false;
          is_occupied = true;
        }
        else record { budget = job_storage_budget config; is_running = false; is_occupied = false };
    bytes = 3;
    entries = 1;
    results = 1;
  },
)

is_retained_state : check_retained config 0 state ≡ ok before
unfolding check_retained check_names check_receipts is_valid_job valid_bytes is_identifier_byte
    is_receipt check_place check_entries check_entry job_of count_job is_private check_item
    check_tree scan_retained_tree enter list_fd_dir is_skipped scan_entries scan_item is_owned
    is_jobs charge set_slot no_usage job_storage_budget
is_retained_state = refl

two-IsClaimable : IsClaimable config 0 (codes "two.json") state.pending
unfolding find_name is_private is_claim is_jobs
two-IsClaimable x h =
    let same : (record { name = codes "two.json"; uid = 0; mode = 0o600 }, file 1 (codes "{}"))
        ≡ x =
      ground arith in
    subst (λ (x : Entry × Item). (is_private 0 running x.0 ≡ true) × (is_claim config x.1 ≡ true))
      same (refl, refl)

claim-check_retained_example :
    (after : List Text × RetainedUsage) × (check_retained config 0
        (claim succeeds config 0 (codes "two") state).1
      ≡ ok after)
unfolding is_valid_job valid_bytes is_identifier_byte
claim-check_retained_example =
    claim-check_retained succeeds config 0 (codes "two") state before (omega arith, omega arith)
      refl (omega arith) two-IsClaimable is_retained_state
