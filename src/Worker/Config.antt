-- ===== src/Worker/Config.antt =====
-- crates/tentaflake-worker/src/main.rs: `Config`, `JobRequest` and their checks, and
-- `job_storage_budget` of src/queue.rs. The activity publisher's own check is a parameter of
-- `validate_config`, a path is the list of its bytes, and the fields that only stand on the command
-- line of a container are left out.
use tentaflake.Prelude.{
  if◌then◌else◌, ◌>>◌, Text, Bool, ℕ, Result, false, List, between, guard, is_some, is_some_and,
  not, ◌∷◌, saturating_add, true, ◌||◌, ◌&&◌, leb, strip_prefix, and_then, any, saturating_mul,
  is_digit, all, text_len, [], checked_mul, ◌==◌, ltb, ◌*◌, checked_add, list_eq, is_empty, codes,
  length, is_whitespace, ◌+◌,
}
use tentaflake.Worker.Trees.{CopyBudget}

pub record Config : Type 0 where
  pub agent : Text
  pub has_activity : Bool
  pub has_relay_socket : Bool
  pub backend : Text
  pub runtime : Text
  pub image : Text
  pub workspace : Text
  pub state_dir : Text
  pub max_request_bytes : ℕ
  pub max_inbox_entries : ℕ
  pub max_inbox_bytes : ℕ
  pub max_queue_entries : ℕ
  pub max_queue_bytes : ℕ
  pub max_retained_results : ℕ
  pub max_retained_result_bytes : ℕ
  pub max_retained_entries : ℕ
  pub max_snapshot_bytes : ℕ
  pub max_snapshot_entries : ℕ
  pub max_log_bytes : ℕ
  pub max_timeout_seconds : ℕ
  pub pids_limit : ℕ

pub data ActionClass : Type 0 where
  local_reversible external_reversible irreversible financial : ActionClass
  production communicative privileged forbidden : ActionClass

unfoldable pub needs_approval : ActionClass → Bool
needs_approval local_reversible = false
needs_approval forbidden = false
needs_approval _ = true

pub record JobRequest : Type 0 where
  pub version : ℕ
  pub id : Text
  pub action_class : ActionClass
  pub argv : List Text
  pub timeout_seconds : ℕ

pub data Error : Type 0 where
  invalid_identifier invalid_activity no_relay invalid_backend relative_path comma : Error
  invalid_image zero_limit retained_capacity : Error
  invalid_version invalid_argv invalid_argument invalid_timeout : Error

-- The test of the bytes of `validate_identifier`, after the first.
unfoldable pub is_identifier_byte : ℕ → Bool
is_identifier_byte b = between b'a' b'z' b || is_digit b

unfoldable pub valid_bytes : Text → Bool
valid_bytes [] = false
valid_bytes (b ∷ s) =
    is_identifier_byte b && all (λ c. is_identifier_byte c || c == b'-' || c == b'_') s

unfoldable pub validate_identifier : Text → ℕ → Result Error (Unit {0})
validate_identifier s max = guard (leb (text_len s) max && valid_bytes s) invalid_identifier

unfoldable pub is_absolute : Text → Bool
is_absolute p = is_some (strip_prefix (b'/' ∷ []) p)

-- The last check of `validate_config`: one job fits in the retained capacity.
unfoldable pub fits_one_job : Config → Bool
fits_one_job c =
    is_some_and
      (and_then (checked_mul c.max_snapshot_bytes 2)
        λ n. and_then (checked_add n c.max_log_bytes) λ m. checked_add m (16 * 1024))
      (λ n. leb n c.max_retained_result_bytes)
    && is_some_and (and_then (checked_mul c.max_snapshot_entries 2) λ n. checked_add n 8)
        (λ n. leb n c.max_retained_entries)

unfoldable pub is_positive : Config → Bool
is_positive c = not (
    any (λ n. n == 0)
      (c.max_request_bytes ∷ c.max_inbox_entries ∷ c.max_inbox_bytes ∷ c.max_queue_entries
        ∷ c.max_queue_bytes ∷ c.max_retained_results ∷ c.max_retained_result_bytes
        ∷ c.max_retained_entries ∷ c.max_snapshot_bytes ∷ c.max_snapshot_entries ∷ c.max_log_bytes
        ∷ c.max_timeout_seconds ∷ c.pids_limit ∷ []))

unfoldable pub validate_config : (Text → Bool) → Config → Result Error (Unit {0})
validate_config valid_activity c = do
  validate_identifier c.agent 48
  guard (not c.has_activity || valid_activity c.agent) invalid_activity
  guard (not c.has_activity || c.has_relay_socket) no_relay
  guard (list_eq c.backend (codes "docker") || list_eq c.backend (codes "podman")) invalid_backend
  guard (is_absolute c.runtime && is_absolute c.workspace && is_absolute c.state_dir) relative_path
  guard (not (any (λ b. b == b',') c.workspace)) comma
  guard (not (is_empty c.image || any is_whitespace c.image)) invalid_image
  guard (is_positive c) zero_limit
  guard (fits_one_job c) retained_capacity

-- `encode_utf16().count()`.
unfoldable pub utf16_len : Text → ℕ
utf16_len [] = 0
utf16_len (c ∷ s) = (if ltb c 0x10000 then 1 else 2) + utf16_len s

unfoldable pub validate_request : Config → JobRequest → Result Error (Unit {0})
validate_request c r = do
  guard (r.version == 1) invalid_version
  validate_identifier r.id 64
  guard (not (is_empty r.argv || ltb 128 (length r.argv))) invalid_argv
  guard (not (any (λ v. any (λ b. b == 0) v || ltb 4096 (utf16_len v)) r.argv)) invalid_argument
  guard (not (r.timeout_seconds == 0 || ltb c.max_timeout_seconds r.timeout_seconds))
      invalid_timeout

-- `job_storage_budget`: what a job may use at most.
unfoldable pub job_storage_budget : Config → CopyBudget
job_storage_budget c = record {
  bytes_left =
      saturating_add (saturating_add (saturating_mul c.max_snapshot_bytes 2) c.max_log_bytes)
        (16 * 1024);
  entries_left = saturating_add (saturating_mul c.max_snapshot_entries 2) 8;
}
