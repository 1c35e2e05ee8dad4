-- ===== src/Broker/Budget/Disk.antt =====
-- crates/tentaflake-broker/src/state.rs: the state file, the lock and the marker of the budget.
-- SHA-256 and the JSON encoding come from libraries and are the parameter `Codec`. What the
-- operating system answers in one operation is the record `Os`; the content of the state file is
-- the model's own state.
use Prim.Native.Nat.{bit_and}
use tentaflake.Prelude.{
  ℕ, ◌/◌, ◌≤◌, ◌≡◌, Bool, true, false, not, ◌&&◌, ◌||◌, List, [], ◌∷◌, Option, none, some, ltb,
  ◌==◌, if◌then◌else◌, length, list_eq, Result, ok, err, ◌>>=◌, ◌>>◌, guard, ok_or, is_some_and,
}
use tentaflake.Broker.Budget.State.{BudgetState, StrictState, Error, Fits, opt_list_eq, opt_eq}
use tentaflake.Broker.Budget.Digest.{digest_message}

-- `ring::digest::SHA256` and `serde_json`: a digest has 32 bytes, and a budget that was written is
-- read back, from a file of at most 4096 bytes; a budget that is read has fields of 64 bits and a
-- checksum of 32 bytes.
pub record Codec : Type 0 where
  pub sha256 : List ℕ → List ℕ
  pub encode : BudgetState → List ℕ
  pub decode : List ℕ → Option BudgetState
  pub length-sha256 : (m : List ℕ) → length (sha256 m) ≡ 32
  pub length-encode : (b : BudgetState) → Fits b → length (encode b) ≤ 4096
  pub decode-encode : (b : BudgetState) → Fits b → decode (encode b) ≡ some b
  pub decode-Fits : (m : List ℕ) (b : BudgetState) → decode m ≡ some b → Fits b

-- A file's metadata.
pub record Meta : Type 0 where
  pub is_file : Bool
  pub mode : ℕ
  pub nlink : ℕ
  pub dev : ℕ
  pub ino : ℕ

pub data Entry : Type 0 where
  absent present unknown : Entry

-- What the operating system answers while one operation runs: of a file that is opened, whether it
-- opens and what its metadata are, and of any other call whether it succeeds.
pub record Os : Type 0 where
  pub locks : Bool
  pub lock_file : Option (Option Meta)
  pub held_stats : Bool
  pub marker_file : Option (Option Meta)
  pub marker_bytes : Option (List ℕ)
  pub marker_entry : Entry
  pub state_file : Option (Option Meta)
  pub state_reads : Bool
  pub creates_parent : Bool
  pub temporary : Option (Option Meta)
  pub truncates : Bool
  pub protects : Bool
  pub encodes : Bool
  pub syncs : Bool
  pub exchanges : Bool
  pub removes : Bool
  pub syncs_parent : Bool
  pub renames : Bool

is_private : Meta → Bool
is_private m = not (not m.is_file || not (bit_and m.mode 0o077 == 0) || not (m.nlink == 1))

unfoldable pub open_private : Option (Option Meta) → Result Error Meta
unfolding is_private
open_private file = do
  opened ← ok_or file Error.cannot_open
  m ← ok_or opened Error.cannot_stat
  guard (is_private m) Error.not_private
  ok m

abbrev pub strict_marker : List ℕ
strict_marker =
    b't' ∷ b'e' ∷ b'n' ∷ b't' ∷ b'a' ∷ b'f' ∷ b'l' ∷ b'a' ∷ b'k' ∷ b'e' ∷ b'-' ∷ b's' ∷ b't' ∷ b'r'
    ∷ b'i' ∷ b'c' ∷ b't' ∷ b'-' ∷ b'b' ∷ b'u' ∷ b'd' ∷ b'g' ∷ b'e' ∷ b't' ∷ b'-' ∷ b'v' ∷ b'2' ∷ 10
    ∷ []

unfoldable pub verify_owner_and_marker : Os → StrictState → Result Error (Unit {0})
verify_owner_and_marker os held = do
  current ← open_private os.lock_file
  guard os.held_stats Error.cannot_stat
  guard (held.dev == current.dev && held.ino == current.ino) Error.lock_replaced
  _ ← open_private os.marker_file
  contents ← ok_or os.marker_bytes Error.cannot_read_marker
  guard (list_eq contents strict_marker) Error.invalid_marker

unfoldable pub reject_strict_marker : Os → Result Error (Unit {0})
reject_strict_marker os = elim os.marker_entry [
  | absent ↦ ok tt
  | present ↦ err Error.strict_marker_present
  | unknown ↦ err Error.cannot_inspect_marker
]

-- The test of the counters in `read_strict_budget`, negated.
unfoldable pub is_consistent : BudgetState → Bool
is_consistent b = not (
    (b.requests == 0 && (not (b.tokens == 0) || not (b.cost_microusd == 0)))
    || (not (b.requests == 0) && (b.tokens == 0 || b.cost_microusd == 0))
    || is_some_and b.unsettled (λ count. ltb b.requests count)
    || is_some_and b.pending_usage (λ count. count == 0 || ltb b.requests count))

unfoldable pub check_strict_clock : BudgetState → ℕ → Result Error (Unit {0})
check_strict_clock b now = do
  last ← ok_or b.last_seen_seconds Error.missing_checkpoint
  guard (not (last == 0 || ltb (last / 86400) b.day)) Error.invalid_checkpoint
  guard (not (ltb now last)) Error.clock_rollback

-- The steps of `atomic_json` before the new file takes the place of the old one.
unfoldable pub prepare_temporary : Os → Bool → Result Error (Unit {0})
prepare_temporary os strict = do
  guard (strict || os.creates_parent) Error.cannot_create
  opened ← ok_or os.temporary Error.cannot_create
  m ← ok_or opened Error.cannot_stat
  guard (m.is_file && m.nlink == 1) Error.not_private
  guard os.truncates Error.cannot_truncate
  guard os.protects Error.cannot_protect
  guard os.encodes Error.cannot_encode
  guard os.syncs Error.cannot_sync

-- The exchange needs the old file to exist, and later failures leave the new one in place.
unfoldable pub replace_state :
    Os → Bool → BudgetState → List ℕ → Option (List ℕ) → Result Error BudgetState × Option (List ℕ)
replace_state os true v bytes none = (err Error.cannot_exchange, none)
replace_state os true v bytes (some old) =
    if os.exchanges
    then (
      do
        guard os.removes Error.cannot_remove
        guard os.syncs_parent Error.cannot_sync_directory
        ok v,
      some bytes,
    )
    else (err Error.cannot_exchange, some old)
replace_state os false v bytes file =
    if os.renames then (ok v, some bytes) else (err Error.cannot_replace, file)

module _ (c : Codec) where
  unfoldable pub strict_digest : BudgetState → List ℕ
  strict_digest b = c.sha256 (digest_message b)

  unfoldable pub read_strict_budget : Os → Option (List ℕ) → Result Error BudgetState
  read_strict_budget os file = do
    bytes ← ok_or file Error.cannot_open
    _ ← open_private os.state_file
    guard os.state_reads Error.cannot_read_state
    guard (not (ltb 4096 (length bytes))) Error.state_too_large
    budget ← ok_or (c.decode bytes) Error.invalid_state
    guard
        (not (
          opt_eq budget.last_seen_seconds none
          || opt_eq budget.unsettled none
          || not (opt_list_eq budget.checksum (some (strict_digest budget)))))
        Error.invalid_checksum
    guard (is_consistent budget) Error.inconsistent_counters
    ok budget

  -- `value.checksum = Some(strict_digest(value))` in strict mode.
  unfoldable pub stamp : Bool → BudgetState → BudgetState
  stamp strict b = if strict then record b { checksum = some (strict_digest b) } else b

  -- The budget with its checksum, and the content of the state file afterwards.
  unfoldable pub atomic_json :
      Os → Bool → BudgetState → Option (List ℕ) → Result Error BudgetState × Option (List ℕ)
  atomic_json os strict b file =
      let v = stamp strict b in
      elim (prepare_temporary os strict) [
        | ok _ ↦ replace_state os strict v (c.encode v) file
        | err e ↦ (err e, file)
      ]

  unfoldable pub checkpoint_clock :
      Os → BudgetState → ℕ → Option (List ℕ) → Result Error BudgetState × Option (List ℕ)
  checkpoint_clock os b now file =
      if opt_eq b.last_seen_seconds (some now)
      then (ok b, file)
      else atomic_json os true (record b { last_seen_seconds = some now }) file
