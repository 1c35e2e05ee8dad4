-- ===== src/Worker/Reservations.antt =====
-- crates/tentaflake-worker/src/queue.rs: `check_retained`, under the queue's lock and after the
-- recovery of staging files. The vectors that the code indexes by the
-- place of a receipt are a function of its job here, and a name is a list of bytes of UTF-8.
use tentaflake.Worker.Trees.{
  Entry, Item, Listing, CopyBudget, directory, file, link, special, unreadable,
}
use tentaflake.Worker.Config.{Config, job_storage_budget, valid_bytes}
use tentaflake.Prelude.{
  if◌then◌else◌, err, ok, ◌||◌, ◌&&◌, true, false, ◌>>◌, ◌>>=◌, [], some, none, List, Bool, Text, ℕ,
  leb, ◌==◌, Result, Option, list_eq, not, ◌++◌, text_len, is_empty, length, guard, strip_suffix,
  ok_or, ◌∷◌, saturating_mul, ltb, contains, codes, checked_add, ◌-◌, ◌+◌, is_some, strip_prefix,
  and_then,
}
use Prim.Native.Nat.{bit_and}
use tentaflake.Worker.Retained.{scan_retained_tree}
pub mod Charging
pub mod OneMore
pub mod Steps
pub mod Entries
pub mod Running

pub data Place : Type 0 where
  running results jobs : Place

pub data Refusal : Type 0 where
  too_many_names invalid_name unsafe_receipt unreserved count_ceiling unsafe_owner : Refusal
  unsafe_claim not_directory unsafe_tree byte_overflow entry_overflow : Refusal
  reservations_ceiling trees_ceiling capacity_full not_written : Refusal
  already_claimed not_synced not_claimed : Refusal

-- The directories of the state, without the approvals and the decisions.
pub record State : Type 0 where
  pub reservations : List (Entry × Item)
  pub pending : List (Entry × Item)
  pub claimed : List (Entry × Item)
  pub finished : List (Entry × Item)
  pub staged : List (Entry × Item)

-- What is known of a receipt's job.
pub record Slot : Type 0 where
  pub budget : CopyBudget
  pub is_running : Bool
  pub is_occupied : Bool

-- `RetainedUsage`, as it grows.
pub record RetainedUsage : Type 0 where
  pub slots : Text → Slot
  pub bytes : ℕ
  pub entries : ℕ
  pub results : ℕ

unfoldable pub is_valid_job : Text → Bool
is_valid_job job = leb (text_len job) 64 && valid_bytes job

unfoldable pub is_receipt : ℕ → Entry → Item → Bool
is_receipt euid e (file nlink bytes) =
    nlink == 1 && is_empty bytes && bit_and e.mode 0o022 == 0 && e.uid == euid
is_receipt euid e _ = false

-- The test of a claim's file.
unfoldable pub is_claim : Config → Item → Bool
is_claim c (file nlink bytes) = nlink == 1 && leb (length bytes) c.max_request_bytes
is_claim c _ = false

unfoldable pub check_names : ℕ → List (Entry × Item) → Result Refusal (Unit {0})
check_names max names = guard (leb (length names) max) too_many_names

-- The loop over the receipts, which are empty files.
unfoldable pub check_receipts : ℕ → List (Entry × Item) → Result Refusal (List Text)
check_receipts euid [] = ok []
check_receipts euid ((e, i) ∷ rest) = do
  guard (is_valid_job e.name) invalid_name
  guard (is_receipt euid e i) unsafe_receipt
  more ← check_receipts euid rest
  ok (e.name ∷ more)

-- The job of a name in a directory of the state.
unfoldable pub job_of : Place → Text → Option Text
job_of running raw = strip_suffix (codes ".json") raw
job_of results raw = elim (is_some (strip_prefix (codes ".") raw)) [
  | true ↦ and_then (strip_prefix (codes ".") raw) λ s. strip_suffix (codes ".tmp") s
  | false ↦ some raw
]
job_of jobs raw = some raw

unfoldable pub is_jobs : Place → Bool
is_jobs jobs = true
is_jobs _ = false

unfoldable pub set_slot : Text → Slot → RetainedUsage → RetainedUsage
set_slot job s u = record {
  slots = λ k. if list_eq job k then s else u.slots k;
  bytes = u.bytes;
  entries = u.entries;
  results = u.results;
}

-- A charge to the totals, within the configured ceilings.
unfoldable pub charge : Config → ℕ → ℕ → Refusal → RetainedUsage → Result Refusal RetainedUsage
charge c bytes entries full u = do
  b ← ok_or (checked_add u.bytes bytes) byte_overflow
  n ← ok_or (checked_add u.entries entries) entry_overflow
  guard (leb b c.max_retained_result_bytes && leb n c.max_retained_entries) full
  ok (record { slots = u.slots; bytes = b; entries = n; results = u.results })

-- A claim: it reserves the whole budget of a job.
unfoldable pub check_claim :
    Config → Text → Slot → Item → RetainedUsage → Result Refusal RetainedUsage
check_claim c job s i u = do
  guard (is_claim c i) unsafe_claim
  charge c (job_storage_budget c).bytes_left (job_storage_budget c).entries_left
      reservations_ceiling
      (set_slot job (record { budget = s.budget; is_running = true; is_occupied = true }) u)

-- A tree: it is charged with what it uses, unless its job is running.
unfoldable pub check_tree :
    Config → ℕ → Place → Text → Slot → Item → RetainedUsage → Result Refusal RetainedUsage
check_tree c euid place job s (directory l) u =
    elim (scan_retained_tree euid s.budget 0 (is_jobs place) l) [
      | err _ ↦ err unsafe_tree
      | ok left ↦
          let v =
            set_slot job (record { budget = left; is_running = s.is_running; is_occupied = true })
              u in
          elim s.is_running [
            | true ↦ ok v
            | false ↦
                charge c (s.budget.bytes_left - left.bytes_left)
                  (s.budget.entries_left - left.entries_left) trees_ceiling v
          ]
    ]
check_tree c euid place job s _ u = err not_directory

-- The test of an entry's owner and mode.
unfoldable pub is_private : ℕ → Place → Entry → Bool
is_private euid place e =
    e.uid == euid && bit_and e.mode 0o022 == 0 && (not (is_jobs place) || bit_and e.mode 0o077 == 0)

unfoldable pub check_item :
    Config → ℕ → Place → Text → Slot → Item → RetainedUsage → Result Refusal RetainedUsage
check_item c euid running job s i u = check_claim c job s i u
check_item c euid place job s i u = check_tree c euid place job s i u

-- A job is counted where it is seen first.
unfoldable pub count_job : Slot → RetainedUsage → RetainedUsage
count_job s u = record {
  slots = u.slots;
  bytes = u.bytes;
  entries = u.entries;
  results = if s.is_occupied then u.results else u.results + 1;
}

-- The body of the loop of `check_retained` for an entry of a directory.
unfoldable pub check_entry :
    Config → ℕ → List Text → RetainedUsage → Place → Entry × Item → Result Refusal RetainedUsage
check_entry c euid reserved u place (e, i) = do
  job ← ok_or (job_of place e.name) invalid_name
  guard (contains reserved job) unreserved
  let v = count_job (u.slots job) u
  guard (leb v.results c.max_retained_results) count_ceiling
  guard (is_private euid place e) unsafe_owner
  check_item c euid place job (u.slots job) i v

unfoldable pub check_entries :
    Config
    → ℕ
    → List Text
    → Place
    → RetainedUsage
    → List (Entry × Item)
    → Result Refusal RetainedUsage
check_entries c euid reserved place u [] = ok u
check_entries c euid reserved place u (x ∷ rest) = do
  v ← check_entry c euid reserved u place x
  check_entries c euid reserved place v rest

-- A directory of the state.
unfoldable pub check_place :
    Config
    → ℕ
    → List Text
    → Place
    → RetainedUsage
    → List (Entry × Item)
    → Result Refusal RetainedUsage
check_place c euid reserved place u entries = do
  check_names (saturating_mul c.max_retained_results 2) entries
  check_entries c euid reserved place u entries

unfoldable pub no_usage : Config → RetainedUsage
no_usage c = record {
  slots = λ job. record { budget = job_storage_budget c; is_running = false; is_occupied = false };
  bytes = 0;
  entries = 0;
  results = 0;
}

-- `check_retained`: the receipts and the usage.
unfoldable pub check_retained : Config → ℕ → State → Result Refusal (List Text × RetainedUsage)
check_retained c euid s = do
  check_names 4096 s.reservations
  reserved ← check_receipts euid s.reservations
  u ← check_place c euid reserved running (no_usage c) s.claimed
  v ← check_place c euid reserved results u s.finished
  w ← check_place c euid reserved jobs v s.staged
  ok (reserved, w)
