-- ===== src/Worker/Claims.antt =====
-- crates/tentaflake-worker/src/queue.rs: `reserve_result` and `claim`, under the queue's lock.
pub mod Receipts
pub mod Retention
pub mod Ceilings
use tentaflake.Worker.Trees.{Entry, Item, file}
use tentaflake.Worker.Config.{Config, job_storage_budget}
use tentaflake.Worker.Reservations.{
  State, RetainedUsage, Refusal, check_retained, capacity_full, not_written, already_claimed,
  not_synced, not_claimed,
}
use tentaflake.Prelude.{
  if◌then◌else◌, err, ok, ◌||◌, ◌&&◌, true, false, [], some, none, List, Bool, ℕ, Text, not, ◌++◌,
  Result, Option, leb, ◌∷◌, contains, codes, ltb, list_eq, is_some, ◌-◌, length,
}

-- The test of `reserve_result` that the worst case of one more job fits.
unfoldable pub has_room : Config → List Text → RetainedUsage → Text → Bool
has_room c reserved u job = not (
    leb c.max_retained_results u.results
    || ltb (c.max_retained_result_bytes - u.bytes) (job_storage_budget c).bytes_left
    || ltb (c.max_retained_entries - u.entries) (job_storage_budget c).entries_left
    || (not (contains reserved job) && leb 4096 (length reserved)))

-- What the operating system answers: a receipt is linked before its directory is synced and its
-- staging file removed.
pub record Answers : Type 0 where
  pub links : Bool
  pub finishes : Bool
  pub syncs : Bool
  pub renames : Bool
  pub syncs_directories : Bool

unfoldable pub new_receipt : ℕ → Text → Entry × Item
new_receipt euid job = (record { name = job; uid = euid; mode = 0o600 }, file 1 [])

unfoldable pub with_receipt : ℕ → Text → State → State
with_receipt euid job s = record {
  reservations = s.reservations ++ (new_receipt euid job ∷ []);
  pending = s.pending;
  claimed = s.claimed;
  finished = s.finished;
  staged = s.staged;
}

unfoldable pub reserve_result :
    Answers → Config → ℕ → Text → State → Result Refusal (Unit {0}) × State
reserve_result w c euid job s = elim (check_retained c euid s) [
  | err e ↦ (err e, s)
  | ok (reserved, u) ↦
      if contains reserved job && (u.slots job).is_running
      then (ok tt, s)
      else if not (has_room c reserved u job)
      then (err capacity_full, s)
      else if contains reserved job
      then (ok tt, s)
      else if not w.links
      then (err not_written, s)
      else (if w.finishes then ok tt else err not_written, with_receipt euid job s)
]

unfoldable pub find_name : Text → List (Entry × Item) → Option (Entry × Item)
find_name name [] = none
find_name name ((e, i) ∷ rest) = if list_eq e.name name then some (e, i) else find_name name rest

unfoldable pub without : Text → List (Entry × Item) → List (Entry × Item)
without name [] = []
without name ((e, i) ∷ rest) =
    let more = without name rest in if list_eq e.name name then more else (e, i) ∷ more

-- The rename of a request to the directory of the claims.
unfoldable pub with_claim : Text → Entry × Item → State → State
with_claim name x s = record {
  reservations = s.reservations;
  pending = without name s.pending;
  claimed = s.claimed ++ (x ∷ []);
  finished = s.finished;
  staged = s.staged;
}

unfoldable pub claim : Answers → Config → ℕ → Text → State → Result Refusal (Unit {0}) × State
claim w c euid job s =
    let (r, t) = reserve_result w c euid job s in
    elim r [
      | err e ↦ (err e, t)
      | ok _ ↦
          let name = job ++ codes ".json" in
          if is_some (find_name name t.claimed)
          then (err already_claimed, t)
          else elim (find_name name t.pending) [
            | none ↦ (err not_synced, t)
            | some x ↦
                if not w.syncs
                then (err not_synced, t)
                else if not w.renames
                then (err not_claimed, t)
                else (if w.syncs_directories then ok tt else err not_synced, with_claim name x t)
          ]
    ]
