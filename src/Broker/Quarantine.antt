-- ===== src/Broker/Quarantine.antt =====
-- crates/tentaflake-broker/src/state.rs: `Quarantine`, the directory of fetched objects. The objects
-- are listed in the order of the directory; a new one is listed last.
pub mod Capacity
mod Tests
use Prim.Native.Nat.{bit_and}
use tentaflake.Prelude.{
  ℕ, ok_or, ◌+◌, [], is_digit, ltb, leb, ◌||◌, true, length, list_eq, ok, Result, is_empty, none,
  ◌&&◌, some, any, Text, Option, all, err, Bool, checked_add, ◌++◌, List, ◌==◌, ◌%◌, ◌∷◌, ◌-◌,
  if◌then◌else◌, ◌>>=◌, ◌>>◌, not, guard,
}

-- An object's metadata, and its content where all of it was written.
pub record Object : Type 0 where
  pub name : Text
  pub is_file : Bool
  pub nlink : ℕ
  pub uid : ℕ
  pub mode : ℕ
  pub len : ℕ
  pub content : Option (List ℕ)

pub record Quarantine : Type 0 where
  pub uid : ℕ
  pub max_bytes : ℕ
  pub max_entries : ℕ

pub data Error : Type 0 where
  invalid_limits no_parent parent_control not_directory not_private already_owned : Error
  cannot_scan entry_limit cannot_inspect unsafe_entry byte_overflow byte_limit : Error
  invalid_identifier poisoned exhausted cannot_create cannot_reserve cannot_sync cannot_write :
      Error

-- The test of an entry in `usage`.
unfoldable pub is_safe : Quarantine → Object → Bool
is_safe q o =
    not (not o.is_file || not (o.nlink == 1) || not (o.uid == q.uid) || not (o.mode % 64 == 0))

-- The loop of `usage`, where each entry can be inspected.
unfoldable pub usage_from : Quarantine → ℕ → ℕ → List Object → Result Error (ℕ × ℕ)
usage_from q bytes entries [] = ok (bytes, entries)
usage_from q bytes entries (o ∷ os) = do
  guard (not (entries == q.max_entries)) entry_limit
  guard (is_safe q o) unsafe_entry
  more ← ok_or (checked_add bytes o.len) byte_overflow
  guard (leb more q.max_bytes) byte_limit
  usage_from q more (entries + 1) os

unfoldable pub usage : Quarantine → Bool → List Object → Result Error (ℕ × ℕ)
usage q scans objects = do guard scans cannot_scan; usage_from q 0 0 objects

-- What the operating system answers while an object is stored.
pub record Storing : Type 0 where
  pub locks : Bool
  pub scans : Bool
  pub creates : Bool
  pub reserves : Bool
  pub syncs_reservation : Bool
  pub syncs_entry : Bool
  pub writes : Bool
  pub syncs_object : Bool

unfoldable pub valid_object_id : Text → Bool
valid_object_id id = not (is_empty id) && all (λ b. is_digit b || b == b'-') id

-- The checks of `store` before it creates the object.
unfoldable pub check_store : Quarantine → Storing → Text → ℕ → List Object → Result Error (Unit {0})
check_store q w id size objects = do
  guard (valid_object_id id) invalid_identifier
  guard w.locks poisoned
  used ← usage q w.scans objects
  guard (not (leb q.max_entries used.1 || ltb (q.max_bytes - used.0) size)) exhausted
  guard (w.creates && not (any (λ (o : Object). list_eq o.name id) objects)) cannot_create

-- A new object of a length, and whether its content was written.
unfoldable pub new_object : Quarantine → Text → ℕ → Option (List ℕ) → Object
new_object q id len content = record {
  name = id;
  is_file = true;
  nlink = 1;
  uid = q.uid;
  mode = 0o600;
  len = len;
  content = content;
}

-- The steps after the object was created: the result, and the object.
unfoldable pub fill_object : Quarantine → Storing → Text → List ℕ → Result Error (Unit {0}) × Object
fill_object q w id bytes =
    let size = length bytes in
    if not w.reserves
    then (err cannot_reserve, new_object q id 0 none)
    else if not w.syncs_reservation || not w.syncs_entry
    then (err cannot_sync, new_object q id size none)
    else if not w.writes
    then (err cannot_write, new_object q id size none)
    else (if w.syncs_object then ok tt else err cannot_sync, new_object q id size (some bytes))

-- `store`: the result, and the objects of the directory.
unfoldable pub store :
    Quarantine → Storing → Text → List ℕ → List Object → Result Error (Unit {0}) × List Object
store q w id bytes objects = elim (check_store q w id (length bytes) objects) [
  | err e ↦ (err e, objects)
  | ok _ ↦ let (r, o) = fill_object q w id bytes in (r, objects ++ (o ∷ []))
]

-- What the operating system answers while a quarantine is opened: the parent's and the directory's
-- owner and mode, where they can be opened.
pub record Opening : Type 0 where
  pub euid : ℕ
  pub parent : Option (ℕ × ℕ)
  pub creates : Bool
  pub directory : Option (ℕ × ℕ)
  pub owns : Bool
  pub scans : Bool

-- `Quarantine::open` of an absolute path; `mode & 0o022` is zero where neither bit is set.
unfoldable pub open_quarantine : Opening → Bool → ℕ → ℕ → List Object → Result Error Quarantine
open_quarantine w absolute max_bytes max_entries objects = do
  guard (not (max_bytes == 0 || max_entries == 0 || not absolute)) invalid_limits
  parent ← ok_or w.parent no_parent
  guard ((parent.0 == 0 || parent.0 == w.euid) && bit_and parent.1 0o022 == 0) parent_control
  guard w.creates cannot_create
  directory ← ok_or w.directory not_directory
  guard (directory.0 == w.euid && bit_and directory.1 0o077 == 0) not_private
  guard w.owns already_owned
  let q : Quarantine = record { uid = w.euid; max_bytes = max_bytes; max_entries = max_entries }
  _ ← usage q w.scans objects
  ok q
