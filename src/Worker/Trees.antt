-- ===== src/Worker/Trees.antt =====
-- crates/tentaflake-worker/src/main.rs: directories, as `copy_directory_fd` and
-- `scan_retained_tree` go through them: `copy_directory_fd` in the order of the names. The size of
-- a file or of a link is the number of its bytes, and an entry is unreadable where a call of the
-- operating system on it fails.
use tentaflake.Prelude.{
  ◌>>◌, true, false, Text, ℕ, Bool, List, ◌&&◌, Result, list_eq, ok, codes, guard, ltb, ◌+◌,
}

pub record Entry : Type 0 where
  pub name : Text
  pub uid : ℕ
  pub mode : ℕ

mutual
  pub data Item : Type 0 where
    directory : Listing → Item
    file : ℕ → List ℕ → Item
    link : List ℕ → Item
    special unreadable : Item

  pub data Listing : Type 0 where
    end : Listing
    entry : Entry → Item → Listing → Listing

pub record CopyBudget : Type 0 where
  pub bytes_left : ℕ
  pub entries_left : ℕ

pub data Error : Type 0 where
  entry_limit byte_limit depth_ceiling long_link special_file not_read : Error
  unsafe_owner unsafe_entry : Error

-- The directory of the exchange between an agent and its worker, which is not part of a snapshot.
unfoldable pub is_skipped : Bool → Entry → Bool
is_skipped top e = top && list_eq e.name (codes ".tentaflake-worker")

-- The loop of `list_fd_dir`, with the number of the names so far.
unfoldable pub list_fd_dir : ℕ → Bool → ℕ → Listing → Result Error (Unit {0})
list_fd_dir max top n end = ok tt
list_fd_dir max top n (entry e i rest) = elim (is_skipped top e) [
  | true ↦ list_fd_dir max top n rest
  | false ↦ do guard (ltb n max) entry_limit; list_fd_dir max top (n + 1) rest
]
