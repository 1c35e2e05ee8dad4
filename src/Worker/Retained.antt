-- ===== src/Worker/Retained.antt =====
-- crates/tentaflake-worker/src/queue.rs: `scan_retained_tree`, the charge for a tree that the
-- worker retains.
pub mod Charges
pub mod Admission
use tentaflake.Worker.Trees.{
  Entry, Item, Listing, CopyBudget, Error, directory, file, link, special, unreadable, end, entry,
  list_fd_dir, byte_limit, entry_limit, depth_ceiling, unsafe_owner, unsafe_entry, not_read,
}
use tentaflake.Prelude.{
  ◌>>◌, ◌>>=◌, true, false, guard, leb, ◌+◌, ok_or, checked_sub, length, ok, err,
}
use tentaflake.Worker.Snapshots.{max_tree_depth}
use Prim.Native.Nat.{bit_and}
use tentaflake.Prelude.{ℕ, Bool, Result, ◌==◌, ◌&&◌, ◌||◌}
use tentaflake.Worker.Trees.{CopyBudget, Listing, Entry, Item, Error, link}

-- The first steps of `scan_retained_tree`: the bound on the depth, and the names.
unfoldable pub enter : ℕ → CopyBudget → Listing → Result Error (Unit {0})
enter depth b l = do
  guard (leb depth (max_tree_depth + 1)) depth_ceiling
  list_fd_dir b.entries_left false 0 l

-- The test of an entry's owner and mode.
unfoldable pub is_owned : ℕ → Bool → Entry → Item → Bool
is_owned euid snapshot e i =
    e.uid == euid && (snapshot || elim i [ link _ ↦ true | _ ↦ false ] || bit_and e.mode 0o022 == 0)

unfoldable mutual
  -- The match of `scan_retained_tree` on an entry's kind.
  pub scan_item : ℕ → Bool → ℕ → CopyBudget → Item → Result Error CopyBudget
  scan_item euid snapshot depth b (directory l) = do
    enter (depth + 1) b l
    scan_entries euid snapshot (depth + 1) b l
  scan_item euid snapshot depth b (file nlink bytes) = do
    guard (nlink == 1) unsafe_entry
    left ← ok_or (checked_sub b.bytes_left (length bytes)) byte_limit
    ok (record { bytes_left = left; entries_left = b.entries_left })
  scan_item euid snapshot depth b (link target) = do
    guard (snapshot && leb (length target) 4096) unsafe_entry
    ok b
  scan_item euid snapshot depth b special = err unsafe_entry
  scan_item euid snapshot depth b unreadable = err not_read

  -- The loop of `scan_retained_tree`.
  pub scan_entries : ℕ → Bool → ℕ → CopyBudget → Listing → Result Error CopyBudget
  scan_entries euid snapshot depth b end = ok b
  scan_entries euid snapshot depth b (entry e i rest) = do
    left ← ok_or (checked_sub b.entries_left 1) entry_limit
    guard (is_owned euid snapshot e i) unsafe_owner
    c ← scan_item euid snapshot depth (record { bytes_left = b.bytes_left; entries_left = left }) i
    scan_entries euid snapshot depth c rest

unfoldable pub scan_retained_tree : ℕ → CopyBudget → ℕ → Bool → Listing → Result Error CopyBudget
scan_retained_tree euid b depth snapshot l = do
  enter depth b l
  scan_entries euid snapshot depth b l
