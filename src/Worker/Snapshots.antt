-- ===== src/Worker/Snapshots.antt =====
-- crates/tentaflake-worker/src/main.rs: `copy_directory_fd`, the snapshot of a workspace. The
-- tests of `CopyBudget` keep `bytes_left + 1` in 64 bits, since `validate_config` bounds it.
pub mod Copies
use Prim.Native.Nat.{bit_and, bit_or}
use tentaflake.Worker.Trees.{
  Entry, Item, Listing, CopyBudget, Error, directory, file, link, special, unreadable, end, entry,
  is_skipped, list_fd_dir, byte_limit, entry_limit, depth_ceiling, long_link, special_file,
  not_read,
}
use tentaflake.Prelude.{
  true, false, ◌>>◌, ◌>>=◌, zero, suc, ◌>>◌, ◌>>=◌, ℕ, ◌/◌, List, [], Bool, suc, ◌∷◌, Result, guard,
  ltb, false, ◌+◌, ok, leb, length, ◌-◌, err, not, ◌==◌,
}

abbrev pub max_tree_depth : ℕ
max_tree_depth = 128

-- `set_snapshot_permissions`: the mode; a shift by three is a division by eight.
unfoldable pub snapshot_mode : ℕ → ℕ
snapshot_mode mode = bit_or (bit_and mode 0o777) (bit_and mode 0o500 / 8)

-- The entry that is made; the mode of a link is not set.
unfoldable pub made_entry : ℕ → Entry → Item → Entry
made_entry euid e i = record {
  name = e.name;
  uid = euid;
  mode = elim i [ link _ ↦ 0o777 | _ ↦ snapshot_mode e.mode ];
}

-- The bytes that `io::copy` reads of a file.
unfoldable pub take : {A : Type 0} → ℕ → List A → List A
take zero xs = []
take (suc n) [] = []
take (suc n) (x ∷ xs) = x ∷ take n xs

unfoldable mutual
  -- The match of `copy_directory_fd_at_depth` on an entry's kind.
  pub copy_item : ℕ → ℕ → CopyBudget → Item → Result Error (CopyBudget × Item)
  copy_item euid depth b (directory l) = do
    guard (ltb depth max_tree_depth) depth_ceiling
    list_fd_dir b.entries_left false 0 l
    made ← copy_entries euid (depth + 1) false b l
    ok (made.0, directory made.1)
  copy_item euid depth b (file nlink bytes) =
      let copied = take (b.bytes_left + 1) bytes in
      do
        guard (leb (length copied) b.bytes_left) byte_limit
        ok (
          record { bytes_left = b.bytes_left - length copied; entries_left = b.entries_left },
          file 1 copied,
        )
  copy_item euid depth b (link target) = do
    guard (ltb (length target) 4097) long_link
    ok (b, link target)
  copy_item euid depth b special = err special_file
  copy_item euid depth b unreadable = err not_read

  -- The loop of `copy_directory_fd_at_depth`.
  pub copy_entries : ℕ → ℕ → Bool → CopyBudget → Listing → Result Error (CopyBudget × Listing)
  copy_entries euid depth top b end = ok (b, end)
  copy_entries euid depth top b (entry e i rest) = elim (is_skipped top e) [
    | true ↦ copy_entries euid depth top b rest
    | false ↦ do
      guard (not (b.entries_left == 0)) entry_limit
      made ←
          copy_item euid depth
            (record { bytes_left = b.bytes_left; entries_left = b.entries_left - 1 }) i
      more ← copy_entries euid depth top made.0 rest
      ok (more.0, entry (made_entry euid e i) made.1 more.1)
  ]

-- `copy_directory_fd`: the budget that is left and the copy.
unfoldable pub copy_directory_fd :
    ℕ → CopyBudget → Bool → Listing → Result Error (CopyBudget × Listing)
copy_directory_fd euid b top l = do list_fd_dir b.entries_left top 0 l; copy_entries euid 0 top b l
