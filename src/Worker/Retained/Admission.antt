-- ===== src/Worker/Retained/Admission.antt =====
-- A snapshot that `copy_directory_fd` made is admitted by `scan_retained_tree`.
use tentaflake.Worker.Measures.{
  image, item_image, tree_bytes, tree_entries, item_bytes, item_entries, is_copyable,
  is_copyable_item,
}
use tentaflake.Worker.Snapshots.{copy_directory_fd, made_entry}
use tentaflake.Worker.Snapshots.Copies.{copy_directory_fd-image}
use tentaflake.Worker.Trees.{
  Item, Listing, Entry, CopyBudget, directory, file, link, special, unreadable, end, entry,
  is_skipped,
}
use tentaflake.Worker.Retained.{is_owned, scan_retained_tree}
use tentaflake.Worker.Retained.Charges.{
  is_retained, is_retained_item, scan_retained_tree-charge, is_skipped_below,
}
use tentaflake.Worker.Config.{Config, validate_config, fits_one_job, job_storage_budget}
use tentaflake.Prelude.{
  true, false, ℕ, Text, ◌≡◌, Bool, arith, ◌+◌, ok, Bool-cases, ◌≤◌, ◌-◌, inl, inr,
}

made_entry_owned :
    (euid : ℕ) (e : Entry) (i j : Item) → is_owned euid true (made_entry euid e i) j ≡ true
unfolding is_owned made_entry
made_entry_owned euid e i j = ground arith

-- The image of a tree is safe one level deeper, and of the tree's size.
mutual
  item_image_retained :
      (euid depth : ℕ) (i : Item)
      → is_copyable_item depth i ≡ true
      → (is_retained_item euid true (depth + 1) (item_image euid i) ≡ true)
        × (item_bytes (item_image euid i) ≡ item_bytes i)
        × (item_entries (item_image euid i) ≡ item_entries i)
  item_image_retained euid depth (directory l) h =
      let ih = image_retained euid (depth + 1) false l in ground arith
  item_image_retained euid depth (file nlink bytes) h = ground arith
  item_image_retained euid depth (link target) h = ground arith
  item_image_retained euid depth special h = absurd (ground arith)
  item_image_retained euid depth unreadable h = absurd (ground arith)

  image_retained :
      (euid depth : ℕ) (top : Bool) (l : Listing)
      → is_copyable depth top l ≡ true
      → (is_retained euid true (depth + 1) (image euid top l) ≡ true)
        × (tree_bytes false (image euid top l) ≡ tree_bytes top l)
        × (tree_entries false (image euid top l) ≡ tree_entries top l)
  image_retained euid depth top end h = ground arith
  image_retained euid depth top (entry e i rest) h =
      let it = image_retained euid depth top rest in
      elim (Bool-cases (is_skipped top e)) [
        | inl s ↦ ground arith
        | inr s ↦
            let ih = item_image_retained euid depth i in
            let own = made_entry_owned euid e i (item_image euid i) in
            let z = is_skipped_below (made_entry euid e i) in ground arith
      ]

-- What `execute` gives a snapshot.
abbrev pub snapshot_budget : Config → CopyBudget
snapshot_budget c = record {
  bytes_left = c.max_snapshot_bytes;
  entries_left = c.max_snapshot_entries;
}

validate_config_fits :
    (valid_activity : Text → Bool) (c : Config)
    → validate_config valid_activity c ≡ ok tt
    → fits_one_job c ≡ true
unfolding validate_config
validate_config_fits valid_activity c h = ground arith

-- A job's budget covers its snapshot and the directory around it.
job_storage_budget_covers :
    (c : Config)
    → fits_one_job c ≡ true
    → (c.max_snapshot_bytes ≤ (job_storage_budget c).bytes_left)
      × (c.max_snapshot_entries + 1 ≤ (job_storage_budget c).entries_left)
unfolding fits_one_job job_storage_budget
job_storage_budget_covers c h = ground arith

-- In a configuration that was validated, a snapshot that was made within its limits is admitted in
-- the directory of its job by the scan of the retained state, where the worker owns its entry.
pub scan_retained_tree-copy_directory_fd :
    (valid_activity : Text → Bool) (c : Config) (euid : ℕ) (left : CopyBudget)
    (workspace made : Listing) (input : Entry)
    → validate_config valid_activity c ≡ ok tt
    → copy_directory_fd euid (snapshot_budget c) true workspace ≡ ok (left, made)
    → input.uid ≡ euid
    → (rest : CopyBudget) × (scan_retained_tree euid
          (job_storage_budget c)
          0
          true
          (entry input (directory made) end)
        ≡ ok rest)
unfolding is_owned
scan_retained_tree-copy_directory_fd valid_activity c euid left workspace made input v h u =
    let (copyable, spent, same) =
      (copy_directory_fd-image euid (snapshot_budget c) left true workspace made).0 h in
    let it = image_retained euid 0 true workspace copyable in
    let z = is_skipped_below input in
    let covers = job_storage_budget_covers c (validate_config_fits valid_activity c v) in
    let job = job_storage_budget c in
    let rest : CopyBudget = record {
      bytes_left = job.bytes_left - tree_bytes true workspace;
      entries_left = job.entries_left - (1 + tree_entries true workspace);
    } in
    (
      rest,
      (scan_retained_tree-charge euid true 0 job rest (entry input (directory made) end)).1
          (ground arith),
    )
