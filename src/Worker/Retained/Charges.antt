-- ===== src/Worker/Retained/Charges.antt =====
-- What `scan_retained_tree` charges for a tree, and that it admits a snapshot.
use tentaflake.Worker.Measures.{
  tree_bytes, tree_entries, item_bytes, item_entries, Spent, Spent-eq, Spent_none,
}
use tentaflake.Worker.Snapshots.{max_tree_depth}
use tentaflake.Worker.Snapshots.Copies.{list_fd_dir_fits}
use tentaflake.Worker.Trees.{
  Item, Listing, Entry, CopyBudget, directory, file, link, special, unreadable, end, entry,
  is_skipped,
}
use tentaflake.Worker.Retained.{is_owned, scan_item, scan_entries, scan_retained_tree, enter}
use tentaflake.Prelude.{
  refl, true, false, ℕ, ◌≡◌, Bool, ok, leb, ◌+◌, ◌↔◌, ◌&&◌, arith, ◌≤◌, Result-cases, ◌==◌, inr,
  ◌-◌, length, inl,
}

abbrev mutual
  pub is_retained_item : ℕ → Bool → ℕ → Item → Bool
  is_retained_item euid snapshot depth (directory l) =
      leb (depth + 1) (max_tree_depth + 1) && is_retained euid snapshot (depth + 1) l
  is_retained_item euid snapshot depth (file nlink bytes) = nlink == 1
  is_retained_item euid snapshot depth (link target) = snapshot && leb (length target) 4096
  is_retained_item euid snapshot depth special = false
  is_retained_item euid snapshot depth unreadable = false

  -- A tree of entries of the owner, with directories that are not too deep.
  pub is_retained : ℕ → Bool → ℕ → Listing → Bool
  is_retained euid snapshot depth end = true
  is_retained euid snapshot depth (entry e i rest) =
      is_owned euid snapshot e i
      && is_retained_item euid snapshot depth i
      && is_retained euid snapshot depth rest

pub is_skipped_below : (e : Entry) → is_skipped false e ≡ false
unfolding is_skipped
is_skipped_below e = refl

enter_depth :
    (depth : ℕ) (b : CopyBudget) (l : Listing)
    → enter depth b l ≡ ok tt
    → leb depth (max_tree_depth + 1) ≡ true
unfolding enter
enter_depth depth b l h = ground arith

enter_fits :
    (depth : ℕ) (b : CopyBudget) (l : Listing)
    → leb depth (max_tree_depth + 1) ≡ true
    → tree_entries false l ≤ b.entries_left
    → enter depth b l ≡ ok tt
unfolding enter
enter_fits depth b l h k =
    let z = list_fd_dir_fits b.entries_left 0 false l (omega (arith, k)) in ground arith

mutual
  unfolding scan_item

  scan_item_charge :
      (euid : ℕ) (snapshot : Bool) (depth : ℕ) (b c : CopyBudget) (i : Item)
      → scan_item euid snapshot depth b i ≡ ok c
      → (is_retained_item euid snapshot depth i ≡ true) × Spent b c (item_bytes i) (item_entries i)
  scan_item_charge euid snapshot depth b c (directory l) h =
      let ih = scan_entries_charge euid snapshot (depth + 1) b c l in
      let z = enter_depth (depth + 1) b l in
      elim (Result-cases (enter (depth + 1) b l)) [
        | inr (e, r) ↦ absurd (ground arith)
        | inl (_, r) ↦ ground arith
      ]
  scan_item_charge euid snapshot depth b c (file nlink bytes) h = ground arith
  scan_item_charge euid snapshot depth b c (link target) h = ground arith
  scan_item_charge euid snapshot depth b c special h = absurd (ground arith)
  scan_item_charge euid snapshot depth b c unreadable h = absurd (ground arith)

  scan_entries_charge :
      (euid : ℕ) (snapshot : Bool) (depth : ℕ) (b c : CopyBudget) (l : Listing)
      → scan_entries euid snapshot depth b l ≡ ok c
      → (is_retained euid snapshot depth l ≡ true)
        × Spent b c (tree_bytes false l) (tree_entries false l)
  scan_entries_charge euid snapshot depth b c end h = ground arith
  scan_entries_charge euid snapshot depth b c (entry e i rest) h =
      let taken : CopyBudget = record {
        bytes_left = b.bytes_left;
        entries_left = b.entries_left - 1;
      } in
      let z = is_skipped_below e in
      elim (Result-cases (scan_item euid snapshot depth taken i)) [
        | inr (x, r) ↦ absurd (ground arith)
        | inl (d, r) ↦
            let ih = scan_item_charge euid snapshot depth taken d i r in
            let it = scan_entries_charge euid snapshot depth d c rest in ground arith
      ]

mutual
  unfolding scan_item

  scan_item_retained :
      (euid : ℕ) (snapshot : Bool) (depth : ℕ) (b c : CopyBudget) (i : Item)
      → is_retained_item euid snapshot depth i ≡ true
      → Spent b c (item_bytes i) (item_entries i)
      → scan_item euid snapshot depth b i ≡ ok c
  scan_item_retained euid snapshot depth b c (directory l) h k =
      let ih = scan_entries_retained euid snapshot (depth + 1) b c l in
      let z = enter_fits (depth + 1) b l in ground arith
  scan_item_retained euid snapshot depth b c (file nlink bytes) h k =
      let same = Spent-eq b c _ _ k in ground arith
  scan_item_retained euid snapshot depth b c (link target) h k =
      let same = Spent_none b c k in ground arith
  scan_item_retained euid snapshot depth b c special h k = absurd (ground arith)
  scan_item_retained euid snapshot depth b c unreadable h k = absurd (ground arith)

  scan_entries_retained :
      (euid : ℕ) (snapshot : Bool) (depth : ℕ) (b c : CopyBudget) (l : Listing)
      → is_retained euid snapshot depth l ≡ true
      → Spent b c (tree_bytes false l) (tree_entries false l)
      → scan_entries euid snapshot depth b l ≡ ok c
  scan_entries_retained euid snapshot depth b c end h k =
      let same = Spent_none b c k in ground arith
  scan_entries_retained euid snapshot depth b c (entry e i rest) h k =
      let taken : CopyBudget = record {
        bytes_left = b.bytes_left;
        entries_left = b.entries_left - 1;
      } in
      let left : CopyBudget = record {
        bytes_left = c.bytes_left + tree_bytes false rest;
        entries_left = c.entries_left + tree_entries false rest;
      } in
      let z = is_skipped_below e in
      let ih = scan_item_retained euid snapshot depth taken left i in
      let it = scan_entries_retained euid snapshot depth left c rest in ground arith

-- A tree is admitted exactly where its entries are safe, its directories are not too deep, and
-- the budget covers its bytes and its entries: what is left is the rest.
pub scan_retained_tree-charge :
    (euid : ℕ) (snapshot : Bool) (depth : ℕ) (b c : CopyBudget) (l : Listing)
    → (scan_retained_tree euid b depth snapshot l ≡ ok c) ↔ (
        (leb depth (max_tree_depth + 1) ≡ true)
        × (is_retained euid snapshot depth l ≡ true)
        × Spent b c (tree_bytes false l) (tree_entries false l))
unfolding scan_retained_tree
scan_retained_tree-charge euid snapshot depth b c l = (
  (λ h.
      let it = scan_entries_charge euid snapshot depth b c l in
      let z = enter_depth depth b l in
      elim (Result-cases (enter depth b l)) [
        | inr (e, r) ↦ absurd (ground arith)
        | inl (_, r) ↦ ground arith
      ]),
  (λ (h, k, e).
      let it = scan_entries_retained euid snapshot depth b c l in
      let z = enter_fits depth b l in ground arith),
)
