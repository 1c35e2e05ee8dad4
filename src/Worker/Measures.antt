-- ===== src/Worker/Measures.antt =====
-- The size of a tree and its image under `copy_directory_fd`, apart from the code's loops.
use tentaflake.Worker.Trees.{
  Item, Listing, directory, file, link, special, unreadable, end, entry, is_skipped, CopyBudget,
}
use tentaflake.Prelude.{true, false, ℕ, length, Bool, ◌+◌, ltb, ◌&&◌, ◌≡◌, ◌-◌, arith}
use tentaflake.Worker.Snapshots.{made_entry, max_tree_depth}

abbrev mutual
  pub item_bytes : Item → ℕ
  item_bytes (directory l) = tree_bytes false l
  item_bytes (file nlink bytes) = length bytes
  item_bytes (link target) = 0
  item_bytes special = 0
  item_bytes unreadable = 0

  -- The bytes of the files of a tree.
  pub tree_bytes : Bool → Listing → ℕ
  tree_bytes top end = 0
  tree_bytes top (entry e i rest) = elim (is_skipped top e) [
    | true ↦ tree_bytes top rest
    | false ↦ item_bytes i + tree_bytes top rest
  ]

abbrev mutual
  pub item_entries : Item → ℕ
  item_entries (directory l) = tree_entries false l
  item_entries (file nlink bytes) = 0
  item_entries (link target) = 0
  item_entries special = 0
  item_entries unreadable = 0

  -- The entries of a tree, at all depths.
  pub tree_entries : Bool → Listing → ℕ
  tree_entries top end = 0
  tree_entries top (entry e i rest) = elim (is_skipped top e) [
    | true ↦ tree_entries top rest
    | false ↦ 1 + item_entries i + tree_entries top rest
  ]

abbrev mutual
  pub is_copyable_item : ℕ → Item → Bool
  is_copyable_item depth (directory l) = ltb depth max_tree_depth && is_copyable (depth + 1) false l
  is_copyable_item depth (file nlink bytes) = true
  is_copyable_item depth (link target) = ltb (length target) 4097
  is_copyable_item depth special = false
  is_copyable_item depth unreadable = false

  -- A tree of directories that are not too deep, readable files and links that are not too long.
  pub is_copyable : ℕ → Bool → Listing → Bool
  is_copyable depth top end = true
  is_copyable depth top (entry e i rest) = elim (is_skipped top e) [
    | true ↦ is_copyable depth top rest
    | false ↦ is_copyable_item depth i && is_copyable depth top rest
  ]

abbrev mutual
  pub item_image : ℕ → Item → Item
  item_image euid (directory l) = directory (image euid false l)
  item_image euid (file nlink bytes) = file 1 bytes
  item_image euid (link target) = link target
  item_image euid special = special
  item_image euid unreadable = unreadable

  -- The tree with its entries' owners and modes replaced.
  pub image : ℕ → Bool → Listing → Listing
  image euid top end = end
  image euid top (entry e i rest) = elim (is_skipped top e) [
    | true ↦ image euid top rest
    | false ↦ entry (made_entry euid e i) (item_image euid i) (image euid top rest)
  ]

-- What was used of a budget.
abbrev pub Spent : CopyBudget → CopyBudget → ℕ → ℕ → Type 0
Spent b c bytes entries =
    (b.bytes_left ≡ c.bytes_left + bytes) × (b.entries_left ≡ c.entries_left + entries)

pub CopyBudget-eq :
    (b c : CopyBudget) → b.bytes_left ≡ c.bytes_left → b.entries_left ≡ c.entries_left → b ≡ c
CopyBudget-eq b c h k = λ i. record { bytes_left = h i; entries_left = k i }

pub Spent_none : (b c : CopyBudget) → Spent b c 0 0 → b ≡ c
Spent_none b c (h, k) = CopyBudget-eq b c (omega (arith, h)) (omega (arith, k))

pub Spent-eq :
    (b c : CopyBudget) (bytes entries : ℕ)
    → Spent b c bytes entries
    → record { bytes_left = b.bytes_left - bytes; entries_left = b.entries_left - entries } ≡ c
Spent-eq b c bytes entries (h, k) = CopyBudget-eq _ c (omega (arith, h)) (omega (arith, k))
