-- ===== src/Worker/Snapshots/Copies.antt =====
-- A snapshot is the whole workspace, and is taken from the budget exactly.
use tentaflake.Worker.Measures.{
  image, item_image, tree_bytes, tree_entries, item_bytes, item_entries, is_copyable,
  is_copyable_item, Spent, Spent-eq, Spent_none,
}
use tentaflake.Worker.Snapshots.{copy_entries, copy_item, copy_directory_fd, take}
use tentaflake.Worker.Trees.{
  Item, Listing, directory, file, link, special, unreadable, end, entry, is_skipped, CopyBudget,
  list_fd_dir,
}
use tentaflake.Prelude.{
  refl, [], true, false, zero, suc, ℕ, List, ◌≡◌, length, ◌+◌, ok, ◌<◌, arith, ◌∷◌, Bool, ap,
  Result-cases, inr, inl, ◌-◌, Bool-cases, ◌≤◌, ◌↔◌,
}

take_enough : (n : ℕ) (xs : List ℕ) → length (take n xs) < n → take n xs ≡ xs
unfolding take
take_enough zero xs h = absurd (ground arith)
take_enough (suc n) [] h = refl
take_enough (suc n) (x ∷ xs) h = ap (λ s. x ∷ s) (take_enough n xs (omega (arith, h)))

mutual
  unfolding copy_item

  copy_item-image :
      (euid depth : ℕ) (b c : CopyBudget) (i j : Item)
      → copy_item euid depth b i ≡ ok (c, j)
      → (j ≡ item_image euid i)
        × (is_copyable_item depth i ≡ true)
        × Spent b c (item_bytes i) (item_entries i)
  copy_item-image euid depth b c (directory l) j h =
      elim (Result-cases (copy_entries euid (depth + 1) false b l)) [
        | inr (e, r) ↦ absurd (ground arith)
        | inl ((d, m), r) ↦
            let ih = copy_entries-image euid (depth + 1) false b d l m r in ground arith
      ]
  copy_item-image euid depth b c (file nlink bytes) j h =
      let z = take_enough (b.bytes_left + 1) bytes in ground arith
  copy_item-image euid depth b c (link target) j h = ground arith
  copy_item-image euid depth b c special j h = absurd (ground arith)
  copy_item-image euid depth b c unreadable j h = absurd (ground arith)

  copy_entries-image :
      (euid depth : ℕ) (top : Bool) (b c : CopyBudget) (l m : Listing)
      → copy_entries euid depth top b l ≡ ok (c, m)
      → (m ≡ image euid top l)
        × (is_copyable depth top l ≡ true)
        × Spent b c (tree_bytes top l) (tree_entries top l)
  copy_entries-image euid depth top b c end m h = ground arith
  copy_entries-image euid depth top b c (entry e i rest) m h =
      let taken : CopyBudget = record {
        bytes_left = b.bytes_left;
        entries_left = b.entries_left - 1;
      } in
      elim (Bool-cases (is_skipped top e)) [
        | inl s ↦ let ih = copy_entries-image euid depth top b c rest m in ground arith
        | inr s ↦ elim (Result-cases (copy_item euid depth taken i)) [
          | inr (x, r) ↦ absurd (ground arith)
          | inl ((d, j), r) ↦
              let ih = copy_item-image euid depth taken d i j r in
              elim (Result-cases (copy_entries euid depth top d rest)) [
                | inr (x, q) ↦ absurd (ground arith)
                | inl ((f, n), q) ↦
                    let it = copy_entries-image euid depth top d f rest n q in ground arith
              ]
        ]
      ]

pub list_fd_dir_fits :
    (max n : ℕ) (top : Bool) (l : Listing)
    → n + tree_entries top l ≤ max
    → list_fd_dir max top n l ≡ ok tt
unfolding list_fd_dir
list_fd_dir_fits max n top end h = refl
list_fd_dir_fits max n top (entry e i rest) h = elim (Bool-cases (is_skipped top e)) [
  | inl s ↦ let ih = list_fd_dir_fits max n top rest in ground arith
  | inr s ↦ let ih = list_fd_dir_fits max (n + 1) top rest in ground arith
]

take_all : (n : ℕ) (xs : List ℕ) → length xs ≤ n → take n xs ≡ xs
unfolding take
take_all zero [] h = refl
take_all zero (x ∷ xs) h = absurd (ground arith)
take_all (suc n) [] h = refl
take_all (suc n) (x ∷ xs) h = ap (λ s. x ∷ s) (take_all n xs (omega (arith, h)))

mutual
  unfolding copy_item

  copy_item_copyable :
      (euid depth : ℕ) (b c : CopyBudget) (i : Item)
      → is_copyable_item depth i ≡ true
      → Spent b c (item_bytes i) (item_entries i)
      → copy_item euid depth b i ≡ ok (c, item_image euid i)
  copy_item_copyable euid depth b c (directory l) h k =
      let ih = copy_entries_copyable euid (depth + 1) false b c l in
      let z = list_fd_dir_fits b.entries_left 0 false l in ground arith
  copy_item_copyable euid depth b c (file nlink bytes) h k =
      let z = take_all (b.bytes_left + 1) bytes in let same = Spent-eq b c _ _ k in ground arith
  copy_item_copyable euid depth b c (link target) h k = let same = Spent_none b c k in ground arith
  copy_item_copyable euid depth b c special h k = absurd (ground arith)
  copy_item_copyable euid depth b c unreadable h k = absurd (ground arith)

  copy_entries_copyable :
      (euid depth : ℕ) (top : Bool) (b c : CopyBudget) (l : Listing)
      → is_copyable depth top l ≡ true
      → Spent b c (tree_bytes top l) (tree_entries top l)
      → copy_entries euid depth top b l ≡ ok (c, image euid top l)
  copy_entries_copyable euid depth top b c end h k = let same = Spent_none b c k in ground arith
  copy_entries_copyable euid depth top b c (entry e i rest) h k =
      let taken : CopyBudget = record {
        bytes_left = b.bytes_left;
        entries_left = b.entries_left - 1;
      } in
      let left : CopyBudget = record {
        bytes_left = c.bytes_left + tree_bytes top rest;
        entries_left = c.entries_left + tree_entries top rest;
      } in
      elim (Bool-cases (is_skipped top e)) [
        | inl s ↦ let ih = copy_entries_copyable euid depth top b c rest in ground arith
        | inr s ↦
            let ih = copy_item_copyable euid depth taken left i in
            let it = copy_entries_copyable euid depth top left c rest in ground arith
      ]

-- The copy of a directory, without the exchange directory at its top, is the directory with its
-- owners and modes replaced, and it is made exactly where the directory is copyable and the budget
-- covers its bytes and its entries: what is left is the rest.
pub copy_directory_fd-image :
    (euid : ℕ) (b c : CopyBudget) (top : Bool) (l m : Listing)
    → (copy_directory_fd euid b top l ≡ ok (c, m)) ↔ (
        (is_copyable 0 top l ≡ true)
        × Spent b c (tree_bytes top l) (tree_entries top l)
        × (m ≡ image euid top l))
unfolding copy_directory_fd
copy_directory_fd-image euid b c top l m = (
  (λ h.
      let ih = copy_entries-image euid 0 top b c l m in
      elim (Result-cases (list_fd_dir b.entries_left top 0 l)) [
        | inr (e, r) ↦ absurd (ground arith)
        | inl (_, r) ↦ ground arith
      ]),
  (λ (h, k, e).
      let ih = copy_entries_copyable euid 0 top b c l in
      let z = list_fd_dir_fits b.entries_left 0 top l in ground arith),
)
