-- ===== src/Worker/Reservations/Entries.antt =====
-- The directories of the retained state with one more claim.
use tentaflake.Worker.Reservations.{
  Place, running, results, jobs, RetainedUsage, check_item, check_entry, check_entries, check_place,
  job_of, is_private, count_job, check_tree,
}
use tentaflake.Worker.Reservations.Charging.{IsBounded, check_item-Grows, check_entries-Grows}
use tentaflake.Worker.Reservations.OneMore.{OneMore, HasRoom}
use tentaflake.Worker.Reservations.Steps.{check_tree_more}
use tentaflake.Worker.Trees.{Entry, Item, directory, file, link, special, unreadable}
use tentaflake.Worker.Config.{Config}
use tentaflake.Prelude.{
  refl, true, false, ok, [], some, contains, Bool, ℕ, Text, List, ◌≡◌, Bool-cases, arith, list_eq,
  ◌≤◌, Option-cases, Result-cases, inl, subst, inr, ◌+◌, ◌∙◌, list_eq-eq, ap, ◌∷◌,
}

abbrev pub is_tree : Place → Bool
is_tree running = false
is_tree results = true
is_tree jobs = true

check_item_more :
    (c : Config) (euid : ℕ) (p : Place) (job j : Text) (i : Item) (u v w : RetainedUsage)
    → is_tree p ≡ true
    → IsBounded c
    → OneMore c job u v
    → HasRoom c w
    → check_item c euid p j (u.slots j) i u ≡ ok w
    → (x : RetainedUsage) × (check_item c euid p j (v.slots j) i v ≡ ok x) × OneMore c job w x
unfolding check_item check_tree
check_item_more c euid running job j i u v w t m more room h = absurd (ground arith)
check_item_more c euid results job j (directory l) u v w t m more room h =
    check_tree_more c euid results job j l u v w m more room h
check_item_more c euid jobs job j (directory l) u v w t m more room h =
    check_tree_more c euid jobs job j l u v w m more room h
check_item_more c euid results job j (file n b) u v w t m more room h = absurd (ground arith)
check_item_more c euid results job j (link b) u v w t m more room h = absurd (ground arith)
check_item_more c euid results job j special u v w t m more room h = absurd (ground arith)
check_item_more c euid results job j unreadable u v w t m more room h = absurd (ground arith)
check_item_more c euid jobs job j (file n b) u v w t m more room h = absurd (ground arith)
check_item_more c euid jobs job j (link b) u v w t m more room h = absurd (ground arith)
check_item_more c euid jobs job j special u v w t m more room h = absurd (ground arith)
check_item_more c euid jobs job j unreadable u v w t m more room h = absurd (ground arith)

count_job_more :
    (c : Config) (job j : Text) (u v : RetainedUsage)
    → OneMore c job u v
    → OneMore c job (count_job (u.slots j) u) (count_job (v.slots j) v)
unfolding count_job
count_job_more c job j u v ((others, budget, run, seen), b, n, r) = (
  (others, budget, run, seen),
  b,
  n,
  elim (Bool-cases (list_eq job j)) [
    | inl e ↦
        subst (λ j. (count_job (v.slots j) v).results ≤ (count_job (u.slots j) u).results + 1)
          (list_eq-eq job j e) (ground arith)
    | inr d ↦ let same = others j d in ground arith
  ],
)

-- What an entry that passed has shown.
abbrev pub Passes :
    Config → ℕ → List Text → RetainedUsage → Place → Entry × Item → RetainedUsage → Text → Type 0
Passes c euid reserved u p (e, i) w j =
    (job_of p e.name ≡ some j)
    × (contains reserved j ≡ true)
    × ((count_job (u.slots j) u).results ≤ c.max_retained_results)
    × (is_private euid p e ≡ true)
    × (check_item c euid p j (u.slots j) i (count_job (u.slots j) u) ≡ ok w)

pub check_entry-Passes :
    (c : Config) (euid : ℕ) (reserved : List Text) (u w : RetainedUsage) (p : Place)
    (x : Entry × Item)
    → check_entry c euid reserved u p x ≡ ok w
    → (j : Text) × Passes c euid reserved u p x w j
unfolding check_entry
check_entry-Passes c euid reserved u w p (e, i) h = elim (Option-cases (job_of p e.name)) [
  | inl r ↦ absurd (ground arith)
  | inr (j, r) ↦ (j, ground arith)
]

pub check_entry_fits :
    (c : Config) (euid : ℕ) (reserved : List Text) (u w : RetainedUsage) (p : Place)
    (x : Entry × Item) (j : Text)
    → Passes c euid reserved u p x w j
    → check_entry c euid reserved u p x ≡ ok w
unfolding check_entry
check_entry_fits c euid reserved u w p (e, i) j h = ground arith

-- Each receipt of the first list is in the second.
abbrev pub Includes : List Text → List Text → Type 0
Includes reserved more = (j : Text) → contains reserved j ≡ true → contains more j ≡ true

pub check_entry_more :
    (c : Config) (euid : ℕ) (reserved more : List Text) (p : Place) (job : Text)
    (u v w : RetainedUsage) (y : Entry × Item)
    → Includes reserved more
    → is_tree p ≡ true
    → IsBounded c
    → OneMore c job u v
    → HasRoom c w
    → check_entry c euid reserved u p y ≡ ok w
    → (x : RetainedUsage) × (check_entry c euid more v p y ≡ ok x) × OneMore c job w x
unfolding count_job
check_entry_more c euid reserved more p job u v w (e, i) inc t m one room h =
    let (j, passes) = check_entry-Passes c euid reserved u w p (e, i) h in
    let (named, receipt, few, safe, item) = passes in
    let counted = count_job_more c job j u v one in
    let s = u.slots j in
    let grown = check_item-Grows c euid p j s i (count_job s u) w item in
    let (x, made, next) =
      check_item_more c euid p job j i (count_job s u) (count_job (v.slots j) v) w t m counted room
        item in
    (
      x,
      check_entry_fits c euid more v x p (e, i) j
          (named, inc j receipt, omega (arith, counted.3, grown.2, room.2), safe, made),
      next,
    )

check_entries_more :
    (c : Config) (euid : ℕ) (reserved more : List Text) (p : Place) (job : Text)
    (u v w : RetainedUsage) (l : List (Entry × Item))
    → Includes reserved more
    → is_tree p ≡ true
    → IsBounded c
    → OneMore c job u v
    → HasRoom c w
    → check_entries c euid reserved p u l ≡ ok w
    → (x : RetainedUsage) × (check_entries c euid more p v l ≡ ok x) × OneMore c job w x
unfolding check_entries
check_entries_more c euid reserved more p job u v w [] inc t m one room h =
    let same : u ≡ w = ground arith in (v, refl, subst (λ w. OneMore c job w v) same one)
check_entries_more c euid reserved more p job u v w (q ∷ l) inc t m one room h =
    elim (Result-cases (check_entry c euid reserved u p q)) [
      | inr (z, r) ↦ absurd (ground arith)
      | inl (d, r) ↦
          let later : check_entries c euid reserved p d l ≡ ok w = ground arith in
          let grown = check_entries-Grows c euid reserved p d w l later in
          let (x, made, next) =
            check_entry_more c euid reserved more p job u v d q inc t m one
              (omega arith, omega arith, omega arith) r in
          let (y, rest, last) =
            check_entries_more c euid reserved more p job d x w l inc t m next room later in
          (y, ground arith, last)
    ]

pub check_place_more :
    (c : Config) (euid : ℕ) (reserved more : List Text) (p : Place) (job : Text)
    (u v w : RetainedUsage) (l : List (Entry × Item))
    → Includes reserved more
    → is_tree p ≡ true
    → IsBounded c
    → OneMore c job u v
    → HasRoom c w
    → check_place c euid reserved p u l ≡ ok w
    → (x : RetainedUsage) × (check_place c euid more p v l ≡ ok x) × OneMore c job w x
unfolding check_place
check_place_more c euid reserved more p job u v w l inc t m one room h =
    elim (Result-cases (check_entries c euid reserved p u l)) [
      | inr (z, r) ↦ absurd (ground arith)
      | inl (d, r) ↦
          let same : d ≡ w = ground arith in
          let (x, made, next) =
            check_entries_more c euid reserved more p job u v w l inc t m one room
              (r ∙ ap ok same) in
          (x, ground arith, next)
    ]
