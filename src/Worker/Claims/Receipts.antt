-- ===== src/Worker/Claims/Receipts.antt =====
-- What one more receipt and one more claim change in `check_retained`.
use tentaflake.Worker.Reservations.{
  Place, running, RetainedUsage, check_item, check_claim, set_slot, check_receipts, is_receipt,
  is_valid_job, check_entry, check_entries, check_place, job_of, is_private, is_claim, count_job,
  reservations_ceiling,
}
use tentaflake.Worker.Reservations.Charging.{IsBounded, charge_fits}
use tentaflake.Worker.Reservations.OneMore.{OneMore, HasRoom}
use tentaflake.Worker.Reservations.Entries.{Includes, check_entry-Passes, check_entry_fits}
use tentaflake.Worker.Claims.{new_receipt}
use tentaflake.Worker.Trees.{Entry, Item}
use tentaflake.Worker.Config.{Config, job_storage_budget}
use tentaflake.Prelude.{
  refl, true, ok, [], some, contains, ℕ, List, Text, ◌≡◌, ◌++◌, ltb, arith, ◌∷◌, length,
  Result-cases, list_eq, inr, Bool-cases, list_eq_refl, strip_suffix, codes, inl, ◌+◌, ap,
  list_eq-eq, length-append,
}

new_receipt_valid :
    (euid : ℕ) (job : Text)
    → is_receipt euid (new_receipt euid job).0 (new_receipt euid job).1 ≡ true
unfolding new_receipt is_receipt
new_receipt_valid euid job = ground arith

pub check_receipts-append :
    (euid : ℕ) (job : Text) (l : List (Entry × Item)) (reserved : List Text)
    → is_valid_job job ≡ true
    → check_receipts euid l ≡ ok reserved
    → check_receipts euid (l ++ (new_receipt euid job ∷ [])) ≡ ok (reserved ++ (job ∷ []))
unfolding check_receipts new_receipt
check_receipts-append euid job [] reserved v h = let z = new_receipt_valid euid job in ground arith
check_receipts-append euid job (x ∷ l) reserved v h = elim (Result-cases (check_receipts euid l)) [
  | inr (e, r) ↦ absurd (ground arith)
  | inl (more, r) ↦ let ih = check_receipts-append euid job l more v r in ground arith
]

pub check_receipts-length :
    (euid : ℕ) (l : List (Entry × Item)) (reserved : List Text)
    → check_receipts euid l ≡ ok reserved
    → length reserved ≡ length l
unfolding check_receipts
check_receipts-length euid [] reserved h = ground arith
check_receipts-length euid (x ∷ l) reserved h = elim (Result-cases (check_receipts euid l)) [
  | inr (e, r) ↦ absurd (ground arith)
  | inl (more, r) ↦ let ih = check_receipts-length euid l more r in ground arith
]

pub contains-append :
    (reserved : List Text) (job : Text) → Includes reserved (reserved ++ (job ∷ []))
contains-append [] job j h = absurd (ground arith)
contains-append (r ∷ reserved) job j h =
    let ih = contains-append reserved job j in
    elim (Bool-cases (list_eq r j)) [ inl e ↦ ground arith | inr d ↦ ground arith ]

pub contains_last :
    (reserved : List Text) (job : Text) → contains (reserved ++ (job ∷ [])) job ≡ true
contains_last [] job = let z = list_eq_refl job in ground arith
contains_last (r ∷ reserved) job = let ih = contains_last reserved job in ground arith

check_entries-Includes :
    (c : Config) (euid : ℕ) (reserved more : List Text) (p : Place) (u w : RetainedUsage)
    (l : List (Entry × Item))
    → Includes reserved more
    → check_entries c euid reserved p u l ≡ ok w
    → check_entries c euid more p u l ≡ ok w
unfolding check_entries
check_entries-Includes c euid reserved more p u w [] inc h = h
check_entries-Includes c euid reserved more p u w (q ∷ l) inc h =
    elim (Result-cases (check_entry c euid reserved u p q)) [
      | inr (z, r) ↦ absurd (ground arith)
      | inl (d, r) ↦
          let (j, passes) = check_entry-Passes c euid reserved u d p q r in
          let (named, receipt, few, safe, item) = passes in
          let same =
            check_entry_fits c euid more u d p q j (named, inc j receipt, few, safe, item) in
          let ih = check_entries-Includes c euid reserved more p d w l inc in ground arith
    ]

pub check_place-Includes :
    (c : Config) (euid : ℕ) (reserved more : List Text) (p : Place) (u w : RetainedUsage)
    (l : List (Entry × Item))
    → Includes reserved more
    → check_place c euid reserved p u l ≡ ok w
    → check_place c euid more p u l ≡ ok w
unfolding check_place
check_place-Includes c euid reserved more p u w l inc h =
    elim (Result-cases (check_entries c euid reserved p u l)) [
      | inr (z, r) ↦ absurd (ground arith)
      | inl (d, r) ↦
          let same = check_entries-Includes c euid reserved more p u d l inc r in ground arith
    ]

pub check_entries-append :
    (c : Config) (euid : ℕ) (reserved : List Text) (p : Place) (u w x : RetainedUsage)
    (l : List (Entry × Item)) (q : Entry × Item)
    → check_entries c euid reserved p u l ≡ ok w
    → check_entry c euid reserved w p q ≡ ok x
    → check_entries c euid reserved p u (l ++ (q ∷ [])) ≡ ok x
unfolding check_entries
check_entries-append c euid reserved p u w x [] q h k = ground arith
check_entries-append c euid reserved p u w x (y ∷ l) q h k =
    elim (Result-cases (check_entry c euid reserved u p y)) [
      | inr (z, r) ↦ absurd (ground arith)
      | inl (d, r) ↦ let ih = check_entries-append c euid reserved p d w x l q in ground arith
    ]

strip_suffix-append : (s t : Text) → ltb 0 (length t) ≡ true → strip_suffix t (s ++ t) ≡ some s
strip_suffix-append [] [] h = absurd (ground arith)
strip_suffix-append [] (b ∷ t) h = let z = list_eq_refl (b ∷ t) in ground arith
strip_suffix-append (b ∷ s) t h =
    let ih = strip_suffix-append s t h in
    elim (Bool-cases (list_eq (b ∷ (s ++ t)) t)) [
      | inl e ↦
          let same = ap length (list_eq-eq (b ∷ (s ++ t)) t e) in
          let z = length-append s t in absurd (omega arith)
      | inr d ↦ ground arith
    ]

-- A claim charges the whole budget of its job.
pub check_entry_claim :
    (c : Config) (euid : ℕ) (reserved : List Text) (u : RetainedUsage) (job : Text) (e : Entry)
    (i : Item)
    → IsBounded c
    → HasRoom c u
    → contains reserved job ≡ true
    → list_eq e.name (job ++ codes ".json") ≡ true
    → is_private euid running e ≡ true
    → is_claim c i ≡ true
    → (v : RetainedUsage) × (check_entry c euid reserved u running (e, i) ≡ ok v)
      × OneMore c job u v
unfolding check_claim set_slot count_job job_of check_item
check_entry_claim c euid reserved u job e i m (bytes, entries, few) receipt named safe claim =
    let full = job_storage_budget c in
    let s = u.slots job in
    let counted = count_job s u in
    let taken =
      set_slot job (record { budget = s.budget; is_running = true; is_occupied = true }) counted in
    let v : RetainedUsage = record {
      slots = taken.slots;
      bytes = u.bytes + full.bytes_left;
      entries = u.entries + full.entries_left;
      results = counted.results;
    } in
    let charged =
      charge_fits c full.bytes_left full.entries_left reservations_ceiling taken m bytes entries in
    let name = list_eq-eq e.name (job ++ codes ".json") named in
    let stripped = strip_suffix-append job (codes ".json") refl in
    let z = list_eq_refl job in
    (
      v,
      check_entry_fits c euid reserved u v running (e, i) job
          (rw name stripped, receipt, ground arith, safe, ground arith),
      (
        ((λ k h. ground arith), ground arith, ground arith, ground arith),
        omega arith,
        omega arith,
        ground arith,
      ),
    )
