-- ===== src/Worker/Reservations/Charging.antt =====
-- How the usage of the retained state grows, and how it compares with one more claim.
use tentaflake.Worker.Reservations.{
  Place, running, results, jobs, RetainedUsage, Slot, Refusal, charge, set_slot, check_tree,
  check_claim, check_entry, check_entries, is_jobs, job_of, trees_ceiling, reservations_ceiling,
  count_job, check_item,
}
use tentaflake.Worker.Trees.{Entry, Item, directory, file, link, special, unreadable}
use tentaflake.Worker.Retained.{scan_retained_tree}
use tentaflake.Worker.Config.{Config, job_storage_budget}
use tentaflake.Prelude.{
  true, ok, [], ℕ, ◌<◌, ◌≤◌, Text, ◌≡◌, u64_mod, ◌+◌, List, arith, Result-cases, inr, ◌∷◌, inl, ◌-◌,
  Option-cases,
}

pub charge_facts :
    (c : Config) (bytes entries : ℕ) (full : Refusal) (u v : RetainedUsage)
    → charge c bytes entries full u ≡ ok v
    → (v.slots ≡ u.slots)
      × (v.bytes ≡ u.bytes + bytes)
      × (v.entries ≡ u.entries + entries)
      × (v.results ≡ u.results)
      × (v.bytes ≤ c.max_retained_result_bytes)
      × (v.entries ≤ c.max_retained_entries)
unfolding charge
charge_facts c bytes entries full u v h = ground arith

-- The ceilings are numbers of 64 bits.
abbrev pub IsBounded : Config → Type 0
IsBounded c = (c.max_retained_result_bytes < u64_mod) × (c.max_retained_entries < u64_mod)

pub charge_fits :
    (c : Config) (bytes entries : ℕ) (full : Refusal) (u : RetainedUsage)
    → IsBounded c
    → u.bytes + bytes ≤ c.max_retained_result_bytes
    → u.entries + entries ≤ c.max_retained_entries
    → charge c bytes entries full u
      ≡ ok (record {
        slots = u.slots;
        bytes = u.bytes + bytes;
        entries = u.entries + entries;
        results = u.results;
      })
unfolding charge
charge_fits c bytes entries full u (m, n) h k = ground arith

-- A usage that is no smaller.
abbrev pub Grows : RetainedUsage → RetainedUsage → Type 0
Grows u v = (u.bytes ≤ v.bytes) × (u.entries ≤ v.entries) × (u.results ≤ v.results)

check_tree-Grows :
    (c : Config) (euid : ℕ) (p : Place) (job : Text) (s : Slot) (i : Item) (u v : RetainedUsage)
    → check_tree c euid p job s i u ≡ ok v
    → Grows u v
unfolding check_tree set_slot
check_tree-Grows c euid p job s (directory l) u v h =
    elim (Result-cases (scan_retained_tree euid s.budget 0 (is_jobs p) l)) [
      | inr (e, r) ↦ absurd (ground arith)
      | inl (left, r) ↦
          let w =
            set_slot job (record { budget = left; is_running = s.is_running; is_occupied = true })
              u in
          let z =
            charge_facts c (s.budget.bytes_left - left.bytes_left)
              (s.budget.entries_left - left.entries_left) trees_ceiling w v in
          ground arith
    ]
check_tree-Grows c euid p job s (file n b) u v h = absurd (ground arith)
check_tree-Grows c euid p job s (link t) u v h = absurd (ground arith)
check_tree-Grows c euid p job s special u v h = absurd (ground arith)
check_tree-Grows c euid p job s unreadable u v h = absurd (ground arith)

check_claim-Grows :
    (c : Config) (job : Text) (s : Slot) (i : Item) (u v : RetainedUsage)
    → check_claim c job s i u ≡ ok v
    → Grows u v
unfolding check_claim set_slot
check_claim-Grows c job s i u v h =
    let w = set_slot job (record { budget = s.budget; is_running = true; is_occupied = true }) u in
    let z =
      charge_facts c (job_storage_budget c).bytes_left (job_storage_budget c).entries_left
        reservations_ceiling w v in
    ground arith

pub check_item-Grows :
    (c : Config) (euid : ℕ) (p : Place) (job : Text) (s : Slot) (i : Item) (u v : RetainedUsage)
    → check_item c euid p job s i u ≡ ok v
    → Grows u v
unfolding check_item
check_item-Grows c euid running job s i u v h = check_claim-Grows c job s i u v h
check_item-Grows c euid results job s i u v h = check_tree-Grows c euid results job s i u v h
check_item-Grows c euid jobs job s i u v h = check_tree-Grows c euid jobs job s i u v h

pub check_entry-Grows :
    (c : Config) (euid : ℕ) (reserved : List Text) (u v : RetainedUsage) (p : Place)
    (x : Entry × Item)
    → check_entry c euid reserved u p x ≡ ok v
    → Grows u v
unfolding check_entry count_job
check_entry-Grows c euid reserved u v p (e, i) h = elim (Option-cases (job_of p e.name)) [
  | inl r ↦ absurd (ground arith)
  | inr (job, r) ↦
      let s = u.slots job in
      let z = check_item-Grows c euid p job s i (count_job s u) v in ground arith
]

pub check_entries-Grows :
    (c : Config) (euid : ℕ) (reserved : List Text) (p : Place) (u v : RetainedUsage)
    (l : List (Entry × Item))
    → check_entries c euid reserved p u l ≡ ok v
    → Grows u v
unfolding check_entries
check_entries-Grows c euid reserved p u v [] h = ground arith
check_entries-Grows c euid reserved p u v (x ∷ l) h =
    elim (Result-cases (check_entry c euid reserved u p x)) [
      | inr (e, r) ↦ absurd (ground arith)
      | inl (w, r) ↦
          let a = check_entry-Grows c euid reserved u w p x r in
          let b = check_entries-Grows c euid reserved p w v l in ground arith
    ]
