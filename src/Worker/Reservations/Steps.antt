-- ===== src/Worker/Reservations/Steps.antt =====
-- Each step of `check_retained` with one more claim.
use tentaflake.Worker.Reservations.{
  Place, RetainedUsage, set_slot, check_tree, is_jobs, trees_ceiling,
}
use tentaflake.Worker.Reservations.Charging.{charge_facts, charge_fits, IsBounded}
use tentaflake.Worker.Reservations.OneMore.{
  OneMore, HasRoom, scanned_too, cost_too, bytes_cost, entries_cost, with_slot, scanned,
}
use tentaflake.Worker.Trees.{Listing, CopyBudget, directory}
use tentaflake.Worker.Retained.{scan_retained_tree}
use tentaflake.Worker.Config.{Config}
use tentaflake.Prelude.{
  refl, ok, Text, ◌≡◌, ℕ, ◌+◌, Result-cases, inr, ◌≤◌, arith, inl, ◌-◌, Bool-cases, ap, subst, sym,
}

-- The usage after a tree.
abbrev pub with_tree : RetainedUsage → Text → CopyBudget → RetainedUsage
with_tree u j left = record {
  slots = with_slot u.slots j (scanned u.slots j left);
  bytes = u.bytes + bytes_cost (u.slots j) left;
  entries = u.entries + entries_cost (u.slots j) left;
  results = u.results;
}

RetainedUsage-eq :
    (u v : RetainedUsage)
    → u.slots ≡ v.slots
    → u.bytes ≡ v.bytes
    → u.entries ≡ v.entries
    → u.results ≡ v.results
    → u ≡ v
RetainedUsage-eq u v a b c d =
    λ i. record { slots = a i; bytes = b i; entries = c i; results = d i }

pub check_tree_facts :
    (c : Config) (euid : ℕ) (p : Place) (j : Text) (l : Listing) (u w : RetainedUsage)
    → check_tree c euid p j (u.slots j) (directory l) u ≡ ok w
    → (left : CopyBudget) × (scan_retained_tree euid (u.slots j).budget 0 (is_jobs p) l ≡ ok left)
      × (w ≡ with_tree u j left)
unfolding check_tree set_slot
check_tree_facts c euid p j l u w h =
    elim (Result-cases (scan_retained_tree euid (u.slots j).budget 0 (is_jobs p) l)) [
      | inr (e, r) ↦ absurd (ground arith)
      | inl (left, r) ↦
          let v = set_slot j (scanned u.slots j left) u in
          let z =
            charge_facts c ((u.slots j).budget.bytes_left - left.bytes_left)
              ((u.slots j).budget.entries_left - left.entries_left) trees_ceiling v w in
          (
            left,
            r,
            elim (Bool-cases (u.slots j).is_running) [
              | inl run ↦
                  let same : w ≡ v = ground arith in
                  let (b, n, m) : (w.bytes ≡ u.bytes)
                      × (w.entries ≡ u.entries)
                      × (w.results ≡ u.results) =
                    (cc, cc, cc) in
                  RetainedUsage-eq w (with_tree u j left) (ap (λ (x : RetainedUsage). x.slots) same)
                    (ground arith) (ground arith) (ground arith)
              | inr idle ↦
                  let (a, b, n, m, x, y) = z (ground arith) in
                  RetainedUsage-eq w (with_tree u j left) a (ground arith) (ground arith) m
            ],
          )
    ]

check_tree_fits :
    (c : Config) (euid : ℕ) (p : Place) (j : Text) (l : Listing) (v : RetainedUsage)
    (left : CopyBudget)
    → IsBounded c
    → scan_retained_tree euid (v.slots j).budget 0 (is_jobs p) l ≡ ok left
    → v.bytes + bytes_cost (v.slots j) left ≤ c.max_retained_result_bytes
    → v.entries + entries_cost (v.slots j) left ≤ c.max_retained_entries
    → check_tree c euid p j (v.slots j) (directory l) v ≡ ok (with_tree v j left)
unfolding check_tree set_slot
check_tree_fits c euid p j l v left m r h k =
    let w = set_slot j (scanned v.slots j left) v in
    let bytes = (v.slots j).budget.bytes_left - left.bytes_left in
    let entries = (v.slots j).budget.entries_left - left.entries_left in
    elim (Bool-cases (v.slots j).is_running) [
      | inl run ↦
          let same : with_tree v j left ≡ w =
            RetainedUsage-eq (with_tree v j left) w refl (ground arith) (ground arith) refl in
          ground arith
      | inr idle ↦
          let z = charge_fits c bytes entries trees_ceiling w m (ground arith) (ground arith) in
          let same : with_tree v j left ≡ record {
            slots = w.slots;
            bytes = w.bytes + bytes;
            entries = w.entries + entries;
            results = w.results;
          } =
            RetainedUsage-eq (with_tree v j left) _ refl (ground arith) (ground arith) refl in
          ground arith
    ]

-- A tree that is admitted is admitted with one more claim.
pub check_tree_more :
    (c : Config) (euid : ℕ) (p : Place) (job j : Text) (l : Listing) (u v w : RetainedUsage)
    → IsBounded c
    → OneMore c job u v
    → HasRoom c w
    → check_tree c euid p j (u.slots j) (directory l) u ≡ ok w
    → (x : RetainedUsage) × (check_tree c euid p j (v.slots j) (directory l) v ≡ ok x)
      × OneMore c job w x
check_tree_more c euid p job j l u v w m (slots, b, n, r) room h =
    let (left, scan, same) = check_tree_facts c euid p j l u w h in
    let (less, fewer, budget) = cost_too job j left u.slots v.slots slots in
    let facts : (w.bytes ≡ u.bytes + bytes_cost (u.slots j) left)
        × (w.entries ≡ u.entries + entries_cost (u.slots j) left)
        × (w.results ≡ u.results) =
      (
        ap (λ (x : RetainedUsage). x.bytes) same,
        ap (λ (x : RetainedUsage). x.entries) same,
        ap (λ (x : RetainedUsage). x.results) same,
      ) in
    let too : scan_retained_tree euid (v.slots j).budget 0 (is_jobs p) l ≡ ok left =
      rw budget scan in
    (
      with_tree v j left,
      check_tree_fits c euid p j l v left m too (omega arith) (omega arith),
      subst (λ x. OneMore c job x (with_tree v j left)) (sym same)
          (scanned_too job j left u.slots v.slots slots, omega arith, omega arith, omega arith),
    )
