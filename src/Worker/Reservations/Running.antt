-- ===== src/Worker/Reservations/Running.antt =====
-- A job that `check_retained` takes to be running has a claim of its name.
use tentaflake.Worker.Reservations.{
  Place, running, results, jobs, RetainedUsage, Slot, check_item, check_claim, check_tree, set_slot,
  check_entry, check_entries, job_of, count_job, reservations_ceiling,
}
use tentaflake.Worker.Reservations.Charging.{charge_facts}
use tentaflake.Worker.Reservations.Steps.{check_tree_facts}
use tentaflake.Worker.Reservations.Entries.{check_entry-Passes, is_tree}
use tentaflake.Worker.Trees.{Entry, Item, directory, file, link, special, unreadable}
use tentaflake.Worker.Config.{Config, job_storage_budget}
use tentaflake.Prelude.{
  Option-cases, ◌∙◌, ◌++◌, sym, refl, true, false, ok, [], some, Text, ℕ, strip_suffix, ◌≡◌,
  Bool-cases, ap, ◌⊎◌, list_eq, inl, arith, list_eq-eq, inr, ◌∷◌, Option-cases, subst, List, any,
  Result-cases, codes, list_eq_refl,
}

strip_suffix-some : (t s r : Text) → strip_suffix t s ≡ some r → s ≡ r ++ t
strip_suffix-some t [] r h = elim (Bool-cases (list_eq [] t)) [
  | inl e ↦ let same = list_eq-eq [] t e in ground arith
  | inr d ↦ absurd (ground arith)
]
strip_suffix-some t (b ∷ s) r h = elim (Bool-cases (list_eq (b ∷ s) t)) [
  | inl e ↦ let same = list_eq-eq (b ∷ s) t e in ground arith
  | inr d ↦ elim (Option-cases (strip_suffix t s)) [
    | inl e ↦ absurd (ground arith)
    | inr (q, e) ↦
        let ih = strip_suffix-some t s q e in
        let same : b ∷ q ≡ r = ground arith in subst (λ r. b ∷ s ≡ r ++ t) same (ap (λ s. b ∷ s) ih)
  ]
]

-- A scan of a tree starts no job.
check_tree_running :
    (c : Config) (euid : ℕ) (p : Place) (job j : Text) (i : Item) (u w : RetainedUsage)
    → check_tree c euid p j (u.slots j) i u ≡ ok w
    → (w.slots job).is_running ≡ (u.slots job).is_running
unfolding check_tree
check_tree_running c euid p job j (directory l) u w h =
    let (left, scan, same) = check_tree_facts c euid p j l u w h in
    let here = ap (λ (x : RetainedUsage). (x.slots job).is_running) same in
    elim (Bool-cases (list_eq j job)) [
      | inl e ↦
          let z = list_eq-eq j job e in let y = ap (λ k. (u.slots k).is_running) z in ground arith
      | inr d ↦ ground arith
    ]
check_tree_running c euid p job j (file n b) u w h = absurd (ground arith)
check_tree_running c euid p job j (link b) u w h = absurd (ground arith)
check_tree_running c euid p job j special u w h = absurd (ground arith)
check_tree_running c euid p job j unreadable u w h = absurd (ground arith)

check_item_running :
    (c : Config) (euid : ℕ) (p : Place) (job j : Text) (i : Item) (u w : RetainedUsage)
    → check_item c euid p j (u.slots j) i u ≡ ok w
    → (w.slots job).is_running ≡ true
    → ((u.slots job).is_running ≡ true) ⊎ ((is_tree p ≡ false) × (list_eq j job ≡ true))
unfolding check_item check_claim set_slot
check_item_running c euid running job j i u w h r =
    let s = u.slots j in
    let v = set_slot j (record { budget = s.budget; is_running = true; is_occupied = true }) u in
    let facts =
      charge_facts c (job_storage_budget c).bytes_left (job_storage_budget c).entries_left
        reservations_ceiling v w (ground arith) in
    let here = ap (λ (f : Text → Slot). (f job).is_running) facts.0 in
    elim (Bool-cases (list_eq j job)) [ inl e ↦ inr (refl, e) | inr d ↦ inl (ground arith) ]
check_item_running c euid results job j i u w h r =
    inl (sym (check_tree_running c euid results job j i u w h) ∙ r)
check_item_running c euid jobs job j i u w h r =
    inl (sym (check_tree_running c euid jobs job j i u w h) ∙ r)

pub claimed_name :
    (c : Config) (euid : ℕ) (reserved : List Text) (job : Text) (u w : RetainedUsage)
    (l : List (Entry × Item))
    → check_entries c euid reserved running u l ≡ ok w
    → (w.slots job).is_running ≡ true
    → (u.slots job).is_running ≡ false
    → any (λ (x : Entry × Item). list_eq x.0.name (job ++ codes ".json")) l ≡ true
unfolding check_entries count_job job_of
claimed_name c euid reserved job u w [] h run idle =
    let same : u ≡ w = ground arith in
    let z = ap (λ (x : RetainedUsage). (x.slots job).is_running) same in absurd (ground arith)
claimed_name c euid reserved job u w (q ∷ l) h run idle =
    elim (Result-cases (check_entry c euid reserved u running q)) [
      | inr (z, r) ↦ absurd (ground arith)
      | inl (d, r) ↦
          let ih = claimed_name c euid reserved job d w l (ground arith) run in
          elim (Bool-cases (d.slots job).is_running) [
            | inr off ↦ let z = ih off in ground arith
            | inl on ↦
                let (j, passes) = check_entry-Passes c euid reserved u d running q r in
                let (named, receipt, few, safe, item) = passes in
                elim (check_item_running c euid running job j q.1 (count_job (u.slots j) u) d item
                  on) [
                    | inl e ↦ absurd (ground arith)
                    | inr (_, e) ↦
                        let name = strip_suffix-some (codes ".json") q.0.name j named in
                        let same = list_eq-eq j job e in
                        let full : q.0.name ≡ job ++ codes ".json" =
                          name ∙ ap (λ j. j ++ codes ".json") same in
                        let z = list_eq_refl (job ++ codes ".json") in
                        let found : list_eq q.0.name (job ++ codes ".json") ≡ true = rw full z in
                        ground arith
                  ]
          ]
    ]

pub check_entries_running :
    (c : Config) (euid : ℕ) (reserved : List Text) (p : Place) (job : Text) (u w : RetainedUsage)
    (l : List (Entry × Item))
    → is_tree p ≡ true
    → check_entries c euid reserved p u l ≡ ok w
    → (w.slots job).is_running ≡ true
    → (u.slots job).is_running ≡ true
unfolding check_entries count_job
check_entries_running c euid reserved p job u w [] t h run =
    let same : u ≡ w = ground arith in
    let z = ap (λ (x : RetainedUsage). (x.slots job).is_running) same in ground arith
check_entries_running c euid reserved p job u w (q ∷ l) t h run =
    elim (Result-cases (check_entry c euid reserved u p q)) [
      | inr (z, r) ↦ absurd (ground arith)
      | inl (d, r) ↦
          let on = check_entries_running c euid reserved p job d w l t (ground arith) run in
          let (j, passes) = check_entry-Passes c euid reserved u d p q r in
          let (named, receipt, few, safe, item) = passes in
          elim (check_item_running c euid p job j q.1 (count_job (u.slots j) u) d item on) [
            | inl e ↦ e
            | inr (e, _) ↦ absurd (ground arith)
          ]
    ]
