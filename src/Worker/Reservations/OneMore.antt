-- ===== src/Worker/Reservations/OneMore.antt =====
-- The usage of the retained state with one more claim, step by step along the usage without it.
use tentaflake.Worker.Reservations.{RetainedUsage, Slot}
use tentaflake.Worker.Trees.{CopyBudget}
use tentaflake.Worker.Config.{Config, job_storage_budget}
use tentaflake.Prelude.{
  true, false, if◌then◌else◌, Text, ℕ, ◌+◌, list_eq, list_eq_refl, Bool-cases, ◌-◌, ◌≤◌, ◌≡◌, arith,
  inl, list_eq-eq, subst, inr,
}

-- The slots with the job running, and else the same.
abbrev pub IsRunningToo : Text → (Text → Slot) → (Text → Slot) → Type 0
IsRunningToo job f g =
    ((k : Text) → list_eq job k ≡ false → g k ≡ f k)
    × ((g job).budget ≡ (f job).budget)
    × ((g job).is_running ≡ true)
    × ((g job).is_occupied ≡ true)

-- A slot after its job's tree was scanned.
abbrev pub scanned : (Text → Slot) → Text → CopyBudget → Slot
scanned f j left = record { budget = left; is_running = (f j).is_running; is_occupied = true }

abbrev pub with_slot : (Text → Slot) → Text → Slot → Text → Slot
with_slot f j s k = if list_eq j k then s else f k

list_eq_other : (s t : Text) → list_eq s t ≡ false → list_eq t s ≡ false
list_eq_other s t h = elim (Bool-cases (list_eq t s)) [
  | inl e ↦ let same = list_eq-eq t s e in let z = list_eq_refl s in absurd (ground arith)
  | inr d ↦ d
]

scanned_other :
    (job j : Text) (left : CopyBudget) (f g : Text → Slot)
    → list_eq job j ≡ false
    → IsRunningToo job f g
    → IsRunningToo job (with_slot f j (scanned f j left)) (with_slot g j (scanned g j left))
scanned_other job j left f g d (others, budget, run, seen) =
    let same = others j d in
    let sym_d : list_eq j job ≡ false = list_eq_other job j d in
    ((λ k h. let z = others k h in ground arith), ground arith, ground arith, ground arith)

scanned_self :
    (job : Text) (left : CopyBudget) (f g : Text → Slot)
    → IsRunningToo job f g
    → IsRunningToo job (with_slot f job (scanned f job left)) (with_slot g job (scanned g job left))
scanned_self job left f g (others, budget, run, seen) =
    let z = list_eq_refl job in
    ((λ k h. let z = others k h in ground arith), ground arith, ground arith, ground arith)

pub scanned_too :
    (job j : Text) (left : CopyBudget) (f g : Text → Slot)
    → IsRunningToo job f g
    → IsRunningToo job (with_slot f j (scanned f j left)) (with_slot g j (scanned g j left))
scanned_too job j left f g r = elim (Bool-cases (list_eq job j)) [
  | inl e ↦
      subst
        (λ j.
          IsRunningToo job (with_slot f j (scanned f j left)) (with_slot g j (scanned g j left)))
        (list_eq-eq job j e) (scanned_self job left f g r)
  | inr d ↦ scanned_other job j left f g d r
]

-- What a tree costs the totals.
abbrev pub bytes_cost : Slot → CopyBudget → ℕ
bytes_cost s left = if s.is_running then 0 else s.budget.bytes_left - left.bytes_left

abbrev pub entries_cost : Slot → CopyBudget → ℕ
entries_cost s left = if s.is_running then 0 else s.budget.entries_left - left.entries_left

pub cost_too :
    (job j : Text) (left : CopyBudget) (f g : Text → Slot)
    → IsRunningToo job f g
    → (bytes_cost (g j) left ≤ bytes_cost (f j) left)
      × (entries_cost (g j) left ≤ entries_cost (f j) left)
      × ((g j).budget ≡ (f j).budget)
cost_too job j left f g (others, budget, run, seen) = elim (Bool-cases (list_eq job j)) [
  | inl e ↦
      subst
        (λ j.
          (bytes_cost (g j) left ≤ bytes_cost (f j) left)
          × (entries_cost (g j) left ≤ entries_cost (f j) left)
          × ((g j).budget ≡ (f j).budget))
        (list_eq-eq job j e) (ground arith)
  | inr d ↦ let same = others j d in ground arith
]

-- The usage with one more running job, which costs its whole budget.
abbrev pub OneMore : Config → Text → RetainedUsage → RetainedUsage → Type 0
OneMore c job u v =
    IsRunningToo job u.slots v.slots
    × (v.bytes ≤ u.bytes + (job_storage_budget c).bytes_left)
    × (v.entries ≤ u.entries + (job_storage_budget c).entries_left)
    × (v.results ≤ u.results + 1)

-- The usage leaves room for one more running job.
abbrev pub HasRoom : Config → RetainedUsage → Type 0
HasRoom c u =
    (u.bytes + (job_storage_budget c).bytes_left ≤ c.max_retained_result_bytes)
    × (u.entries + (job_storage_budget c).entries_left ≤ c.max_retained_entries)
    × (u.results + 1 ≤ c.max_retained_results)
