-- ===== src/Worker/Claims/Retention.antt =====
-- A claim keeps the retained state within its ceilings.
use tentaflake.Worker.Reservations.{
  Place, running, results, jobs, RetainedUsage, State, no_usage, check_retained, check_receipts,
  is_valid_job, check_entry, check_entries, check_place, check_names, is_private, is_claim,
}
use tentaflake.Worker.Reservations.Charging.{IsBounded, Grows, check_entries-Grows}
use tentaflake.Worker.Reservations.OneMore.{HasRoom}
use tentaflake.Worker.Reservations.Entries.{Includes, check_place_more}
use tentaflake.Worker.Claims.{with_receipt, with_claim, new_receipt}
use tentaflake.Worker.Claims.Receipts.{
  check_receipts-append, check_receipts-length, contains-append, check_place-Includes,
  check_entries-append, check_entry_claim,
}
use tentaflake.Worker.Trees.{Entry, Item}
use tentaflake.Worker.Config.{Config}
use tentaflake.Prelude.{
  ◌∙◌, refl, true, ok, [], contains, ℕ, List, Text, ◌≡◌, length, arith, ◌≤◌, Result-cases, ◌<◌, inr,
  ◌++◌, saturating_mul, inl, ◌∷◌, list_eq, length-append, codes, ◌∙◌, ap,
}

check_place-Grows :
    (c : Config) (euid : ℕ) (reserved : List Text) (p : Place) (u v : RetainedUsage)
    (l : List (Entry × Item))
    → check_place c euid reserved p u l ≡ ok v
    → Grows u v
unfolding check_place
check_place-Grows c euid reserved p u v l h =
    let z = check_entries-Grows c euid reserved p u v l in ground arith

-- The stages of `check_retained`.
abbrev pub Stages :
    Config → ℕ → State → List Text → RetainedUsage → RetainedUsage → RetainedUsage → Type 0
Stages c euid s reserved u v w =
    (length s.reservations ≤ 4096)
    × (check_receipts euid s.reservations ≡ ok reserved)
    × (check_place c euid reserved running (no_usage c) s.claimed ≡ ok u)
    × (check_place c euid reserved results u s.finished ≡ ok v)
    × (check_place c euid reserved jobs v s.staged ≡ ok w)

pub check_retained-Stages :
    (c : Config) (euid : ℕ) (s : State) (reserved : List Text) (w : RetainedUsage)
    → check_retained c euid s ≡ ok (reserved, w)
    → (u : RetainedUsage) × (v : RetainedUsage) × Stages c euid s reserved u v w
unfolding check_retained check_names
check_retained-Stages c euid s reserved w h =
    elim (Result-cases (check_receipts euid s.reservations)) [
      | inr (e, r) ↦ absurd (ground arith)
      | inl (names, r) ↦
          elim (Result-cases (check_place c euid names running (no_usage c) s.claimed)) [
            | inr (e, a) ↦ absurd (ground arith)
            | inl (u, a) ↦ elim (Result-cases (check_place c euid names results u s.finished)) [
              | inr (e, b) ↦ absurd (ground arith)
              | inl (v, b) ↦ let same : names ≡ reserved = ground arith in (u, v, ground arith)
            ]
          ]
    ]

check_retained_made :
    (c : Config) (euid : ℕ) (s : State) (reserved : List Text) (u v w : RetainedUsage)
    → Stages c euid s reserved u v w
    → check_retained c euid s ≡ ok (reserved, w)
unfolding check_retained check_names
check_retained_made c euid s reserved u v w h = ground arith

-- One more receipt changes nothing.
pub with_receipt_retained :
    (c : Config) (euid : ℕ) (s : State) (job : Text) (reserved : List Text) (w : RetainedUsage)
    → is_valid_job job ≡ true
    → length reserved < 4096
    → check_retained c euid s ≡ ok (reserved, w)
    → check_retained c euid (with_receipt euid job s) ≡ ok (reserved ++ (job ∷ []), w)
unfolding with_receipt
with_receipt_retained c euid s job reserved w valid few h =
    let (u, v, stages) = check_retained-Stages c euid s reserved w h in
    let (names, receipts, a, b, d) = stages in
    let more = reserved ++ (job ∷ []) in
    let inc = contains-append reserved job in
    let count = check_receipts-length euid s.reservations reserved receipts in
    let size = length-append s.reservations (new_receipt euid job ∷ []) in
    check_retained_made c euid (with_receipt euid job s) more u v w (
      omega arith,
      check_receipts-append euid job s.reservations reserved valid receipts,
      check_place-Includes c euid reserved more running (no_usage c) u s.claimed inc a,
      check_place-Includes c euid reserved more results u v s.finished inc b,
      check_place-Includes c euid reserved more jobs v w s.staged inc d,
    )

check_claimed :
    (c : Config) (euid : ℕ) (reserved : List Text) (u v : RetainedUsage) (x : Entry × Item)
    (l : List (Entry × Item))
    → length l < saturating_mul c.max_retained_results 2
    → check_place c euid reserved running (no_usage c) l ≡ ok u
    → check_entry c euid reserved u running x ≡ ok v
    → check_place c euid reserved running (no_usage c) (l ++ (x ∷ [])) ≡ ok v
unfolding check_place check_names
check_claimed c euid reserved u v x l few h k =
    let size = length-append l (x ∷ []) in
    elim (Result-cases (check_entries c euid reserved running (no_usage c) l)) [
      | inr (e, r) ↦ absurd (ground arith)
      | inl (d, r) ↦
          let same : d ≡ u = ground arith in
          let z =
            check_entries-append c euid reserved running (no_usage c) u v l x (r ∙ ap ok same) k in
          ground arith
    ]

-- One more claim of a job with a receipt, where there is room for it.
pub with_claim_retained :
    (c : Config) (euid : ℕ) (s : State) (job : Text) (e : Entry) (i : Item) (reserved : List Text)
    (w : RetainedUsage)
    → IsBounded c
    → HasRoom c w
    → contains reserved job ≡ true
    → length s.claimed < saturating_mul c.max_retained_results 2
    → list_eq e.name (job ++ codes ".json") ≡ true
    → is_private euid running e ≡ true
    → is_claim c i ≡ true
    → check_retained c euid s ≡ ok (reserved, w)
    → (x : RetainedUsage) × (check_retained c euid (with_claim (job ++ codes ".json") (e, i) s)
        ≡ ok (reserved, x))
unfolding with_claim
with_claim_retained c euid s job e i reserved w m room receipt few named safe claimable h =
    let (u, v, stages) = check_retained-Stages c euid s reserved w h in
    let (names, receipts, a, b, d) = stages in
    let inc : Includes reserved reserved = λ j k. k in
    let later = check_place-Grows c euid reserved jobs v w s.staged d in
    let first = check_place-Grows c euid reserved results u v s.finished b in
    let here : HasRoom c v = (omega arith, omega arith, omega arith) in
    let start : HasRoom c u = (omega arith, omega arith, omega arith) in
    let (y, made, one) =
      check_entry_claim c euid reserved u job e i m start receipt named safe claimable in
    let (z, second, two) =
      check_place_more c euid reserved reserved results job u y v s.finished inc refl m one here
        b in
    let (x, third, three) =
      check_place_more c euid reserved reserved jobs job v z w s.staged inc refl m two room d in
    (
      x,
      check_retained_made c euid (with_claim (job ++ codes ".json") (e, i) s) reserved y z x (
        names,
        receipts,
        check_claimed c euid reserved u y (e, i) s.claimed few a made,
        second,
        third,
      ),
    )
