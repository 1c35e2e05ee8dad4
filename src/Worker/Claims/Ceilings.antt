-- ===== src/Worker/Claims/Ceilings.antt =====
-- Whatever `claim` answers, the retained state passes the check that every later call makes first.
use tentaflake.Worker.Reservations.{
  Place, running, results, jobs, RetainedUsage, Refusal, State, no_usage, check_retained,
  is_valid_job, check_entries, check_place, is_private, is_claim,
}
use tentaflake.Worker.Reservations.Charging.{IsBounded}
use tentaflake.Worker.Reservations.OneMore.{HasRoom}
use tentaflake.Worker.Reservations.Running.{claimed_name, check_entries_running}
use tentaflake.Worker.Claims.{
  Answers, claim, reserve_result, has_room, with_receipt, with_claim, find_name, capacity_full,
  not_written,
}
use tentaflake.Worker.Claims.Receipts.{contains_last}
use tentaflake.Worker.Claims.Retention.{
  check_retained-Stages, with_receipt_retained, with_claim_retained,
}
use tentaflake.Worker.Trees.{Entry, Item}
use tentaflake.Worker.Config.{Config, job_storage_budget}
use tentaflake.Prelude.{
  refl, true, ok, err, [], some, none, contains, if◌then◌else◌, ℕ, Text, List, ◌≡◌, any, arith,
  list_eq, is_some, ◌⊎◌, ◌∷◌, ◌++◌, length, codes, ◌<◌, Result, Bool-cases, ◌&&◌, inl, inr, subst,
  sym, Result-cases, saturating_mul, Option-cases, ap, ◌∙◌,
}

check_place_entries :
    (c : Config) (euid : ℕ) (reserved : List Text) (p : Place) (u w : RetainedUsage)
    (l : List (Entry × Item))
    → check_place c euid reserved p u l ≡ ok w
    → check_entries c euid reserved p u l ≡ ok w
unfolding check_place
check_place_entries c euid reserved p u w l h = ground arith

find_name-any :
    (name : Text) (l : List (Entry × Item))
    → any (λ (x : Entry × Item). list_eq x.0.name name) l ≡ true
    → is_some (find_name name l) ≡ true
unfolding find_name
find_name-any name [] h = absurd (ground arith)
find_name-any name (x ∷ l) h = let ih = find_name-any name l in ground arith

running_claimed :
    (c : Config) (euid : ℕ) (s : State) (job : Text) (reserved : List Text) (w : RetainedUsage)
    → check_retained c euid s ≡ ok (reserved, w)
    → (w.slots job).is_running ≡ true
    → is_some (find_name (job ++ codes ".json") s.claimed) ≡ true
unfolding no_usage
running_claimed c euid s job reserved w h run =
    let (u, v, stages) = check_retained-Stages c euid s reserved w h in
    let (names, receipts, a, b, d) = stages in
    let at_results =
      check_entries_running c euid reserved jobs job v w s.staged refl
        (check_place_entries c euid reserved jobs v w s.staged d) run in
    let at_claims =
      check_entries_running c euid reserved results job u v s.finished refl
        (check_place_entries c euid reserved results u v s.finished b) at_results in
    find_name-any (job ++ codes ".json") s.claimed (
      claimed_name c euid reserved job (no_usage c) u s.claimed
        (check_place_entries c euid reserved running (no_usage c) u s.claimed a) at_claims refl)

job_storage_budget_positive :
    (c : Config)
    → (0 < (job_storage_budget c).bytes_left) × (0 < (job_storage_budget c).entries_left)
unfolding job_storage_budget
job_storage_budget_positive c = ground arith

has_room_facts :
    (c : Config) (reserved : List Text) (w : RetainedUsage) (job : Text)
    → has_room c reserved w job ≡ true
    → HasRoom c w × ((contains reserved job ≡ true) ⊎ (length reserved < 4096))
unfolding has_room
has_room_facts c reserved w job h = let z = job_storage_budget_positive c in ground arith

-- What `reserve_result` leaves: the usage, and a receipt where it succeeds.
abbrev Reserved :
    Config → ℕ → Text → State → RetainedUsage → Result Refusal (Unit {0}) × State → Type 0
Reserved c euid job s w (r, t) =
    (more : List Text) × (check_retained c euid t ≡ ok (more, w))
    × (t.claimed ≡ s.claimed)
    × (t.pending ≡ s.pending)
    × (r ≡ ok tt → ((w.slots job).is_running ≡ true) ⊎ (HasRoom c w × (contains more job ≡ true)))

reserve_result_retained :
    (a : Answers) (c : Config) (euid : ℕ) (job : Text) (s : State) (reserved : List Text)
    (w : RetainedUsage)
    → is_valid_job job ≡ true
    → check_retained c euid s ≡ ok (reserved, w)
    → Reserved c euid job s w (reserve_result a c euid job s)
unfolding reserve_result with_receipt
reserve_result_retained a c euid job s reserved w valid h =
    let unchanged =
      λ (r : Result Refusal (Unit {0})) (e : reserve_result a c euid job s ≡ (r, s))
          (why : r ≡ ok tt
            → ((w.slots job).is_running ≡ true) ⊎ (HasRoom c w × (contains reserved job ≡ true))).
        subst (Reserved c euid job s w) (sym e) (reserved, h, refl, refl, why) in
    elim (Bool-cases (contains reserved job && (w.slots job).is_running)) [
      | inl e ↦ unchanged (ok tt) (ground arith) (λ _. inl (ground arith))
      | inr e ↦ elim (Bool-cases (has_room c reserved w job)) [
        | inr full ↦ unchanged (err capacity_full) (ground arith) (λ z. absurd (ground arith))
        | inl room ↦
            let (fits, seen) = has_room_facts c reserved w job room in
            elim (Bool-cases (contains reserved job)) [
              | inl old ↦ unchanged (ok tt) (ground arith) (λ _. inr (fits, old))
              | inr new ↦
                  let few : length reserved < 4096 = ground arith in
                  elim (Bool-cases a.links) [
                    | inr off ↦
                        unchanged (err not_written) (ground arith) (λ z. absurd (ground arith))
                    | inl on ↦
                        let e : reserve_result a c euid job s ≡ (
                          if a.finishes then ok tt else err not_written,
                          with_receipt euid job s,
                        ) =
                          ground arith in
                        subst (Reserved c euid job s w) (sym e) (
                          reserved ++ (job ∷ []),
                          with_receipt_retained c euid s job reserved w valid few h,
                          refl,
                          refl,
                          λ _. inr (fits, contains_last reserved job),
                        )
                  ]
            ]
      ]
    ]

-- A request that may be claimed: a private file of the configured size.
abbrev pub IsClaimable : Config → ℕ → Text → List (Entry × Item) → Type 0
IsClaimable c euid name pending =
    (x : Entry × Item)
    → find_name name pending ≡ some x
    → (is_private euid running x.0 ≡ true) × (is_claim c x.1 ≡ true)

find_name_named :
    (name : Text) (l : List (Entry × Item)) (x : Entry × Item)
    → find_name name l ≡ some x
    → list_eq x.0.name name ≡ true
unfolding find_name
find_name_named name [] x h = absurd (ground arith)
find_name_named name (y ∷ l) x h =
    let ih = find_name_named name l x in
    elim (Bool-cases (list_eq y.0.name name)) [
      | inl e ↦
          let same : y ≡ x = ground arith in
          subst (λ (x : Entry × Item). list_eq x.0.name name ≡ true) same e
      | inr d ↦ let z = ih (ground arith) in z
    ]

-- What `claim` leaves: its state, or the one after the reservation.
claim_cases :
    (a : Answers) (c : Config) (euid : ℕ) (job : Text) (s : State)
    → ((claim a c euid job s).1 ≡ (reserve_result a c euid job s).1)
      ⊎ ((x : Entry × Item) × ((reserve_result a c euid job s).0 ≡ ok tt)
          × (find_name (job ++ codes ".json") (reserve_result a c euid job s).1.claimed ≡ none)
          × (find_name (job ++ codes ".json") (reserve_result a c euid job s).1.pending ≡ some x)
          × ((claim a c euid job s).1
              ≡ with_claim (job ++ codes ".json") x (reserve_result a c euid job s).1))
unfolding claim
claim_cases a c euid job s =
    let t = (reserve_result a c euid job s).1 in
    let name = job ++ codes ".json" in
    elim (Result-cases (reserve_result a c euid job s).0) [
      | inr (e, r) ↦ inl (ground arith)
      | inl (_, r) ↦ elim (Option-cases (find_name name t.claimed)) [
        | inr (x, e) ↦ inl (ground arith)
        | inl free ↦ elim (Option-cases (find_name name t.pending)) [
          | inl e ↦ inl (ground arith)
          | inr (x, e) ↦ elim (Bool-cases (a.syncs && a.renames)) [
            | inr off ↦ inl (ground arith)
            | inl on ↦ inr (x, r, free, e, ground arith)
          ]
        ]
      ]
    ]

-- A state that passes the check of its ceilings passes it after a claim, whatever the claim and
-- the operating system answered: where the claim has moved its request, the worst case of the job
-- is charged and still fits. The ceilings are numbers of 64 bits, the requests are private files
-- of the configured size, the job's name is valid, and the directory of the claims has room for
-- one more name.
pub claim-check_retained :
    (a : Answers) (c : Config) (euid : ℕ) (job : Text) (s : State)
    (before : List Text × RetainedUsage)
    → IsBounded c
    → is_valid_job job ≡ true
    → length s.claimed < saturating_mul c.max_retained_results 2
    → IsClaimable c euid (job ++ codes ".json") s.pending
    → check_retained c euid s ≡ ok before
    → (after : List Text × RetainedUsage) × (check_retained c euid (claim a c euid job s).1
        ≡ ok after)
claim-check_retained a c euid job s (reserved, w) m valid few claimable h =
    let name = job ++ codes ".json" in
    let t = (reserve_result a c euid job s).1 in
    let (more, passes, claims, requests, why) =
      reserve_result_retained a c euid job s reserved w valid h in
    elim (claim_cases a c euid job s) [
      | inl same ↦
          subst (λ t. (after : List Text × RetainedUsage) × (check_retained c euid t ≡ ok after))
            (sym same) ((more, w), passes)
      | inr (x, fine, free, found, same) ↦
          let (safe, claimable) = claimable x (sym (ap (find_name name) requests) ∙ found) in
          elim (why fine) [
            | inl run ↦
                let z = running_claimed c euid t job more w passes run in absurd (ground arith)
            | inr (room, receipt) ↦
                let (v, done) =
                  with_claim_retained c euid t job x.0 x.1 more w m room receipt
                    (subst (λ l. length l < saturating_mul c.max_retained_results 2) (sym claims)
                      few)
                    (find_name_named name t.pending x found) safe claimable passes in
                subst
                  (λ t. (after : List Text × RetainedUsage) × (check_retained c euid t ≡ ok after))
                  (sym same) ((more, v), done)
          ]
    ]
