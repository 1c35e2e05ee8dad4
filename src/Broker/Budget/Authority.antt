-- ===== src/Broker/Budget/Authority.antt =====
-- What the checks of a strict broker establish before an operation touches the budget, and the
-- outcomes of a refused request.
use tentaflake.Prelude.{
  ℕ, ◌/◌, ◌≡◌, inl, inr, true, some, arith, ◌≤◌, ◌<◌, Option-cases, Result-cases, ok, subst, Result,
  false, Option, err, List, Bool-cases, ◌⊎◌,
}
use tentaflake.Broker.Budget.State.{BudgetState, budget_eq, budget_eq-eq, Error, opt_eq}
use tentaflake.Broker.Budget.Disk.{
  Codec, Os, check_strict_clock, read_strict_budget, stamp, checkpoint_clock,
}
use tentaflake.Broker.Budget.Storage.{
  IsStored, read_strict_budget-IsStored, Wrote, atomic_json-Wrote,
}
use tentaflake.Broker.Budget.Admission.{System, is_strict, check_authority, ready, refuse}

-- The checkpoint is a valid time that `now` does not precede.
pub record ClockOk (b : BudgetState) (now : ℕ) : Type 0 where
  pub last : ℕ
  pub last_is : b.last_seen_seconds ≡ some last
  pub last_pos : 0 < last
  pub day_le : b.day ≤ last / 86400
  pub not_after : last ≤ now

pub check_strict_clock-ClockOk :
    (b : BudgetState) (now : ℕ) → check_strict_clock b now ≡ ok tt → ClockOk b now
unfolding check_strict_clock
check_strict_clock-ClockOk b now h = elim (Option-cases b.last_seen_seconds) [
  | inl e ↦ ground arith
  | inr (last, e) ↦ record {
    last = last;
    last_is = e;
    last_pos = ground arith;
    day_le = ground arith;
    not_after = ground arith;
  }
]

-- A strict broker's checks passed: the file holds the budget in memory.
pub record Verified (c : Codec) (os : Os) (now : ℕ) (s : System) : Type 0 where
  pub stored : IsStored s.limits.budget
  pub clock_ok : ClockOk s.limits.budget now
  pub same : read_strict_budget c os s.file ≡ ok s.limits.budget

module _ (c : Codec) where
  authority_facts :
      (os : Os) (now : ℕ) (s : System)
      → is_strict s.limits ≡ true
      → check_authority c os now s ≡ ok tt
      → (b : BudgetState) × (read_strict_budget c os s.file ≡ ok b)
        × (budget_eq b s.limits.budget ≡ true)
        × (check_strict_clock s.limits.budget now ≡ ok tt)
  unfolding check_authority
  authority_facts os now s strict h = elim (Result-cases (read_strict_budget c os s.file)) [
    | inl (b, e) ↦ (b, e, ground arith, ground arith)
    | inr (x, e) ↦ absurd (ground arith)
  ]

  pub check_authority-Verified :
      (os : Os) (now : ℕ) (s : System)
      → is_strict s.limits ≡ true
      → check_authority c os now s ≡ ok tt
      → Verified c os now s
  check_authority-Verified os now s strict h =
      let (b, read, eq, clock) = authority_facts os now s strict h in
      let same : read_strict_budget c os s.file ≡ ok s.limits.budget =
        subst (λ x. read_strict_budget c os s.file ≡ ok x) (budget_eq-eq b s.limits.budget eq)
          read in
      record {
        stored = read_strict_budget-IsStored c os s.file s.limits.budget same;
        clock_ok = check_strict_clock-ClockOk s.limits.budget now clock;
        same = same;
      }

  pub ready-Verified :
      (os : Os) (now : ℕ) (s : System)
      → is_strict s.limits ≡ true
      → ready c os now s ≡ ok tt
      → Verified c os now s
  unfolding ready
  ready-Verified os now s strict h = check_authority-Verified os now s strict (ground arith)

  pub ready-open :
      (os : Os) (now : ℕ) (s : System)
      → ready c os now s ≡ ok tt
      → (s.limits.persistence_failed ≡ false) × (s.limits.overage_pending ≡ false)
  unfolding ready
  ready-open os now s h = ground arith

  -- The budget of memory with its checkpoint moved to `now`.
  abbrev pub touched : ℕ → BudgetState → BudgetState
  touched now b = stamp c true (record b { last_seen_seconds = some now })

  -- The outcomes of a refused request: nothing changed, the checkpoint moved, or its write failed.
  pub data Refused (now : ℕ) (s : System) (r : Result Error (Unit {0}) × System) : Type 0 where
    unchanged : (e : Error) → r ≡ (err e, s) → Refused now s r
    moved :
        (e : Error)
        → is_strict s.limits ≡ true
        → r ≡ (
          err e,
          record {
            limits = record s.limits { budget = touched now s.limits.budget };
            file = some (c.encode (touched now s.limits.budget));
          },
        )
        → Refused now s r
    lost :
        (e : Error)
        → is_strict s.limits ≡ true
        → r ≡ (err e, record s { file = some (c.encode (touched now s.limits.budget)) })
        → Refused now s r

  checkpoint_clock-cases :
      (os : Os) (b : BudgetState) (now : ℕ) (file : Option (List ℕ))
      → (checkpoint_clock c os b now file ≡ (ok b, file))
        ⊎ Wrote c
            (record b { last_seen_seconds = some now })
            file
            (checkpoint_clock c os b now file)
  unfolding checkpoint_clock
  checkpoint_clock-cases os b now file = elim (Bool-cases (opt_eq b.last_seen_seconds (some now))) [
    | inl e ↦ inl (rw e)
    | inr e ↦ inr (rw e (atomic_json-Wrote c os (record b { last_seen_seconds = some now }) file))
  ]

  pub refuse-Refused :
      (os : Os) (now : ℕ) (reason : Error) (s : System) → Refused now s (refuse c os now reason s)
  unfolding refuse
  refuse-Refused os now reason s = elim (Bool-cases (is_strict s.limits)) [
    | inr e ↦ unchanged reason (ground arith)
    | inl e ↦ elim (checkpoint_clock-cases os s.limits.budget now s.file) [
      | inl q ↦ unchanged reason (ground arith)
      | inr (inl q) ↦ moved reason e (ground arith)
      | inr (inr (x, f, q, inl same)) ↦ unchanged x (ground arith)
      | inr (inr (x, f, q, inr new)) ↦ lost x e (ground arith)
    ]
  ]
