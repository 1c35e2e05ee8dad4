-- ===== src/Broker/Budget/Outcomes.antt =====
-- The outcomes of `reserve_with_clock` and of the writes that end an operation.
use tentaflake.Prelude.{
  ℕ, ◌+◌, ◌/◌, ◌≡◌, Result, Bool, ok, Option, some, List, ◌⊎◌, none, err, ◌||◌, false, inr, arith,
  inl, true, refl, Bool-cases, Result-cases, Option-cases,
}
use tentaflake.Broker.Budget.State.{BudgetState, RateState, Error}
use tentaflake.Broker.Budget.Disk.{Codec, Os, stamp, atomic_json, replace_state, prepare_temporary}
use tentaflake.Broker.Budget.Storage.{atomic_json-Wrote}
use tentaflake.Broker.Budget.Admission.{
  System, Proposal, commit, persist_budget, admit, reserve_with_clock, is_strict, roll_window,
  ready, hold, propose, denial, roll_day, next_active, charge,
}
use tentaflake.Broker.Budget.Authority.{Refused, refuse-Refused, unchanged}

module _ (c : Codec) where
  -- The budget in memory and on file after a write that was done.
  abbrev pub written : System → BudgetState → BudgetState
  written s b = stamp c (is_strict s.limits) b

  -- A write is done, or fails and closes a strict broker.
  pub data Persisted (b : BudgetState) (s : System) (r : Result Error BudgetState × System)
      : Type 0 where
    done :
        r ≡ (ok (written s b), record s { file = some (c.encode (written s b)) }) → Persisted b s r
    failed :
        (e : Error) (f : Option (List ℕ))
        → (f ≡ s.file) ⊎ (f ≡ some (c.encode (written s b)))
        → r ≡ (
          err e,
          record {
            limits = record s.limits {
              persistence_failed = s.limits.persistence_failed || is_strict s.limits;
            };
            file = f;
          },
        )
        → Persisted b s r

  atomic_json-cases :
      (os : Os) (strict : Bool) (b : BudgetState) (file : Option (List ℕ))
      → (atomic_json c os strict b file
          ≡ (ok (stamp c strict b), some (c.encode (stamp c strict b))))
        ⊎ ((e : Error) × (f : Option (List ℕ)) × (atomic_json c os strict b file ≡ (err e, f))
            × ((f ≡ file) ⊎ (f ≡ some (c.encode (stamp c strict b)))))
  unfolding atomic_json stamp
  atomic_json-cases os true b file = atomic_json-Wrote c os b file
  atomic_json-cases os false b file = elim (Result-cases (prepare_temporary os false)) [
    | inr (x, e) ↦ rw (e, atomic_json) (inr (x, file, refl, inl refl))
    | inl (_, e) ↦ elim (Bool-cases os.renames) [
      | inl e' ↦ inl (unfold atomic_json replace_state in ground arith)
      | inr e' ↦
          inr
            (Error.cannot_replace, file, unfold atomic_json replace_state in ground arith, inl refl)
    ]
  ]

  pub persist_budget-Persisted :
      (os : Os) (b : BudgetState) (s : System) → Persisted b s (persist_budget c os b s)
  unfolding persist_budget
  persist_budget-Persisted os b s = elim (atomic_json-cases os (is_strict s.limits) b s.file) [
    | inl q ↦ done (ground arith)
    | inr (e, f, q, k) ↦ failed e f k (ground arith)
  ]

  -- What the checks of an admission found.
  pub record Admission (os : Os) (tokens cost : ℕ) (track : Bool) (now : ℕ) (s : System)
      (p : Proposal) (charged : BudgetState) (active : ℕ) : Type 0 where
    pub ready_ok : ready c os now s ≡ ok tt
    pub free : hold (is_strict s.limits) s.limits.active (now / 86400) s.limits.budget ≡ none
    pub proposed :
        propose tokens cost (roll_day (is_strict s.limits) (now / 86400) s.limits.budget) ≡ some p
    pub allowed :
        denial s.limits (roll_window (now / s.limits.window_seconds) s.limits.rate) (some p) ≡ none
    pub charge_ok :
        charge
          (is_strict s.limits)
          track
          now
          p
          (roll_day (is_strict s.limits) (now / 86400) s.limits.budget)
        ≡ ok charged
    pub active_ok : next_active track s.limits.active ≡ ok active

  -- The rate counter after an admission.
  abbrev pub next_rate : ℕ → System → RateState
  next_rate now s =
      let r = roll_window (now / s.limits.window_seconds) s.limits.rate in
      record r { requests = r.requests + 1 }

  pub data Reserved (os : Os) (tokens cost : ℕ) (track : Bool) (now : ℕ) (s : System)
      (r : Result Error (Unit {0}) × System) : Type 0 where
    refused : Refused c now s r → Reserved os tokens cost track now s r
    admitted :
        (p : Proposal) (charged : BudgetState) (active : ℕ)
        → Admission os tokens cost track now s p charged active
        → r ≡ (
          ok tt,
          record {
            limits = record s.limits {
              budget = written s charged;
              rate = next_rate now s;
              active = active;
            };
            file = some (c.encode (written s charged));
          },
        )
        → Reserved os tokens cost track now s r
    unwritten :
        (p : Proposal) (charged : BudgetState) (active : ℕ) (e : Error) (f : Option (List ℕ))
        → Admission os tokens cost track now s p charged active
        → (f ≡ s.file) ⊎ (f ≡ some (c.encode (written s charged)))
        → r ≡ (
          err e,
          record {
            limits = record s.limits {
              persistence_failed = s.limits.persistence_failed || is_strict s.limits;
            };
            file = f;
          },
        )
        → Reserved os tokens cost track now s r

  commit-Reserved :
      (os : Os) (tokens cost : ℕ) (track : Bool) (now : ℕ) (s : System) (p : Proposal)
      (charged : BudgetState) (active : ℕ)
      → Admission os tokens cost track now s p charged active
      → Reserved os tokens cost track now s (commit c os charged (next_rate now s) active s)
  unfolding commit
  commit-Reserved os tokens cost track now s p charged active a =
      elim (persist_budget-Persisted os charged s) [
        | done q ↦ admitted p charged active a (ground arith)
        | failed e f k q ↦ unwritten p charged active e f a k (ground arith)
      ]

  -- The request after `hold` found the way free.
  admit-Reserved :
      (os : Os) (tokens cost : ℕ) (track : Bool) (now : ℕ) (s : System)
      → ready c os now s ≡ ok tt
      → hold (is_strict s.limits) s.limits.active (now / 86400) s.limits.budget ≡ none
      → Reserved os tokens cost track now s (
          admit c os tokens cost track now
            (roll_day (is_strict s.limits) (now / 86400) s.limits.budget)
            (roll_window (now / s.limits.window_seconds) s.limits.rate)
            s)
  unfolding admit
  admit-Reserved os tokens cost track now s r free =
      let b = roll_day (is_strict s.limits) (now / 86400) s.limits.budget in
      let w = roll_window (now / s.limits.window_seconds) s.limits.rate in
      elim (Option-cases (denial s.limits w (propose tokens cost b))) [
        | inr (reason, d) ↦ rw (d, admit) (refused (refuse-Refused c os now reason s))
        | inl d ↦ elim (Option-cases (propose tokens cost b)) [
          | inl q ↦ rw (d, admit) (rw (q, admit) (refused (unchanged _ refl)))
          | inr (p, q) ↦ elim (Result-cases (charge (is_strict s.limits) track now p b)) [
            | inr (e, k) ↦
                rw (d, admit) (rw (q, admit) (rw (k, admit) (refused (unchanged e refl))))
            | inl (charged, k) ↦ elim (Result-cases (next_active track s.limits.active)) [
              | inr (e, a) ↦
                  rw (d, admit)
                    (rw (q, admit) (rw (k, admit) (rw (a, admit) (refused (unchanged e refl)))))
              | inl (active, a) ↦
                  rw (d, admit)
                    (rw (q, admit)
                      (rw (k, admit)
                        (rw (a, admit)
                          (commit-Reserved os tokens cost track now s p charged active (record {
                            ready_ok = r;
                            free = free;
                            proposed = q;
                            allowed = rw q at d;
                            charge_ok = k;
                            active_ok = a;
                          })))))
            ]
          ]
        ]
      ]

  -- Every outcome of a request.
  pub reserve_with_clock-Reserved :
      (os : Os) (tokens cost : ℕ) (track : Bool) (now : ℕ) (s : System)
      → Reserved os tokens cost track now s (reserve_with_clock c os tokens cost track now s)
  unfolding reserve_with_clock
  reserve_with_clock-Reserved os tokens cost track now s = elim (Result-cases (ready c os now s)) [
    | inr (e, r) ↦ rw (r, reserve_with_clock) (refused (unchanged e refl))
    | inl (_, r) ↦
        elim (Option-cases
          (hold (is_strict s.limits) s.limits.active (now / 86400) s.limits.budget)) [
            | inr (reason, h) ↦
                rw (r, reserve_with_clock)
                  (rw (h, reserve_with_clock) (refused (refuse-Refused c os now reason s)))
            | inl h ↦
                rw (r, reserve_with_clock)
                  (rw (h, reserve_with_clock) (admit-Reserved os tokens cost track now s r h))
          ]
  ]
