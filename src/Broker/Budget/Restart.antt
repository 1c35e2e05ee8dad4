-- ===== src/Broker/Budget/Restart.antt =====
-- Provisioning, loading and recovery: what they need, write and read back.
use tentaflake.Broker.Budget.Lifecycle.{
  Provision, initial_budget, read_held, reconciled, write_state, reconcile_strict_at, loaded,
  load_at, write_marker, check_provision, initialize_strict_at, Settings, Files, acquire_state,
}
use tentaflake.Prelude.{
  inl, ◌<◌, ◌≡◌, refl, unwrap_or, ℕ, List, ok, u64_mod, Option, some, Bool, true, inr, arith, none,
  Result-cases, ◌∙◌, subst, Bool-cases, sym, Option-cases, ap,
}
use tentaflake.Broker.Budget.Storage.{
  Readable, read_strict_budget-stamp, IsStored, read_strict_budget-IsStored, atomic_json-Wrote,
}
use tentaflake.Broker.Budget.Disk.{
  is_consistent, strict_marker, checkpoint_clock, stamp, read_strict_budget, Codec, Os, atomic_json,
  open_private,
}
use tentaflake.Broker.Budget.State.{Limits, BudgetState, opt_eq-eq, opt_eq, StrictState}

initial-IsStored : (now : ℕ) → now < u64_mod → IsStored (initial_budget now)
unfolding initial_budget is_consistent
initial-IsStored now w = record {
  fits = record {
    day_fits = omega arith;
    requests_fits = omega arith;
    tokens_fits = omega arith;
    cost_fits = omega arith;
    last_seen_fits = w;
    unsettled_fits = omega arith;
    pending_fits = tt;
    checksum_fits = tt;
  };
  consistent = refl;
  last_seen = now;
  last_seen_is = refl;
  unsettled = 0;
  unsettled_is = refl;
}

reconciled-IsStored :
    (c : Codec) (now : ℕ) (b : BudgetState)
    → now < u64_mod
    → IsStored b
    → IsStored (reconciled c now b)
unfolding is_consistent
reconciled-IsStored c now b w i =
    let f = i.fits in
    let k = i.consistent in
    record {
      fits = record {
        day_fits = f.day_fits;
        requests_fits = f.requests_fits;
        tokens_fits = f.tokens_fits;
        cost_fits = f.cost_fits;
        last_seen_fits = w;
        unsettled_fits = omega arith;
        pending_fits = tt;
        checksum_fits = f.checksum_fits;
      };
      consistent = ground arith;
      last_seen = now;
      last_seen_is = refl;
      unsettled = 0;
      unsettled_is = refl;
    }

seen-IsStored :
    (now : ℕ) (b : BudgetState)
    → now < u64_mod
    → IsStored b
    → IsStored (record b { last_seen_seconds = some now })
unfolding is_consistent
seen-IsStored now b w i =
    let f = i.fits in
    let k = i.consistent in
    record {
      fits = record {
        day_fits = f.day_fits;
        requests_fits = f.requests_fits;
        tokens_fits = f.tokens_fits;
        cost_fits = f.cost_fits;
        last_seen_fits = w;
        unsettled_fits = f.unsettled_fits;
        pending_fits = f.pending_fits;
        checksum_fits = f.checksum_fits;
      };
      consistent = k;
      last_seen = now;
      last_seen_is = refl;
      unsettled = i.unsettled;
      unsettled_is = i.unsettled_is;
    }

-- Two budgets of one day, with the same counters, held requests and unresolved usage.
abbrev pub SameCharge : BudgetState → BudgetState → Type 0
SameCharge b d =
    (b.day ≡ d.day)
    × (b.requests ≡ d.requests)
    × (b.tokens ≡ d.tokens)
    × (b.cost_microusd ≡ d.cost_microusd)
    × (b.unsettled ≡ d.unsettled)
    × (b.pending_usage ≡ d.pending_usage)

module _ (c : Codec) where
  check_provision_facts :
      (w : Provision) (now : ℕ) (state : Option (List ℕ))
      → check_provision w now state ≡ ok tt
      → state ≡ none
  unfolding check_provision
  check_provision_facts w now none h = refl
  check_provision_facts w now (some x) h = elim (Result-cases (open_private w.lock_file)) [
    | inr (e, q) ↦ absurd (ground arith)
    | inl (m, q) ↦ absurd (ground arith)
  ]

  initialize_facts :
      (w : Provision) (now : ℕ) (f g : Files)
      → initialize_strict_at c w now f ≡ (ok tt, g)
      → (f.state ≡ none)
        × (f.marker ≡ none)
        × (g.marker ≡ some strict_marker)
        × (g.state ≡ some (c.encode (stamp c true (initial_budget now))))
  unfolding initialize_strict_at write_marker write_state
  initialize_facts w now f g h = elim (Result-cases (check_provision w now f.state)) [
    | inr (e, q) ↦ absurd (ground arith)
    | inl (_, q) ↦ elim (Option-cases f.marker) [
      | inr (m, e) ↦ absurd (ground arith)
      | inl e ↦ (check_provision_facts w now f.state q, e, ground arith, ground arith)
    ]
  ]

  read_held_facts :
      (os : Os) (locks : Bool) (now : ℕ) (file : Option (List ℕ)) (held : StrictState)
      (b : BudgetState)
      → read_held c os locks now file ≡ ok (held, b)
      → read_strict_budget c os file ≡ ok b
  unfolding read_held
  read_held_facts os locks now file held b h = elim (Result-cases (acquire_state os locks)) [
    | inr (e, q) ↦ absurd (ground arith)
    | inl (m, q) ↦ elim (Result-cases (read_strict_budget c os file)) [
      | inr (e, k) ↦ absurd (ground arith)
      | inl (d, k) ↦ ground arith
    ]
  ]

  -- A write that succeeds is read back.
  atomic_json-read :
      (os later : Os) (b v : BudgetState) (file after : Option (List ℕ))
      → IsStored b
      → Readable later
      → atomic_json c os true b file ≡ (ok v, after)
      → (v ≡ stamp c true b) × (read_strict_budget c later after ≡ ok v)
  atomic_json-read os later b v file after i r h = elim (atomic_json-Wrote c os b file) [
    | inr (e, f, q, _) ↦ absurd (ground arith)
    | inl q ↦
        let k = read_strict_budget-stamp c later b r i in
        let same : v ≡ stamp c true b = ground arith in
        let there : after ≡ some (c.encode (stamp c true b)) = ground arith in
        (same, ap (read_strict_budget c later) there ∙ k ∙ ap ok (sym same))
  ]

  -- Provisioning that succeeds, at a clock of 64 bits, found no state file and no marker, and leaves
  -- the marker and a new budget, which is read back wherever the file can be read.
  pub initialize_strict_at-stored :
      (w : Provision) (os : Os) (now : ℕ) (f g : Files)
      → now < u64_mod
      → initialize_strict_at c w now f ≡ (ok tt, g)
      → Readable os
      → (f.state ≡ none)
        × (f.marker ≡ none)
        × (g.marker ≡ some strict_marker)
        × (read_strict_budget c os g.state ≡ ok (stamp c true (initial_budget now)))
  initialize_strict_at-stored w os now f g s h r =
      let k = initialize_facts w now f g h in
      (
        k.0,
        k.1,
        k.2,
        ap (read_strict_budget c os) k.3
            ∙ read_strict_budget-stamp c os (initial_budget now) r (initial-IsStored now s),
      )

  -- Recovery that succeeds, at a clock of 64 bits, answers how many requests were held and how much
  -- usage was unresolved; wherever the file can be read, the budget read back has none of either, a
  -- checkpoint of the clock at that time, and the day and the counters of requests, tokens and cost
  -- that it had before.
  pub reconcile_strict_at-kept :
      (os later : Os) (locks : Bool) (now u p : ℕ) (file after : Option (List ℕ))
      → now < u64_mod
      → reconcile_strict_at c os locks now file ≡ (ok (u, p), after)
      → Readable later
      → (b : BudgetState) × (read_strict_budget c os file ≡ ok b)
        × (b.unsettled ≡ some u)
        × (unwrap_or b.pending_usage 0 ≡ p)
        × ((d : BudgetState) × (read_strict_budget c later after ≡ ok d)
            × (d.day ≡ b.day)
            × (d.requests ≡ b.requests)
            × (d.tokens ≡ b.tokens)
            × (d.cost_microusd ≡ b.cost_microusd)
            × (d.unsettled ≡ some 0)
            × (d.pending_usage ≡ none)
            × (d.last_seen_seconds ≡ some now))
  unfolding reconcile_strict_at stamp
  reconcile_strict_at-kept os later locks now u p file after s h r =
      elim (Result-cases (read_held c os locks now file)) [
        | inr (e, q) ↦ absurd (ground arith)
        | inl ((held, b), q) ↦
            let d = read_held_facts os locks now file held b q in
            let i = read_strict_budget-IsStored c os file b d in
            elim (Result-cases (atomic_json c os true (reconciled c now b) file).0) [
              | inr (e, k) ↦ absurd (ground arith)
              | inl (v, k) ↦
                  let z =
                    atomic_json-read os later (reconciled c now b) v file after
                      (reconciled-IsStored c now b s i) r (ground arith) in
                  let n : b.unsettled ≡ some u = (let e = i.unsettled_is in ground arith) in
                  (
                    b,
                    d,
                    n,
                    ground arith,
                    (
                      stamp c true (reconciled c now b),
                      z.1 ∙ ap ok z.0,
                      refl,
                      refl,
                      refl,
                      refl,
                      refl,
                      refl,
                      refl,
                    ),
                  )
            ]
      ]

  read_strict_budget-again :
      (os later : Os) (file : Option (List ℕ)) (b : BudgetState)
      → Readable later
      → read_strict_budget c os file ≡ ok b
      → read_strict_budget c later file ≡ ok b
  unfolding read_strict_budget
  read_strict_budget-again os later none b r h = cc
  read_strict_budget-again os later (some bytes) b r h =
      elim (Result-cases (open_private os.state_file)) [
        | inr (e, q) ↦ absurd (ground arith)
        | inl (m, q) ↦ (let x = r.opens in let y = r.reads in ground arith)
      ]

  SameCharge-eq : (b d : BudgetState) → b ≡ d → SameCharge b d
  SameCharge-eq b d e = rw e (refl, refl, refl, refl, refl, refl)

  -- What a checkpoint of the clock leaves in memory and on disk.
  checkpoint_facts :
      (os later : Os) (now : ℕ) (b v : BudgetState) (file after : Option (List ℕ))
      → now < u64_mod
      → read_strict_budget c os file ≡ ok b
      → Readable later
      → checkpoint_clock c os b now file ≡ (ok v, after)
      → (v.last_seen_seconds ≡ some now)
        × SameCharge v b
        × (read_strict_budget c later after ≡ ok v)
  unfolding checkpoint_clock stamp
  checkpoint_facts os later now b v file after s d r h =
      elim (Bool-cases (opt_eq b.last_seen_seconds (some now))) [
        | inl e ↦
            let k = opt_eq-eq b.last_seen_seconds (some now) e in
            let z = read_strict_budget-again os later file b r d in
            let same : v ≡ b = ground arith in
            let seen : v.last_seen_seconds ≡ some now = ground arith in
            (seen, SameCharge-eq v b same, ground arith)
        | inr e ↦
            let i = read_strict_budget-IsStored c os file b d in
            let z =
              atomic_json-read os later (record b { last_seen_seconds = some now }) v file after
                (seen-IsStored now b s i) r (ground arith) in
            rw (z.0, stamp) (refl, (refl, refl, refl, refl, refl, refl), z.1 ∙ ap ok z.0)
      ]

  -- A strict broker that was loaded, at a clock of 64 bits, has a checkpoint of the clock at that time
  -- and the day, the counters, the held requests and the unresolved usage that the state file had
  -- before, and wherever the file can be read, what is read back is the budget that it holds.
  pub load_at-durable :
      (os later : Os) (locks : Bool) (p : Settings) (now : ℕ) (l : Limits)
      (file after : Option (List ℕ))
      → now < u64_mod
      → load_at c os locks p (some now) file ≡ (ok l, after)
      → Readable later
      → (b : BudgetState) × (read_strict_budget c os file ≡ ok b)
        × (l.budget.last_seen_seconds ≡ some now)
        × SameCharge l.budget b
        × (read_strict_budget c later after ≡ ok l.budget)
  unfolding load_at loaded
  load_at-durable os later locks p now l file after s h r =
      elim (Result-cases (read_held c os locks now file)) [
        | inr (e, q) ↦ absurd (ground arith)
        | inl ((held, b), q) ↦
            let d = read_held_facts os locks now file held b q in
            elim (Result-cases (checkpoint_clock c os b now file).0) [
              | inr (e, k) ↦ absurd (ground arith)
              | inl (v, k) ↦
                  let z = checkpoint_facts os later now b v file after s d r (ground arith) in
                  let same : l.budget ≡ v = ground arith in
                  (
                    b,
                    d,
                    ap seen same ∙ z.0,
                    subst (λ x. SameCharge x b) (sym same) z.1,
                    z.2 ∙ ap ok (sym same),
                  )
            ]
      ]
    where
      seen : BudgetState → Option ℕ
      seen v = v.last_seen_seconds
