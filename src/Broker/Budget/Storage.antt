-- ===== src/Broker/Budget/Storage.antt =====
-- What a write of the budget leaves in the state file, and that a stored budget is read back.
use tentaflake.Prelude.{
  ℕ, ◌≡◌, refl, ◌∙◌, ◌⊎◌, inl, inr, Bool, true, false, List, Option, none, some, arith, ltb, length,
  Bool-cases, Result-cases, Result, ok, err, list_eq_refl,
}
use tentaflake.Broker.Budget.State.{BudgetState, Error, Fits, opt_eq, opt_list_eq}
use tentaflake.Broker.Budget.Digest.{digest_message}
use tentaflake.Broker.Budget.Disk.{
  Codec, Os, Meta, open_private, is_consistent, prepare_temporary, replace_state, strict_digest,
  read_strict_budget, stamp, atomic_json,
}

-- The state file can be opened and read.
pub record Readable (os : Os) : Type 0 where
  pub meta : Meta
  pub opens : open_private os.state_file ≡ ok meta
  pub reads : os.state_reads ≡ true

pub record IsStored (b : BudgetState) : Type 0 where
  pub fits : Fits b
  pub consistent : is_consistent b ≡ true
  pub last_seen : ℕ
  pub last_seen_is : b.last_seen_seconds ≡ some last_seen
  pub unsettled : ℕ
  pub unsettled_is : b.unsettled ≡ some unsettled

module _ (c : Codec) where
  pub stamp-Fits : (strict : Bool) (b : BudgetState) → Fits b → Fits (stamp c strict b)
  unfolding stamp strict_digest
  stamp-Fits false b f = f
  stamp-Fits true b f = record {
    day_fits = f.day_fits;
    requests_fits = f.requests_fits;
    tokens_fits = f.tokens_fits;
    cost_fits = f.cost_fits;
    last_seen_fits = f.last_seen_fits;
    unsettled_fits = f.unsettled_fits;
    pending_fits = f.pending_fits;
    checksum_fits = c.length-sha256 (digest_message b);
  }

  -- The outcomes of a write by a strict broker.
  abbrev pub Wrote :
      BudgetState → Option (List ℕ) → Result Error BudgetState × Option (List ℕ) → Type 0
  Wrote b file r =
      (r ≡ (ok (stamp c true b), some (c.encode (stamp c true b))))
      ⊎ ((e : Error) × (f : Option (List ℕ)) × (r ≡ (err e, f))
          × ((f ≡ file) ⊎ (f ≡ some (c.encode (stamp c true b)))))

  replace_state-Wrote :
      (os : Os) (b : BudgetState) (file : Option (List ℕ))
      → Wrote b file (replace_state os true (stamp c true b) (c.encode (stamp c true b)) file)
  unfolding replace_state
  replace_state-Wrote os b none = inr (Error.cannot_exchange, none, refl, inl refl)
  replace_state-Wrote os b (some old) = elim (Bool-cases os.exchanges) [
    | inr e ↦ rw e (inr (Error.cannot_exchange, some old, refl, inl refl))
    | inl e ↦ rw e (elim (Bool-cases os.removes) [
      | inr e' ↦ rw e' (inr (Error.cannot_remove, _, refl, inr refl))
      | inl e' ↦ rw e' (elim (Bool-cases os.syncs_parent) [
        | inr e'' ↦ rw e'' (inr (Error.cannot_sync_directory, _, refl, inr refl))
        | inl e'' ↦ rw e'' (inl refl)
      ])
    ])
  ]

  pub atomic_json-Wrote :
      (os : Os) (b : BudgetState) (file : Option (List ℕ))
      → Wrote b file (atomic_json c os true b file)
  unfolding atomic_json
  atomic_json-Wrote os b file = elim (Result-cases (prepare_temporary os true)) [
    | inl (_, e) ↦ rw (e, atomic_json) (replace_state-Wrote os b file)
    | inr (x, e) ↦ rw (e, atomic_json) (inr (x, file, refl, inl refl))
  ]

  strict_digest-stamp : (b : BudgetState) → strict_digest c (stamp c true b) ≡ strict_digest c b
  unfolding stamp strict_digest digest_message
  strict_digest-stamp b = refl

  is_consistent-stamp : (b : BudgetState) → is_consistent (stamp c true b) ≡ is_consistent b
  unfolding stamp is_consistent
  is_consistent-stamp b = refl

  -- What a strict broker wrote is read back, whatever else happened in between.
  pub read_strict_budget-stamp :
      (os : Os) (b : BudgetState)
      → Readable os
      → IsStored b
      → read_strict_budget c os (some (c.encode (stamp c true b))) ≡ ok (stamp c true b)
  unfolding read_strict_budget
  read_strict_budget-stamp os b r i =
      rw (r.opens, r.reads, size, c.decode-encode _ fits, seen, held, digest, consistent)
    where
      fits : Fits (stamp c true b)
      fits = stamp-Fits true b i.fits

      size : ltb 4096 (length (c.encode (stamp c true b))) ≡ false
      size = ground (arith, c.length-encode _ fits)

      seen : opt_eq (stamp c true b).last_seen_seconds none ≡ false
      seen = unfold stamp in rw i.last_seen_is

      held : opt_eq (stamp c true b).unsettled none ≡ false
      held = unfold stamp in rw i.unsettled_is

      digest :
          opt_list_eq (stamp c true b).checksum (some (strict_digest c (stamp c true b))) ≡ true
      digest = rw (strict_digest-stamp b) (unfold stamp in list_eq_refl (strict_digest c b))

      consistent : is_consistent (stamp c true b) ≡ true
      consistent = is_consistent-stamp b ∙ i.consistent

  read_facts :
      (os : Os) (bytes : List ℕ) (b : BudgetState)
      → read_strict_budget c os (some bytes) ≡ ok b
      → (c.decode bytes ≡ some b)
        × (is_consistent b ≡ true)
        × (opt_eq b.last_seen_seconds none ≡ false)
        × (opt_eq b.unsettled none ≡ false)
  unfolding read_strict_budget
  read_facts os bytes b h = ground arith

  some_of_ne_none : (o : Option ℕ) → opt_eq o none ≡ false → (n : ℕ) × (o ≡ some n)
  some_of_ne_none none h = cc
  some_of_ne_none (some n) h = (n, refl)

  -- A budget that was read has its required fields and consistent counters.
  pub read_strict_budget-IsStored :
      (os : Os) (file : Option (List ℕ)) (b : BudgetState)
      → read_strict_budget c os file ≡ ok b
      → IsStored b
  unfolding read_strict_budget
  read_strict_budget-IsStored os none b h = cc
  read_strict_budget-IsStored os (some bytes) b h =
      let f = read_facts os bytes b h in
      let (last, last_is) = some_of_ne_none b.last_seen_seconds f.2 in
      let (held, held_is) = some_of_ne_none b.unsettled f.3 in
      record {
        fits = c.decode-Fits bytes b f.0;
        consistent = f.1;
        last_seen = last;
        last_seen_is = last_is;
        unsettled = held;
        unsettled_is = held_is;
      }
