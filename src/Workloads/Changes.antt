-- ===== src/Workloads/Changes.antt =====
-- What `Authority` answers and records where an observation changed.
use tentaflake.Prelude.{
  ◌≡◌, [], some, subst, inl, Text, ◌≤◌, ◌+◌, ok, Bool-cases, list_eq, ◌⊎◌, Option, ◌∷◌, inr, arith,
  err, List, sym, leb, list_eq-eq, Option-cases, refl, false, ◌<◌,
}
use tentaflake.Workloads.Types.{Identity, Binding, max_generation}
use tentaflake.Workloads.Authority.{
  lookup, Authority, assign, assign_fingerprint, Fingerprints, insert, Entry, renumber, invalid,
}
use tentaflake.Workloads.Generations.{lookup-insert_self}

-- What is left where `e` was recorded for an agent: its entry, with the counter that numbered it,
-- and the entries of the other agents as they were.
abbrev pub IsEntered : Authority → Text → Entry → Authority → Type 0
IsEntered a k e a' =
    (a'.counter ≡ e.generation)
    × (lookup k a'.entries ≡ some e)
    × ((j : Text) → list_eq k j ≡ false → lookup j a'.entries ≡ lookup j a.entries)

module _ (f : Fingerprints) where
  lookup-insert_other :
      (k j : Text) (e : Entry) (m : List (Text × Entry))
      → list_eq k j ≡ false
      → lookup j (insert k e m) ≡ lookup j m
  unfolding lookup insert
  lookup-insert_other k j e [] h = rw h refl
  lookup-insert_other k j e ((i, d) ∷ m) h = elim (Bool-cases (list_eq i k)) [
    | inl s ↦
        let same : list_eq i j ≡ false =
          subst (λ x. list_eq x j ≡ false) (sym (list_eq-eq i k s)) h in
        rw s (rw (h, same) refl)
    | inr s ↦ elim (Bool-cases (list_eq i j)) [
      | inl t ↦ rw s (rw t refl)
      | inr t ↦ rw s (rw t (lookup-insert_other k j e m h))
    ]
  ]

  -- `assign` numbers anew what was not recorded like this.
  assign-renumber :
      (b : Binding) (i : Option Identity) (a : Authority) (t : Text)
      → f.to_string b i ≡ some t
      → ((e : Entry) → lookup b.agent_id a.entries ≡ some e → list_eq e.fingerprint t ≡ false)
      → assign f b i a ≡ renumber b t a
  unfolding assign assign_fingerprint
  assign-renumber b i a t q d = elim (Option-cases (lookup b.agent_id a.entries)) [
    | inl k ↦ rw (q, assign) (rw (k, assign_fingerprint) refl)
    | inr (e, k) ↦ rw (q, assign) (rw (k, assign_fingerprint) (rw (d e k) refl))
  ]

  renumber_facts :
      (b : Binding) (a : Authority) (t : Text)
      → ((max_generation ≤ a.counter) × (renumber b t a ≡ (err invalid, a)))
        ⊎ ((a.counter < max_generation)
            × ((renumber b t a).0 ≡ ok (a.counter + 1))
            × IsEntered a b.agent_id
                (record { fingerprint = t; generation = a.counter + 1 })
                (renumber b t a).1)
  unfolding renumber
  renumber_facts b a t =
      let e : Entry = record { fingerprint = t; generation = a.counter + 1 } in
      elim (Bool-cases (leb max_generation a.counter)) [
        | inl m ↦ inl (ground arith, ground arith)
        | inr m ↦ inr (
          ground arith,
          rw m refl,
          rw m (
            refl,
            lookup-insert_self f b.agent_id e a.entries,
            λ j h. lookup-insert_other b.agent_id j e a.entries h,
          ),
        )
      ]

  -- An observation whose fingerprint is not the recorded one, or whose agent has no entry, is
  -- answered the next generation after the counter and recorded with it, until the range ends; then
  -- it is refused, and nothing changes. The entries of the other agents stay.
  pub assign_changed :
      (b : Binding) (i : Option Identity) (a : Authority) (t : Text)
      → f.to_string b i ≡ some t
      → ((e : Entry) → lookup b.agent_id a.entries ≡ some e → list_eq e.fingerprint t ≡ false)
      → ((max_generation ≤ a.counter) × (assign f b i a ≡ (err invalid, a)))
        ⊎ ((a.counter < max_generation)
            × ((assign f b i a).0 ≡ ok (a.counter + 1))
            × IsEntered a b.agent_id
                (record { fingerprint = t; generation = a.counter + 1 })
                (assign f b i a).1)
  assign_changed b i a t q d = rw (assign-renumber b i a t q d) (renumber_facts b a t)
