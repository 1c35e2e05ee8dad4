-- ===== src/Workloads/Generations.antt =====
-- The generations that are answered over a history of observations.
use native.Mathlib.Nat.{le_refl}
use tentaflake.Prelude.{
  ◌≡◌, [], some, subst, inl, Text, Result, ◌≤◌, ◌+◌, ok, All, Bool-cases, list_eq, ◌⊎◌, Option, ◌∷◌,
  ℕ, ◌∙◌, ap, inr, arith, err, List, sym, leb, list_eq-eq, Option-cases, refl, list_eq_refl,
}
use tentaflake.Workloads.Types.{Identity, Binding, max_generation}
use tentaflake.Workloads.Authority.{
  lookup, Authority, assign, assign_fingerprint, Fingerprints, insert, Error, Entry, renumber,
  empty,
}

-- A generation that was answered, and for what.
pub record Issue : Type 0 where
  pub generation : ℕ
  pub binding : Binding
  pub identity : Option Identity

-- Where the generation of `x` is that of `y`, so is all that was observed.
abbrev pub Agrees : Issue → Issue → Type 0
Agrees x y = y.generation ≡ x.generation → (y.binding ≡ x.binding) × (y.identity ≡ x.identity)

abbrev pub Functional : List Issue → Type 0
Functional [] = Unit {0}
Functional (x ∷ l) = All (Agrees x) l × Functional l

some_pair :
    (b c : Binding) (i j : Option Identity)
    → ◌≡◌ {A = Option (Binding × Option Identity)} (some (b, i)) (some (c, j))
    → (b ≡ c) × (i ≡ j)
some_pair b c i j h = ground arith

module _ (f : Fingerprints) where
  -- The calls of `assign` in their order, and what they answered, newest first.
  abbrev pub issued : Binding → Option Identity → Result Error ℕ → List Issue → List Issue
  issued b i (ok g) log = record { generation = g; binding = b; identity = i } ∷ log
  issued b i (err e) log = log

  unfoldable pub assigns :
      List (Binding × Option Identity) → Authority → List Issue → Authority × List Issue
  assigns [] a log = (a, log)
  assigns ((b, i) ∷ cs) a log = let (r, a') = assign f b i a in assigns cs a' (issued b i r log)

  to_string-injective :
      (b c : Binding) (i j : Option Identity)
      → (t : Text) → f.to_string b i ≡ some t
      → f.to_string c j ≡ some t
      → (b ≡ c) × (i ≡ j)
  to_string-injective b c i j t h k =
      some_pair b c i j (sym (f.from_string-to_string b i t h) ∙ f.from_string-to_string c j t k)

  -- An entry stems from an issue of the log.
  abbrev Recorded : Entry → List Issue → Type 0
  Recorded e [] = ⊥
  Recorded e (x ∷ l) =
      ((x.generation ≡ e.generation) × (f.to_string x.binding x.identity ≡ some e.fingerprint))
      ⊎ Recorded e l

  Recorded-find :
      (P : Issue → Type 0) (e : Entry) (l : List Issue)
      → Recorded e l
      → All P l
      → (x : Issue) × P x
        × (x.generation ≡ e.generation)
        × (f.to_string x.binding x.identity ≡ some e.fingerprint)
  Recorded-find P e [] r h = absurd r
  Recorded-find P e (x ∷ l) (inl q) h = (x, h.0, q.0, q.1)
  Recorded-find P e (x ∷ l) (inr r) h = Recorded-find P e l r h.1

  record Inv (a : Authority) (log : List Issue) : Type 0 where
    bounded : All (λ x. x.generation ≤ a.counter) log
    functional : Functional log
    recorded : All (λ x. Recorded x.1 log) a.entries

  All-Recorded_cons :
      (x : Issue) (log : List Issue) (m : List (Text × Entry))
      → All (λ y. Recorded y.1 log) m
      → All (λ y. Recorded y.1 (x ∷ log)) m
  All-Recorded_cons x log [] h = tt
  All-Recorded_cons x log (y ∷ m) h = (inr h.0, All-Recorded_cons x log m h.1)

  lookup-Recorded :
      (k : Text) (m : List (Text × Entry)) (log : List Issue) (e : Entry)
      → All (λ y. Recorded y.1 log) m
      → lookup k m ≡ some e
      → Recorded e log
  unfolding lookup
  lookup-Recorded k [] log e h q = cc
  lookup-Recorded k ((j, d) ∷ m) log e h q = elim (Bool-cases (list_eq j k)) [
    | inl s ↦ let z : d ≡ e = ground arith in subst (λ x. Recorded x log) z h.0
    | inr s ↦ lookup-Recorded k m log e h.1 (ground arith)
  ]

  insert-Recorded :
      (k : Text) (e : Entry) (m : List (Text × Entry)) (log : List Issue)
      → Recorded e log
      → All (λ y. Recorded y.1 log) m
      → All (λ y. Recorded y.1 log) (insert k e m)
  unfolding insert
  insert-Recorded k e [] log r h = (r, tt)
  insert-Recorded k e ((j, d) ∷ m) log r h = elim (Bool-cases (list_eq j k)) [
    | inl s ↦ rw s (r, h.1)
    | inr s ↦ rw s (h.0, insert-Recorded k e m log r h.1)
  ]

  -- A number above the counter agrees with every issue.
  fresh-Agrees :
      (n : ℕ) (x : Issue) (log : List Issue)
      → x.generation ≡ n + 1
      → All (λ y. y.generation ≤ n) log
      → All (Agrees x) log
  fresh-Agrees n x [] q h = tt
  fresh-Agrees n x (y ∷ log) q h = (λ e. absurd (omega arith), fresh-Agrees n x log q h.1)

  bounded_up :
      (m n : ℕ) (log : List Issue)
      → m ≤ n
      → All (λ y. y.generation ≤ m) log
      → All (λ y. y.generation ≤ n) log
  bounded_up m n [] q h = tt
  bounded_up m n (y ∷ log) q h = (omega arith, bounded_up m n log q h.1)

  -- A number that is answered again agrees with every issue, since its entry is recorded.
  cached-Agrees :
      (e : Entry) (x : Issue) (log : List Issue)
      → x.generation ≡ e.generation
      → f.to_string x.binding x.identity ≡ some e.fingerprint
      → Functional log
      → Recorded e log
      → All (Agrees x) log
  cached-Agrees e x [] g q h r = tt
  cached-Agrees e x (y ∷ log) g q h (inl (gy, qy)) =
      let (b, i) =
        to_string-injective y.binding x.binding y.identity x.identity e.fingerprint qy q in
      (λ _. (b, i), carry b i log h.0)
    where
      carry :
          y.binding ≡ x.binding
          → y.identity ≡ x.identity
          → (l : List Issue) → All (Agrees y) l
          → All (Agrees x) l
      carry b i [] k = tt
      carry b i (z ∷ l) k =
          (λ e'. (let w = k.0 (e' ∙ g ∙ sym gy) in (w.0 ∙ b, w.1 ∙ i)), carry b i l k.1)
  cached-Agrees e x (y ∷ log) g q h (inr r) =
      let (z, same, gz, qz) = Recorded-find (Agrees y) e log r h.0 in
      let (b, i) =
        to_string-injective z.binding x.binding z.identity x.identity e.fingerprint qz q in
      (
        λ e'. (let w = same (gz ∙ sym g ∙ sym e') in (sym w.0 ∙ b, sym w.1 ∙ i)),
        cached-Agrees e x log g q h.1 r,
      )

  renumber-Inv :
      (b : Binding) (i : Option Identity) (t : Text) (a : Authority) (log : List Issue)
      → f.to_string b i ≡ some t
      → Inv a log
      → let r = renumber b t a in Inv r.1 (issued b i r.0 log)
  unfolding renumber
  renumber-Inv b i t a log h v = elim (Bool-cases (leb max_generation a.counter)) [
    | inl e ↦ rw e v
    | inr e ↦ rw e (record {
      bounded = (
        le_refl (a.counter + 1),
        bounded_up a.counter (a.counter + 1) log (omega arith) v.bounded,
      );
      functional = (
        fresh-Agrees a.counter (record { generation = a.counter + 1; binding = b; identity = i })
            log refl v.bounded,
        v.functional,
      );
      recorded =
          insert-Recorded b.agent_id _ a.entries
            (record { generation = a.counter + 1; binding = b; identity = i } ∷ log) (inl (refl, h))
            (All-Recorded_cons (record { generation = a.counter + 1; binding = b; identity = i })
              log a.entries v.recorded);
    })
  ]

  entry_bounded :
      (n : ℕ) (e : Entry) (log : List Issue)
      → Recorded e log
      → All (λ y. y.generation ≤ n) log
      → e.generation ≤ n
  entry_bounded n e log r h =
      let (x, le, g, _) = Recorded-find (λ y. y.generation ≤ n) e log r h in omega arith

  assign_fingerprint-Inv :
      (b : Binding) (i : Option Identity) (t : Text) (a : Authority) (log : List Issue)
      → f.to_string b i ≡ some t
      → Inv a log
      → let r = assign_fingerprint b t a in Inv r.1 (issued b i r.0 log)
  unfolding assign_fingerprint
  assign_fingerprint-Inv b i t a log h v = elim (Option-cases (lookup b.agent_id a.entries)) [
    | inl q ↦ rw (q, assign_fingerprint) (renumber-Inv b i t a log h v)
    | inr (e, q) ↦ elim (Bool-cases (list_eq e.fingerprint t)) [
      | inr d ↦ rw (q, assign_fingerprint) (rw d (renumber-Inv b i t a log h v))
      | inl d ↦
          let r = lookup-Recorded b.agent_id a.entries log e v.recorded q in
          rw (q, assign_fingerprint)
            (rw d (record {
              bounded = (entry_bounded a.counter e log r v.bounded, v.bounded);
              functional = (
                cached-Agrees e (record { generation = e.generation; binding = b; identity = i })
                    log refl (h ∙ ap some (sym (list_eq-eq _ _ d))) v.functional r,
                v.functional,
              );
              recorded = All-Recorded_cons _ log a.entries v.recorded;
            }))
    ]
  ]

  assign-Inv :
      (b : Binding) (i : Option Identity) (a : Authority) (log : List Issue)
      → Inv a log
      → let r = assign f b i a in Inv r.1 (issued b i r.0 log)
  unfolding assign
  assign-Inv b i a log v = elim (Option-cases (f.to_string b i)) [
    | inl q ↦ rw (q, assign) v
    | inr (t, q) ↦ rw (q, assign) (assign_fingerprint-Inv b i t a log q v)
  ]

  assigns-Inv :
      (cs : List (Binding × Option Identity)) (a : Authority) (log : List Issue)
      → Inv a log
      → Inv (assigns cs a log).0 (assigns cs a log).1
  unfolding assigns
  assigns-Inv [] a log v = v
  assigns-Inv ((b, i) ∷ cs) a log v = assigns-Inv cs (assign f b i a).1 _ (assign-Inv b i a log v)

  -- In any history of assignments from the empty authority, two answers with one generation are
  -- for the same binding and the same identity.
  pub assigns-Functional :
      (cs : List (Binding × Option Identity)) → Functional (assigns cs empty []).1
  assigns-Functional cs =
      (assigns-Inv cs empty [] (record { bounded = tt; functional = tt; recorded = tt })).functional

  pub lookup-insert_self :
      (k : Text) (e : Entry) (m : List (Text × Entry)) → lookup k (insert k e m) ≡ some e
  unfolding lookup insert
  lookup-insert_self k e [] = rw (list_eq_refl k)
  lookup-insert_self k e ((j, d) ∷ m) = elim (Bool-cases (list_eq j k)) [
    | inl s ↦ rw s (rw (list_eq_refl k))
    | inr s ↦ rw s (rw s (lookup-insert_self k e m))
  ]

  -- An observation that did not change is answered by the same generation, and changes nothing.
  pub assign_again :
      (b : Binding) (i : Option Identity) (a : Authority) (g : ℕ)
      → (assign f b i a).0 ≡ ok g
      → assign f b i (assign f b i a).1 ≡ (ok g, (assign f b i a).1)
  unfolding assign assign_fingerprint renumber
  assign_again b i a g h = elim (Option-cases (f.to_string b i)) [
    | inl z ↦ absurd (ground arith)
    | inr (t, z) ↦
        let w =
          lookup-insert_self b.agent_id (record { fingerprint = t; generation = a.counter + 1 })
            a.entries in
        elim (Option-cases (lookup b.agent_id a.entries)) [
          | inl q ↦ ground (arith, w, list_eq_refl t)
          | inr (e, q) ↦ ground (arith, w, list_eq_refl t)
        ]
  ]
