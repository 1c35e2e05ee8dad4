-- ===== src/Integrations/Reviews.antt =====
-- The rows and decisions of the store of proposals over its calls, and its files.
use tentaflake.Prelude.{
  subst, Option-cases, zero, ltb, [], ◌+◌, List, ◌++◌, refl, Bool-cases, true, list_eq, arith, inr,
  ok, ◌∙◌, Result-cases, suc, sym, Text, length, false, get_elem?, ◌≤◌, ◌≢◌, ◌≡◌, ℕ, some, inl, ◌∷◌,
  err, Bool, ◌||◌, ok_or, length-append, leb, not, list_eq_refl, Result, ◌<◌, if◌then◌else◌,
}
use tentaflake.Integrations.Advisory.{ReviewProposal}
use tentaflake.Integrations.Proposals.{
  Error, set_review, Decision, proposal_id, state_limit, misnumbered, Files, Saving, Row, Codec,
  pending, Store, publish, save, submit, review, decision_eq, position, review_at, Opening,
  open_store, load_rows, check_directory, read_state, bound_rows,
}

-- The later rows continue the earlier: none is lost or changed, and a decision that was made stays.
abbrev pub Keeps : List Row → List Row → Type 0
Keeps [] ss = Unit {0}
Keeps (r ∷ rs) [] = ⊥
Keeps (r ∷ rs) (s ∷ ss) =
    (s.id ≡ r.id)
    × (s.proposal ≡ r.proposal)
    × (r.review ≢ pending → s.review ≡ r.review)
    × Keeps rs ss

Keeps-refl : (rs : List Row) → Keeps rs rs
Keeps-refl [] = tt
Keeps-refl (r ∷ rs) = (refl, refl, λ _. refl, Keeps-refl rs)

Keeps-trans : (a b d : List Row) → Keeps a b → Keeps b d → Keeps a d
Keeps-trans [] b d h k = tt
Keeps-trans (x ∷ a) [] d h k = absurd h
Keeps-trans (x ∷ a) (y ∷ b) [] h k = absurd k
Keeps-trans (x ∷ a) (y ∷ b) (z ∷ d) h k = (
  k.0 ∙ h.0,
  k.1 ∙ h.1,
  λ n. (let e = h.2 n in k.2 (λ q. n (sym e ∙ q)) ∙ e),
  Keeps-trans a b d h.3 k.3,
)

append-Keeps : (rs l : List Row) → Keeps rs (rs ++ l)
append-Keeps [] l = tt
append-Keeps (r ∷ rs) l = (refl, refl, λ _. refl, append-Keeps rs l)

set_review-Keeps :
    (i : ℕ) (d : Decision) (rs : List Row) (r : Row)
    → get_elem? rs i ≡ some r
    → r.review ≡ pending
    → Keeps rs (set_review i d rs)
unfolding set_review
set_review-Keeps i d [] r h p = tt
set_review-Keeps zero d (x ∷ rs) r h p = (
  refl,
  refl,
  (λ n.
      absurd
        (n (let e : x ≡ r = ground arith in subst (λ (y : Row). y.review ≡ pending) (sym e) p))),
  Keeps-refl rs,
)
set_review-Keeps (suc i) d (x ∷ rs) r h p =
    (refl, refl, λ _. refl, set_review-Keeps i d rs r (ground arith) p)

misnumbered-append :
    (i : ℕ) (rs : List Row) (r : Row)
    → misnumbered i rs ≡ false
    → list_eq r.id (proposal_id (i + length rs + 1)) ≡ true
    → misnumbered i (rs ++ (r ∷ [])) ≡ false
unfolding misnumbered
misnumbered-append i [] r h e =
    let same : i + 0 + 1 ≡ i + 1 = omega arith in
    let k = subst (λ n. list_eq r.id (proposal_id n) ≡ true) same e in ground arith
misnumbered-append i (x ∷ rs) r h e =
    let same : i + 1 + length rs + 1 ≡ i + length (x ∷ rs) + 1 = omega arith in
    let ih =
      misnumbered-append (i + 1) rs r (ground arith)
        (subst (λ n. list_eq r.id (proposal_id n) ≡ true) (sym same) e) in
    ground arith

set_review-misnumbered :
    (i n : ℕ) (d : Decision) (rs : List Row)
    → (misnumbered i (set_review n d rs) ≡ misnumbered i rs)
      × (length (set_review n d rs) ≡ length rs)
unfolding set_review misnumbered
set_review-misnumbered i n d [] = (refl, refl)
set_review-misnumbered i zero d (x ∷ rs) = (refl, refl)
set_review-misnumbered i (suc n) d (x ∷ rs) =
    let ih = set_review-misnumbered (i + 1) n d rs in (ground arith, ground arith)

module _ (c : Codec) where
  -- The calls that change the store, as they arrive.
  pub data Request : Type 0 where
    submits : Saving → ReviewProposal → Request
    reviews : Saving → Text → Decision → Request

  abbrev pub step : Request → Store c × Files c → Store c × Files c
  step (submits o p) s = (submit c o p s).1
  step (reviews o id d) s = (review c o id d s).1

  unfoldable pub run : List Request → Store c × Files c → Store c × Files c
  run [] s = s
  run (r ∷ rs) s = run rs (step r s)

  -- What the disk holds is what the store holds.
  abbrev OnDisk : Store c → Files c → Type 0
  OnDisk s f =
      (b : c.Bytes) × (k : c.Context) × (f.state ≡ some b)
      × (c.from_slice b ≡ some (k, s.rows))
      × (c.context_eq k s.context ≡ true)
      × (c.len b ≤ state_limit)

  abbrev WellNumbered : List Row → Type 0
  WellNumbered rs = (length rs ≤ 100) × (misnumbered 0 rs ≡ false)

  record Inv (context : c.Context) (x : Store c × Files c) : Type 0 where
    context_is : x.0.context ≡ context
    numbered : WellNumbered x.0.rows
    on_disk : x.0.poisoned ≡ false → OnDisk x.0 x.1

  publish_facts :
      (o : Saving) (b : c.Bytes) (f : Files c)
      → (publish c o b f).0 ≡ ok tt
      → (publish c o b f).1.state ≡ some b
  unfolding publish
  publish_facts o b f h = ground arith

  save_facts :
      (o : Saving) (s : Store c) (f : Files c)
      → ((save c o (s, f)).1.0.rows ≡ s.rows) × ((save c o (s, f)).1.0.context ≡ s.context)
  unfolding save
  save_facts o s f = ground arith

  save-OnDisk :
      (o : Saving) (s : Store c) (f : Files c)
      → (save c o (s, f)).1.0.poisoned ≡ false
      → OnDisk (save c o (s, f)).1.0 (save c o (s, f)).1.1
  unfolding save
  save-OnDisk o s f h = elim (Option-cases (c.to_vec s.context s.rows)) [
    | inl e ↦ absurd (ground arith)
    | inr (b, e) ↦ elim (Bool-cases (ltb state_limit (c.len b))) [
      | inl l ↦ absurd (ground arith)
      | inr l ↦ elim (Result-cases (publish c o b f).0) [
        | inr (x, q) ↦ absurd (ground arith)
        | inl (_, q) ↦ (
          b,
          s.context,
          ground (arith, publish_facts o b f q),
          ground (arith, c.from_slice-to_vec s.context s.rows b e),
          ground (arith, c.context_eq_refl s.context),
          ground arith,
        )
      ]
    ]
  ]

  save-Inv :
      (o : Saving) (context : c.Context) (s : Store c) (f : Files c)
      → s.context ≡ context
      → WellNumbered s.rows
      → Inv context (save c o (s, f)).1
  save-Inv o context s f h n =
      let k = save_facts o s f in
      record {
        context_is = k.1 ∙ h;
        numbered = subst WellNumbered (sym k.0) n;
        on_disk = save-OnDisk o s f;
      }

  submit-Inv :
      (o : Saving) (p : ReviewProposal) (context : c.Context) (s : Store c) (f : Files c)
      → Inv context (s, f)
      → Inv context (submit c o p (s, f)).1 × Keeps s.rows (submit c o p (s, f)).1.0.rows
  unfolding submit
  submit-Inv o p context s f v = elim (Bool-cases (s.poisoned || leb 100 (length s.rows))) [
    | inl e ↦ rw e (v, Keeps-refl s.rows)
    | inr e ↦
        let row : Row = record {
          id = proposal_id (length s.rows + 1);
          proposal = p;
          review = pending;
        } in
        let rows = s.rows ++ (row ∷ []) in
        let n : WellNumbered rows = (
          omega (arith, length-append s.rows (row ∷ []), room s e),
          misnumbered-append 0 s.rows row v.numbered.1 (own_id (length s.rows)),
        ) in
        let k = save_facts o (record s { rows = rows }) f in
        rw e (
          save-Inv o context (record s { rows = rows }) f v.context_is n,
          subst (λ (l : List Row). Keeps s.rows l) (sym k.0) (append-Keeps s.rows (row ∷ [])),
        )
  ]
    where
      room : (s : Store c) → (s.poisoned || leb 100 (length s.rows)) ≡ false → length s.rows < 100
      room s e = ground arith

      own_id : (n : ℕ) → list_eq (proposal_id (n + 1)) (proposal_id (0 + n + 1)) ≡ true
      own_id n =
          let same : n + 1 ≡ 0 + n + 1 = omega arith in
          subst (λ k. list_eq (proposal_id (n + 1)) (proposal_id k) ≡ true) same
            (list_eq_refl (proposal_id (n + 1)))

  review_at-Inv :
      (o : Saving) (i : ℕ) (row : Row) (d : Decision) (context : c.Context) (s : Store c)
      (f : Files c)
      → get_elem? s.rows i ≡ some row
      → Inv context (s, f)
      → Inv context (review_at c o i row d (s, f)).1
        × Keeps s.rows (review_at c o i row d (s, f)).1.0.rows
  unfolding review_at
  review_at-Inv o i row d context s f g v = elim (Bool-cases (decision_eq row.review pending)) [
    | inr e ↦ rw e (kept (decision_eq row.review d))
    | inl e ↦
        let rows = set_review i d s.rows in
        let m = set_review-misnumbered 0 i d s.rows in
        let n : WellNumbered rows = (omega (arith, v.numbered.0, m.1), m.0 ∙ v.numbered.1) in
        let k = save_facts o (record s { rows = rows }) f in
        rw e (
          save-Inv o context (record s { rows = rows }) f v.context_is n,
          subst (λ (l : List Row). Keeps s.rows l) (sym k.0)
              (set_review-Keeps i d s.rows row g (decision_eq_pending row.review e)),
        )
  ]
    where
      kept :
          (b : Bool)
          → let r : Result Error c.Value × (Store c × Files c) =
              if not b
              then (err Error.already_reviewed, (s, f))
              else (ok_or (c.to_value row) Error.state_unavailable, (s, f)) in
            Inv context r.1 × Keeps s.rows r.1.0.rows
      kept true = (v, Keeps-refl s.rows)
      kept false = (v, Keeps-refl s.rows)

      decision_eq_pending : (x : Decision) → decision_eq x pending ≡ true → x ≡ pending
      decision_eq_pending x h = ground arith

  review-Inv :
      (o : Saving) (id : Text) (d : Decision) (context : c.Context) (s : Store c) (f : Files c)
      → Inv context (s, f)
      → Inv context (review c o id d (s, f)).1 × Keeps s.rows (review c o id d (s, f)).1.0.rows
  unfolding review
  review-Inv o id d context s f v = elim (Bool-cases (s.poisoned || decision_eq d pending)) [
    | inl e ↦ rw e (v, Keeps-refl s.rows)
    | inr e ↦ elim (Option-cases (position id s.rows)) [
      | inl q ↦ rw e (rw q (v, Keeps-refl s.rows))
      | inr (i, q) ↦ elim (Option-cases (get_elem? s.rows i)) [
        | inl g ↦ rw e (rw q (rw g (v, Keeps-refl s.rows)))
        | inr (row, g) ↦ rw e (rw q (rw g (review_at-Inv o i row d context s f g v)))
      ]
    ]
  ]

  run-Inv :
      (rs : List Request) (context : c.Context) (x : Store c × Files c)
      → Inv context x
      → Inv context (run rs x) × Keeps x.0.rows (run rs x).0.rows
  unfolding run
  run-Inv [] context x v = (v, Keeps-refl x.0.rows)
  run-Inv (submits o p ∷ rs) context x v =
      let a = submit-Inv o p context x.0 x.1 v in
      let b = run-Inv rs context (submit c o p x).1 a.0 in
      (b.0, Keeps-trans x.0.rows (submit c o p x).1.0.rows _ a.1 b.1)
  run-Inv (reviews o id d ∷ rs) context x v =
      let a = review-Inv o id d context x.0 x.1 v in
      let b = run-Inv rs context (review c o id d x).1 a.0 in
      (b.0, Keeps-trans x.0.rows (review c o id d x).1.0.rows _ a.1 b.1)

  store_is :
      (s : Store c) (context : c.Context)
      → s.context ≡ context
      → s.poisoned ≡ false
      → record { context = context; rows = s.rows; poisoned = false } ≡ s
  store_is s context e p = λ i. record { context = sym e i; rows = s.rows; poisoned = sym p i }

  -- A directory with a snapshot of the context opens with its rows.
  open_existing :
      (w : Opening) (o : Saving) (context : c.Context) (s : Store c) (f : Files c)
      → check_directory c w ≡ ok tt
      → w.opens_state ≡ true
      → w.reads ≡ true
      → s.context ≡ context
      → WellNumbered s.rows
      → OnDisk s f
      → open_store c w o context f
        ≡ (ok (record { context = context; rows = s.rows; poisoned = false }), f)
  unfolding open_store load_rows read_state bound_rows
  open_existing w o context s f d a r e n (b, k, fs, q, x, l) =
      let y : c.context_eq k context ≡ true = subst (λ z. c.context_eq k z ≡ true) e x in
      ground arith

  load_rows_facts :
      (w : Opening) (context : c.Context) (f : Files c) (fresh : Bool) (rows : List Row)
      → load_rows c w context f ≡ ok (fresh, rows)
      → WellNumbered rows
        × (fresh ≡ false → OnDisk (record { context = context; rows = rows; poisoned = false }) f)
  unfolding load_rows read_state bound_rows
  load_rows_facts w context f fresh rows h = elim (Result-cases (check_directory c w)) [
    | inr (e, d) ↦ absurd (ground arith)
    | inl (_, d) ↦ elim (Option-cases f.state) [
      | inl e ↦ ((ground arith, ground arith), λ n. absurd (ground arith))
      | inr (b, e) ↦ elim (Option-cases (c.from_slice b)) [
        | inl q ↦ absurd (ground arith)
        | inr ((k, l), q) ↦
            ((ground arith, ground arith), λ n. (b, k, e, ground arith, ground arith, ground arith))
      ]
    ]
  ]

  open-Inv :
      (w : Opening) (o : Saving) (context : c.Context) (f g : Files c) (s : Store c)
      → open_store c w o context f ≡ (ok s, g)
      → Inv context (s, g)
  unfolding open_store
  open-Inv w o context f g s h = elim (Result-cases (load_rows c w context f)) [
    | inr (e, q) ↦ absurd (ground arith)
    | inl ((true, rows), q) ↦ fresh rows (load_rows_facts w context f true rows q).0 (ground arith)
    | inl ((false, rows), q) ↦
        let k = load_rows_facts w context f false rows q in
        subst (λ (y : Store c × Files c). Inv context y)
          (pair_eq (record { context = context; rows = rows; poisoned = false }) f (ground arith))
          (record { context_is = refl; numbered = k.0; on_disk = λ _. k.1 refl })
  ]
    where
      pair_eq :
          (t : Store c) (f : Files c)
          → ◌≡◌ {A = Result Error (Store c) × Files c} (ok t, f) (ok s, g)
          → ◌≡◌ {A = Store c × Files c} (t, f) (s, g)
      pair_eq t f e = ground arith

      fresh :
          (rows : List Row)
          → WellNumbered rows
          → (let saved =
                save c o (record { context = context; rows = rows; poisoned = false }, f) in
              let r : Result Error (Store c) × Files c =
                (elim saved.0 [ err e ↦ err e | ok _ ↦ ok saved.1.0 ], saved.1.1) in
              r ≡ (ok s, g))
          → Inv context (s, g)
      fresh rows n e =
          let t : Store c = record { context = context; rows = rows; poisoned = false } in
          let v = save-Inv o context t f refl n in
          let same : (save c o (t, f)).1 ≡ (s, g) = elim (Result-cases (save c o (t, f)).0) [
            | inr (x, q) ↦ absurd (ground arith)
            | inl (_, q) ↦ ground arith
          ] in
          subst (λ (y : Store c × Files c). Inv context y) same v

  -- After a store was opened, no call loses or changes a proposal, and none changes a decision.
  pub run-Keeps :
      (w : Opening) (o : Saving) (context : c.Context) (f g : Files c) (s : Store c)
      (rs : List Request)
      → open_store c w o context f ≡ (ok s, g)
      → Keeps s.rows (run rs (s, g)).0.rows
  run-Keeps w o context f g s rs h = (run-Inv rs context (s, g) (open-Inv w o context f g s h)).1

  -- However the calls went, a store that is not poisoned is opened again with the same rows from
  -- its files, under a directory and a lock that pass the checks and a state file that can be read.
  pub open_store-run :
      (w₁ w₂ : Opening) (o₁ o₂ : Saving) (context : c.Context) (f g : Files c) (s : Store c)
      (rs : List Request)
      → open_store c w₁ o₁ context f ≡ (ok s, g)
      → (run rs (s, g)).0.poisoned ≡ false
      → check_directory c w₂ ≡ ok tt
      → w₂.opens_state ≡ true
      → w₂.reads ≡ true
      → open_store c w₂ o₂ context (run rs (s, g)).1 ≡ (ok (run rs (s, g)).0, (run rs (s, g)).1)
  open_store-run w₁ w₂ o₁ o₂ context f g s rs h p d a r =
      let x = run rs (s, g) in
      let v = (run-Inv rs context (s, g) (open-Inv w₁ o₁ context f g s h)).0 in
      subst (λ (y : Store c). open_store c w₂ o₂ context x.1 ≡ (ok y, x.1))
        (store_is x.0 context v.context_is p)
        (open_existing w₂ o₂ context x.0 x.1 d a r v.context_is v.numbered (v.on_disk p))
