-- ===== src/Integrations/Unsaved.antt =====
-- What a store of proposals does once a save has failed.
use tentaflake.Prelude.{
  ◌&&◌, Option-cases, ltb, [], ◌+◌, List, ◌++◌, refl, Bool-cases, true, arith, inr, ok, ◌∙◌,
  Result-cases, Text, length, false, ◌≢◌, ◌≡◌, inl, ◌∷◌, err, ◌<◌, ap,
}
use tentaflake.Integrations.Advisory.{ReviewProposal}
use tentaflake.Integrations.Proposals.{
  Error, Decision, proposal_id, state_limit, Files, Saving, Row, Codec, pending, Store, publish,
  save, submit, review, list, state_unavailable, state_bounds,
}
use tentaflake.Integrations.Reviews.{Request, submits, reviews, run}

module _ (c : Codec) where
  submit-poisoned :
      (o : Saving) (p : ReviewProposal) (s : Store c) (f : Files c)
      → s.poisoned ≡ true
      → (submit c o p (s, f)).1 ≡ (s, f)
  unfolding submit
  submit-poisoned o p s f h = ground arith

  review-poisoned :
      (o : Saving) (id : Text) (d : Decision) (s : Store c) (f : Files c)
      → s.poisoned ≡ true
      → (review c o id d (s, f)).1 ≡ (s, f)
  unfolding review
  review-poisoned o id d s f h = ground arith

  -- A poisoned store and its files stay as they are, and no listing is answered.
  run-poisoned :
      (rs : List (Request c)) (s : Store c) (f : Files c)
      → s.poisoned ≡ true
      → (run c rs (s, f) ≡ (s, f)) × (list c s ≡ err Error.state_uncertain)
  unfolding run list
  run-poisoned [] s f h = (refl, ground arith)
  run-poisoned (submits o p ∷ rs) s f h =
      let k = run-poisoned rs s f h in (ap (run c rs) (submit-poisoned o p s f h) ∙ k.0, k.1)
  run-poisoned (reviews o id d ∷ rs) s f h =
      let k = run-poisoned rs s f h in (ap (run c rs) (review-poisoned o id d s f h) ∙ k.0, k.1)

  save_failed :
      (o : Saving) (s : Store c) (f : Files c)
      → (o.opens && o.writes && o.renames && o.syncs) ≡ false
      → ((save c o (s, f)).1.0.poisoned ≡ true) × ((e : Error) × ((save c o (s, f)).0 ≡ err e))
  unfolding save publish
  save_failed o s f h = elim (Option-cases (c.to_vec s.context s.rows)) [
    | inl q ↦ (ground arith, (state_unavailable, ground arith))
    | inr (b, q) ↦ elim (Bool-cases (ltb state_limit (c.len b))) [
      | inl k ↦ (ground arith, (state_bounds, ground arith))
      | inr k ↦ elim (Result-cases (publish c o b f).0) [
        | inl (_, z) ↦ absurd (ground arith)
        | inr (e, z) ↦ (ground arith, (e, ground arith))
      ]
    ]
  ]

  -- What a submission to a store with room does is what its save does.
  submit_saves :
      (o : Saving) (p : ReviewProposal) (s : Store c) (f : Files c)
      → length s.rows < 100
      → s.poisoned ≡ false
      → let new : Row = record {
        id = proposal_id (length s.rows + 1);
        proposal = p;
        review = pending;
      } in
        let saved = save c o (record s { rows = s.rows ++ (new ∷ []) }, f) in
        ((submit c o p (s, f)).1 ≡ saved.1)
        × ((e : Error) → saved.0 ≡ err e → (submit c o p (s, f)).0 ≡ err e)
  unfolding submit
  submit_saves o p s f r n = (ground arith, λ e q. ground arith)

  -- A submission to a store with room that is not poisoned, where a step of the save fails, is
  -- never acknowledged; after it no call changes the store or its files, and a listing answers that
  -- the state is uncertain.
  pub submit-unsaved :
      (o : Saving) (p : ReviewProposal) (s : Store c) (f : Files c) (rs : List (Request c))
      (v : c.Value)
      → length s.rows < 100
      → (o.opens && o.writes && o.renames && o.syncs) ≡ false
      → s.poisoned ≡ false
      → ((submit c o p (s, f)).0 ≢ ok v)
        × (run c rs (submit c o p (s, f)).1 ≡ (submit c o p (s, f)).1)
        × (list c (submit c o p (s, f)).1.0 ≡ err Error.state_uncertain)
  submit-unsaved o p s f rs v r h n =
      let new : Row = record {
        id = proposal_id (length s.rows + 1);
        proposal = p;
        review = pending;
      } in
      let t = record s { rows = s.rows ++ (new ∷ []) } in
      let (poisoned, (e, q)) = save_failed o t f h in
      let (same, answer) = submit_saves o p s f r n in
      let y = (save c o (t, f)).1 in
      let (k, l) = run-poisoned rs y.0 y.1 poisoned in
      rw same (λ z. (let w = answer e q in ground arith), k, l)
