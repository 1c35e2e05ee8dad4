-- ===== src/Broker/Llm/Plans.antt =====
-- What a request was checked for when it is reserved, and that what is sent on says so.
use tentaflake.Prelude.{
  ◌≡◌, inl, [], ◌∙◌, ◌+◌, List, inr, list_eq-eq, ℕ, Text, true, sym, u64_mod, list_eq, ◌<◌,
  Bool-cases, some, Option-cases, false, ◌∷◌, arith, ok, get, codes, length, ◌≤◌, ltb, ap, and_then,
  list_eq_refl, put, get-put_self, Result-cases, contains_key, get-put_other, refl, subst,
}
use tentaflake.Broker.Llm.Usage.{conservative_input_tokens, ModelPolicy, estimate_cost}
use tentaflake.Broker.Llm.Requests.{
  Plan, find_model, Members, Request, limit_field, completion_limit, reserve_for, check_route,
  responses_route, check_payload, plan, streams,
}
use tentaflake.Broker.Json.{is_text, Json}
use tentaflake.Integrations.Grants.{route}
use tentaflake.Broker.Config.{LlmPolicy}

module _ (j : Json) where
  pub record Planned (policy : LlmPolicy) (r : Request) (p : Plan j) : Type 0 where
    pub model_in : find_model p.model.name policy.allowed_models ≡ some p.model
    pub model_sent : is_text j (get p.payload (codes "model")) p.model.name ≡ true
    pub positive : 0 < p.completion_tokens
    pub within : p.completion_tokens ≤ policy.max_completion_tokens
    pub limit_sent : get p.payload p.token_field ≡ some (j.number p.completion_tokens)
    pub tokens_are : p.tokens ≡ length r.body + p.completion_tokens
    pub tokens_fit : p.tokens < u64_mod
    pub cost_is : estimate_cost p.model (length r.body) p.completion_tokens ≡ some p.cost

  find_model_name :
      (name : Text) (ms : List ModelPolicy) (m : ModelPolicy)
      → find_model name ms ≡ some m
      → m.name ≡ name
  unfolding find_model
  find_model_name name [] m h = cc
  find_model_name name (x ∷ ms) m h = elim (Bool-cases (list_eq x.name name)) [
    | inl e ↦
        let same : x ≡ m = ground arith in
        ap (λ (y : ModelPolicy). y.name) (sym same) ∙ list_eq-eq x.name name e
    | inr e ↦ find_model_name name ms m (ground arith)
  ]

  -- The field of the limit is not the model's.
  limit_field_ne :
      (route : Text) (m : Members j) (field : Text)
      → limit_field j route m ≡ ok field
      → list_eq field (codes "model") ≡ false
  unfolding limit_field
  limit_field_ne route m field h = elim (Bool-cases (list_eq route responses_route)) [
    | inl e ↦ let f : field ≡ codes "max_output_tokens" = ground arith in rw f refl
    | inr e ↦ elim (Bool-cases (contains_key m (codes "max_completion_tokens"))) [
      | inr q ↦ let f : field ≡ codes "max_tokens" = ground arith in rw f refl
      | inl q ↦ elim (Bool-cases (contains_key m (codes "max_tokens"))) [
        | inl t ↦ absurd (ground arith)
        | inr t ↦ let f : field ≡ codes "max_completion_tokens" = ground arith in rw f refl
      ]
    ]
  ]

  completion_limit_le :
      (policy : LlmPolicy) (field : Text) (m : Members j) (n : ℕ)
      → completion_limit j policy field m ≡ ok n
      → n ≤ policy.max_completion_tokens
  unfolding completion_limit
  completion_limit_le policy field m n h = elim (Option-cases (get m field)) [
    | inl e ↦ ground arith
    | inr (v, e) ↦ elim (Option-cases (j.as_u64 v)) [
      | inl q ↦ absurd (ground arith)
      | inr (k, q) ↦ ground arith
    ]
  ]

  reserve_for_facts :
      (model : ModelPolicy) (body completion tokens cost : ℕ)
      → 0 < completion
      → reserve_for j model body completion ≡ ok (tokens, cost)
      → (tokens ≡ body + completion)
        × (tokens < u64_mod)
        × (estimate_cost model body completion ≡ some cost)
  unfolding reserve_for conservative_input_tokens
  reserve_for_facts model body completion tokens cost pos h = elim (Bool-cases (ltb body u64_mod)) [
    | inr e ↦ absurd (ground arith)
    | inl e ↦ elim (Option-cases (estimate_cost model body completion)) [
      | inl q ↦ absurd (ground arith)
      | inr (c, q) ↦ (ground arith, ground arith, ground arith)
    ]
  ]

  -- The parts of a plan that was made.
  record Parts (policy : LlmPolicy) (r : Request) (p : Plan j) : Type 0 where
    members : Members j
    routed : check_route policy r ≡ ok (p.route, p.session)
    checked : check_payload j policy r ≡ ok members
    name : Text
    named : and_then (get members (codes "model")) j.as_str ≡ some name
    found : find_model name policy.allowed_models ≡ some p.model
    field : limit_field j p.route members ≡ ok p.token_field
    limited : completion_limit j policy p.token_field members ≡ ok p.completion_tokens
    positive : 0 < p.completion_tokens
    reserved : reserve_for j p.model (length r.body) p.completion_tokens ≡ ok (p.tokens, p.cost)
    payload : p.payload ≡ put p.token_field (j.number p.completion_tokens) members

  plan-Parts :
      (policy : LlmPolicy) (r : Request) (p : Plan j) → plan j policy r ≡ ok p → Parts policy r p
  unfolding plan
  plan-Parts policy r p h = elim (Result-cases (check_route policy r)) [
    | inr (e, k) ↦ absurd (ground arith)
    | inl ((route, session), a) ↦ elim (Result-cases (check_payload j policy r)) [
      | inr (e, k) ↦ absurd (ground arith)
      | inl (m, b) ↦ elim (Result-cases (streams j policy route m)) [
        | inr (e, k) ↦ absurd (ground arith)
        | inl (streaming, c) ↦ elim (Option-cases (and_then (get m (codes "model")) j.as_str)) [
          | inl k ↦ absurd (ground arith)
          | inr (name, d) ↦ elim (Option-cases (find_model name policy.allowed_models)) [
            | inl k ↦ absurd (ground arith)
            | inr (model, e) ↦ elim (Result-cases (limit_field j route m)) [
              | inr (x, k) ↦ absurd (ground arith)
              | inl (field, f) ↦ elim (Result-cases (completion_limit j policy field m)) [
                | inr (x, k) ↦ absurd (ground arith)
                | inl (n, g) ↦ elim (Result-cases (reserve_for j model (length r.body) n)) [
                  | inr (x, k) ↦ absurd (ground arith)
                  | inl ((tokens, cost), i) ↦ record {
                    members = m;
                    routed = ground arith;
                    checked = b;
                    name = name;
                    named = d;
                    found = ground arith;
                    field = ground arith;
                    limited = ground arith;
                    positive = ground arith;
                    reserved = ground arith;
                    payload = ground arith;
                  }
                ]
              ]
            ]
          ]
        ]
      ]
    ]
  ]

  -- A request that is reserved names an allowed model, and what is sent on names it too and holds a
  -- positive completion limit within the policy's; reserved are a token for each byte of the body
  -- with the whole completion, and their estimated cost.
  pub plan-Planned :
      (policy : LlmPolicy) (r : Request) (p : Plan j) → plan j policy r ≡ ok p → Planned policy r p
  plan-Planned policy r p h =
      let k = plan-Parts policy r p h in
      let name = find_model_name k.name policy.allowed_models p.model k.found in
      let ne = limit_field_ne p.route k.members p.token_field k.field in
      let sent = get-put_self p.token_field (j.number p.completion_tokens) k.members in
      let kept =
        get-put_other p.token_field (codes "model") (j.number p.completion_tokens) k.members ne in
      let f =
        reserve_for_facts p.model (length r.body) p.completion_tokens p.tokens p.cost k.positive
          k.reserved in
      let named = k.named in
      record {
        model_in =
            subst (λ x. find_model x policy.allowed_models ≡ some p.model) (sym name) k.found;
        model_sent = rw (k.payload, kept, named, name) (list_eq_refl k.name);
        positive = k.positive;
        within = completion_limit_le policy p.token_field k.members p.completion_tokens k.limited;
        limit_sent = rw k.payload sent;
        tokens_are = f.0;
        tokens_fit = f.1;
        cost_is = f.2;
      }
