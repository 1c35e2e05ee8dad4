-- ===== src/Broker/Llm/Locality.antt =====
-- A request within the strict envelope asks for nothing that the test of local tools refuses.
use tentaflake.Broker.Llm.Envelope.{
  strict_fields, is_strict_envelope, envelope_fields, local_tools, extension_fields,
  object_with_keys, tool_choice, has_local_tools, strict_tool, local_tool, local_choice,
}
use tentaflake.Prelude.{
  inl, [], any, is_none_or, keys, inr, Text, Option, none, contains, ◌≡◌, all, true, false, codes,
  Option-cases, list_eq, some, Bool-cases, refl, contains_key, arith, list_eq-eq, ◌∷◌, List,
  is_some_and, get, subst,
}
use tentaflake.Broker.Json.{Json}

module _ (j : Json) where
  all_get :
      (allowed : List Text) (p : List (Text × j.Value)) (k : Text)
      → all (contains allowed) (keys p) ≡ true
      → contains allowed k ≡ false
      → contains_key p k ≡ false
  all_get allowed [] k h n = refl
  all_get allowed ((i, v) ∷ p) k h n = elim (Bool-cases (list_eq i k)) [
    | inl e ↦
        let same = list_eq-eq i k e in
        let w : contains allowed k ≡ true =
          subst (λ x. contains allowed x ≡ true) same (ground arith) in
        absurd (ground arith)
    | inr e ↦ rw e (all_get allowed p k (ground arith) n)
  ]

  strict_tool-local : (v : j.Value) → strict_tool j v ≡ true → local_tool j v ≡ true
  unfolding strict_tool object_with_keys
  strict_tool-local v h = elim (Option-cases (j.as_object v)) [
    | inl e ↦ absurd (ground arith)
    | inr (m, e) ↦ ground arith
  ]

  strict_tools-local :
      (l : List j.Value) → all (strict_tool j) l ≡ true → all (local_tool j) l ≡ true
  strict_tools-local [] h = refl
  strict_tools-local (v ∷ l) h =
      let a = strict_tool-local v (ground arith) in
      let b = strict_tools-local l (ground arith) in ground arith

  tool_choice-local : (v : j.Value) → tool_choice j v ≡ true → local_choice j v ≡ true
  unfolding tool_choice local_choice object_with_keys
  tool_choice-local v h = elim (Option-cases (j.as_str v)) [
    | inr (s, e) ↦ ground arith
    | inl e ↦ elim (Option-cases (j.as_object v)) [
      | inl q ↦ absurd (ground arith)
      | inr (m, q) ↦ ground arith
    ]
  ]

  tools-local :
      (o : Option j.Value)
      → is_none_or o (λ tools. is_some_and (j.as_array tools) (all (strict_tool j))) ≡ true
      → is_none_or o (local_tools j) ≡ true
  tools-local none h = refl
  tools-local (some v) h = elim (Option-cases (j.as_array v)) [
    | inl e ↦ absurd (ground arith)
    | inr (l, e) ↦ let w = strict_tools-local l (ground arith) in ground arith
  ]

  choice-local :
      (o : Option j.Value)
      → is_none_or o (tool_choice j) ≡ true
      → is_none_or o (local_choice j) ≡ true
  choice-local none h = refl
  choice-local (some v) h = tool_choice-local v h

  no_extensions :
      (p : List (Text × j.Value))
      → all (contains (envelope_fields j)) (keys p) ≡ true
      → any (contains_key p) (extension_fields j) ≡ false
  no_extensions p h =
      let a = all_get (envelope_fields j) p (codes "web_search_options") h refl in
      let b = all_get (envelope_fields j) p (codes "plugins") h refl in
      let c = all_get (envelope_fields j) p (codes "extensions") h refl in
      let d = all_get (envelope_fields j) p (codes "data_sources") h refl in rw (a, b, c, d) refl

  -- A request within the strict envelope uses local tools only, so the second test never refuses it.
  pub is_strict_envelope-local :
      (p : List (Text × j.Value)) → is_strict_envelope j p ≡ true → has_local_tools j p ≡ true
  unfolding is_strict_envelope has_local_tools strict_fields
  is_strict_envelope-local p h =
      let a = no_extensions p (ground arith) in
      let b = tools-local (get p (codes "tools")) (ground arith) in
      let c = choice-local (get p (codes "tool_choice")) (ground arith) in rw (a, b, c) refl
