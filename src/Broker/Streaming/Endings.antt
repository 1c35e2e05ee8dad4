-- ===== src/Broker/Streaming/Endings.antt =====
-- A chat that ends as completed was finished by one of its chunks, and where a model is expected all
-- of its chunks are of that model and of one completion.
use tentaflake.Broker.Streaming.Protocol.{
  Protocol, Terminal, Accounting, inspect, join_lines, inspect_chunk, read_event, inspect_value,
  Event, inspect_done, completed, identify, inspect_data, new_protocol,
}
use tentaflake.Broker.Streaming.Deltas.{inspect_choices, finish_word, finish}
use tentaflake.Prelude.{
  inr, arith, true, Bool, ◌≡◌, [], ℕ, List, ok, Option, ◌∷◌, err, Result-cases, is_some_and, some,
  codes, inl, Bool-cases, none, ◌⊎◌, Result, and_then, refl, false, Text, Option-cases, ◌∙◌, ◌≢◌,
  is_some, list_eq, ◌||◌, subst, ap, sym, all, is_empty,
}
use tentaflake.Broker.Budget.Disk.{Codec, Os}
use tentaflake.Broker.Json.{Json, get_key}
use tentaflake.Broker.Streaming.Sse.{Failure}

module _ (j : Json) where
  -- The frames of a stream as the relay inspects them, up to the first end.
  unfoldable pub inspects :
      Codec
      → Os
      → ℕ
      → List (List ℕ)
      → Protocol
      → Accounting j
      → Result Failure (Option Terminal × Protocol)
  inspects c os now [] p a = ok (none, p)
  inspects c os now (f ∷ fs) p a =
      let r = inspect j c os now f p a in
      elim r.0 [
        | err e ↦ err e
        | ok (event, q) ↦
            let rest = inspects c os now fs q r.1 in
            elim event.terminal [ some t ↦ ok (some t, q) | none ↦ rest ]
      ]

  -- A choice that names a reason of the list.
  abbrev pub Finishing : j.Value → Type 0
  Finishing choice =
      (r : j.Value) × (get_key j choice (codes "finish_reason") ≡ some r)
      × (is_some_and (j.as_str r) finish_word ≡ true)

  abbrev pub Exists : (j.Value → Type 0) → List j.Value → Type 0
  Exists P [] = ⊥
  Exists P (v ∷ vs) = P v ⊎ Exists P vs

  -- The frame is a chunk with a choice that finishes the completion.
  pub record Finishes (frame : List ℕ) : Type 0 where
    pub first : Bool
    pub parts : List Text
    pub name : Option Text
    pub read : read_event first frame ≡ ok (parts, name)
    pub value : j.Value
    pub value_is : j.from_str (join_lines parts) ≡ some value
    pub choices : List j.Value
    pub choices_are : and_then (get_key j value (codes "choices")) j.as_array ≡ some choices
    pub finishing : Exists Finishing choices

  finish_cases :
      (o : Option j.Value) (b c : Bool)
      → finish j o b ≡ ok c
      → c ≡ true
      → (b ≡ true) ⊎ ((r : j.Value) × (o ≡ some r) × (is_some_and (j.as_str r) finish_word ≡ true))
  unfolding finish
  finish_cases none b c h k = inl (ground arith)
  finish_cases (some v) b c h k = elim (Bool-cases (j.is_null v)) [
    | inl e ↦ inl (ground arith)
    | inr e ↦ inr (v, refl, ground arith)
  ]

  inspect_choices_cases :
      (strict : Bool) (l : List j.Value) (b c : Bool)
      → inspect_choices j strict l b ≡ ok c
      → c ≡ true
      → (b ≡ true) ⊎ Exists Finishing l
  unfolding inspect_choices
  inspect_choices_cases strict [] b c h k = inl (ground arith)
  inspect_choices_cases strict (v ∷ l) b c h k =
      elim (Result-cases (finish j (get_key j v (codes "finish_reason")) b)) [
        | inr (e, q) ↦ absurd (ground arith)
        | inl (m, q) ↦ elim (inspect_choices_cases strict l m c (ground arith) k) [
          | inr later ↦ inr (inr later)
          | inl known ↦ elim (finish_cases (get_key j v (codes "finish_reason")) b m q known) [
            | inl before ↦ inl before
            | inr now ↦ inr (inl now)
          ]
        ]
      ]

  abbrev Chunked : j.Value → Protocol → Protocol → Type 0
  Chunked v p q =
      (l : List j.Value) × (and_then (get_key j v (codes "choices")) j.as_array ≡ some l)
      × (inspect_choices j (is_some p.expected_model) l p.chat_finished ≡ ok q.chat_finished)
      × (identify j v p ≡ ok q.completion_id)
      × (q.expected_model ≡ p.expected_model)
      × (q.responses ≡ p.responses)

  inspect_chunk_facts : (v : j.Value) (p q : Protocol) → inspect_chunk j v p ≡ ok q → Chunked v p q
  unfolding inspect_chunk
  inspect_chunk_facts v p q h = elim (Result-cases (identify j v p)) [
    | inr (e, x) ↦ absurd (ground arith)
    | inl (id, x) ↦ elim (Option-cases (and_then (get_key j v (codes "choices")) j.as_array)) [
      | inl y ↦ absurd (ground arith)
      | inr (l, y) ↦
          elim (Result-cases (inspect_choices j (is_some p.expected_model) l p.chat_finished)) [
            | inr (e, z) ↦ absurd (ground arith)
            | inl (b, z) ↦ (l, y, ground arith, ground arith, ground arith, ground arith)
          ]
    ]
  ]

  -- What one event of a chat leaves.
  record Told (frame : List ℕ) (event : Event) (p q : Protocol) : Type 0 where
    chat : q.responses ≡ false
    expected : q.expected_model ≡ p.expected_model
    ended : event.terminal ≡ some completed → p.chat_finished ≡ true
    finished : q.chat_finished ≡ true → (p.chat_finished ≡ true) ⊎ Finishes frame

  inspect_value-Told :
      (v : j.Value) (name : Option Text) (p q : Protocol) (t : Option Terminal)
      → p.responses ≡ false
      → inspect_value j v name p ≡ ok (t, q)
      → (t ≢ some completed)
        × (q.responses ≡ false)
        × (q.expected_model ≡ p.expected_model)
        × ((q ≡ p) ⊎ Chunked v p q)
  unfolding inspect_value
  inspect_value-Told v name p q t c h =
      elim (Bool-cases (
        is_some (get_key j v (codes "error"))
        || is_some_and name (λ n. list_eq n (codes "error")))) [
          | inl e ↦ (ground arith, ground arith, ground arith, inl (ground arith))
          | inr e ↦ elim (Result-cases (inspect_chunk j v p)) [
            | inr (x, k) ↦ absurd (ground arith)
            | inl (r, k) ↦
                let same : r ≡ q = ground arith in
                let w =
                  subst (λ (y : Protocol). Chunked v p y) same (inspect_chunk_facts v p r k) in
                (ground arith, w.5 ∙ c, w.4, inr w)
          ]
        ]

  module _ (cd : Codec) (os : Os) (now : ℕ) where
    inspect-Told :
        (frame : List ℕ) (p q : Protocol) (event : Event) (a : Accounting j)
        → p.responses ≡ false
        → (inspect j cd os now frame p a).0 ≡ ok (event, q)
        → Told frame event p q
    unfolding inspect inspect_done inspect_data
    inspect-Told frame p q event a c h = elim (Result-cases (read_event p.first_frame frame)) [
      | inr (e, k) ↦ absurd (ground arith)
      | inl ((parts, name), k) ↦ elim (Bool-cases (all is_empty parts)) [
        | inl no_data ↦ record {
          chat = ground arith;
          expected = ground arith;
          ended = λ x. ground arith;
          finished = λ x. inl (ground arith);
        }
        | inr some_data ↦ elim (Bool-cases (list_eq (join_lines parts) (codes "[DONE]"))) [
          | inl done ↦ record {
            chat = ground arith;
            expected = ground arith;
            ended = λ x. ground arith;
            finished = λ x. inl (ground arith);
          }
          | inr more ↦ elim (Option-cases (j.from_str (join_lines parts))) [
            | inl n ↦ absurd (ground arith)
            | inr (v, n) ↦ value_Told parts name v k n (ground arith)
          ]
        ]
      ]
    ]
      where
        value_Told :
            (parts : List Text) (name : Option Text) (v : j.Value)
            → read_event p.first_frame frame ≡ ok (parts, name)
            → j.from_str (join_lines parts) ≡ some v
            → (inspect_data j cd os now
                (join_lines parts)
                name
                (record p { first_frame = false })
                a).0
              ≡ ok (event, q)
            → Told frame event p q
        value_Told parts name v k n d =
            let r : Protocol = record p { first_frame = false } in
            elim (Result-cases (inspect_value j v name r)) [
              | inr (e, z) ↦ absurd (ground arith)
              | inl ((t, u), z) ↦
                  let w = inspect_value-Told v name r u t c z in
                  let same : u ≡ q = ground arith in
                  let term : event.terminal ≡ t = ground arith in
                  record {
                    chat = ground (arith, w.1);
                    expected = ground (arith, w.2);
                    ended = λ x. absurd (w.0 (sym term ∙ x));
                    finished = λ x. elim w.3 [
                      | inl kept ↦ inl (ground arith)
                      | inr (l, ls, f, _, _, _) ↦
                          elim (inspect_choices_cases (is_some p.expected_model) l p.chat_finished
                            u.chat_finished f (ap (λ (y : Protocol). y.chat_finished) same ∙ x)) [
                              | inl before ↦ inl before
                              | inr now_finishes ↦ inr (record {
                                first = p.first_frame;
                                parts = parts;
                                name = name;
                                read = k;
                                value = v;
                                value_is = n;
                                choices = l;
                                choices_are = ls;
                                finishing = now_finishes;
                              })
                            ]
                    ];
                  }
            ]

    abbrev pub AnyFinishes : List (List ℕ) → Type 0
    AnyFinishes [] = ⊥
    AnyFinishes (f ∷ fs) = Finishes f ⊎ AnyFinishes fs

    inspects_completed :
        (frames : List (List ℕ)) (p q : Protocol) (a : Accounting j)
        → p.responses ≡ false
        → inspects cd os now frames p a ≡ ok (some completed, q)
        → (p.chat_finished ≡ true) ⊎ AnyFinishes frames
    unfolding inspects
    inspects_completed [] p q a c h = absurd (ground arith)
    inspects_completed (f ∷ fs) p q a c h = elim (Result-cases (inspect j cd os now f p a).0) [
      | inr (e, k) ↦ absurd (ground arith)
      | inl ((event, m), k) ↦
          let w = inspect-Told f p m event a c k in
          elim (Option-cases event.terminal) [
            | inr (t, e) ↦ inl (w.ended (ground arith))
            | inl e ↦
                elim (inspects_completed fs m q (inspect j cd os now f p a).1 w.chat
                  (ground arith)) [
                    | inr later ↦ inr (inr later)
                    | inl before ↦ elim (w.finished before) [
                      | inl known ↦ inl known
                      | inr here ↦ inr (inl here)
                    ]
                  ]
          ]
    ]

    -- A chat that is reported as completed had a chunk in which a choice gave a reason to finish,
    -- whatever model was expected and whatever its accounting did.
    pub inspects-completed :
        (frames : List (List ℕ)) (expected : Option Text) (q : Protocol) (a : Accounting j)
        → inspects cd os now frames (record (new_protocol false) { expected_model = expected }) a
          ≡ ok (some completed, q)
        → AnyFinishes frames
    unfolding new_protocol
    inspects-completed frames expected q a h =
        elim (inspects_completed frames (record (new_protocol false) { expected_model = expected })
          q a refl h) [ inl started ↦ absurd (ground arith) | inr found ↦ found ]
