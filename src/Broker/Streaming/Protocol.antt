-- ===== src/Broker/Streaming/Protocol.antt =====
-- crates/tentaflake-broker/src/streaming.rs: `Protocol`, which reads the events of a stream and
-- recognises its end. The accounting's guard is an argument, with the budget that it charges.
use tentaflake.Prelude.{
  and_then, ◌∷◌, is_empty, Bool, lines, some, length, Option, none, trim_start_matches, Result, [],
  false, ◌&&◌, ◌++◌, ltb, ℕ, ok_or, trim, err, list_eq, not, ◌||◌, is_some, codes, List, Text,
  strip_prefix, all, is_some_and, unwrap_or, true, ◌==◌, is_none_or, split_once, from_utf8,
  if◌then◌else◌, ◌>>=◌, ◌>>◌, ok, guard,
}
use tentaflake.Broker.Json.{is_text, is_object, Json, get_key}
use tentaflake.Broker.Budget.Disk.{Os, Codec}
use tentaflake.Broker.Streaming.Sse.{
  no_choices, accounting_unavailable, Failure, invalid_chunk, no_type, not_object, model_mismatch,
  multiple_choices, not_utf8, completion_id_changed, no_finish_reason, no_completion_id, not_json,
  upstream, not_identified, type_mismatch, terminal_status,
}
use tentaflake.Broker.Llm.Usage.{observe_usage, ModelPolicy, provider_model_matches, parse_usage}
use tentaflake.Broker.Budget.Usage.{UsageGuard}
use tentaflake.Broker.Streaming.Deltas.{inspect_choices}
use tentaflake.Broker.Budget.Admission.{System}

pub data Terminal : Type 0 where
  completed failed incomplete : Terminal

pub record Event : Type 0 where
  pub has_data : Bool
  pub terminal : Option Terminal

abbrev pub Usage : Type 0
Usage = ℕ × ℕ × ℕ

pub record Protocol : Type 0 where
  pub responses : Bool
  pub chat_finished : Bool
  pub usage : Option Usage
  pub expected_model : Option Text
  pub completion_id : Option Text
  pub first_frame : Bool

unfoldable pub new_protocol : Bool → Protocol
new_protocol responses = record {
  responses = responses;
  chat_finished = false;
  usage = none;
  expected_model = none;
  completion_id = none;
  first_frame = true;
}

-- A line's field and value.
unfoldable pub field_of : Text → Text × Text
field_of line =
    let (field, value) = unwrap_or (split_once b':' line) (line, []) in
    (field, unwrap_or (strip_prefix (b' ' ∷ []) value) value)

-- The values of the fields `data`, and the last value of `event`.
unfoldable pub collect : List Text → List Text × Option Text
collect [] = ([], none)
collect (line ∷ rest) =
    let (parts, name) = collect rest in
    let (field, value) = field_of line in
    if list_eq field (codes "data")
    then (value ∷ parts, name)
    else if list_eq field (codes "event") && not (is_some name)
    then (parts, some value)
    else (parts, name)

-- `join("\n")`.
abbrev pub join_lines : List Text → Text
join_lines [] = []
join_lines (l ∷ []) = l
join_lines (l ∷ m ∷ ls) = l ++ (10 ∷ join_lines (m ∷ ls))

unfoldable pub read_event : Bool → List ℕ → Result Failure (List Text × Option Text)
read_event first_frame frame = do
  text ← ok_or (from_utf8 frame) (upstream not_utf8)
  ok (collect (lines (if first_frame then trim_start_matches (λ b. b == 0xfeff) text else text)))

abbrev pub ends : Terminal → Event
ends t = record { has_data = true; terminal = some t }

-- The marker that ends a chat.
unfoldable pub inspect_done : Protocol → Result Failure (Event × Protocol)
inspect_done p = do
  guard p.chat_finished (upstream no_finish_reason)
  guard (not (is_some p.expected_model && not (is_some p.completion_id))) (upstream not_identified)
  ok (ends completed, p)

abbrev pub terminal_text : Terminal → Text
terminal_text completed = codes "completed"
terminal_text failed = codes "failed"
terminal_text incomplete = codes "incomplete"

abbrev pub outcome_of : Text → Option Terminal
outcome_of kind =
    if list_eq kind (codes "response.completed")
    then some completed
    else if list_eq kind (codes "response.failed")
    then some failed
    else if list_eq kind (codes "response.incomplete")
    then some incomplete
    else if list_eq kind (codes "error")
    then some failed
    else none

module _ (j : Json) where
  -- `sanitize_usage`.
  abbrev pub sanitize_usage : Option j.Value → Option Usage
  sanitize_usage usage = parse_usage j usage

  -- `pointer("/response/..")`.
  abbrev pub in_response : j.Value → Text → Option j.Value
  in_response v k = and_then (get_key j v (codes "response")) (λ r. get_key j r k)

  -- An event of the Responses route.
  unfoldable pub inspect_response :
      j.Value → Option Text → Protocol → Result Failure (Option Terminal × Protocol)
  inspect_response v name p = do
    kind ← ok_or (and_then (get_key j v (codes "type")) j.as_str) (upstream no_type)
    guard (is_none_or name (λ n. list_eq n kind)) (upstream type_mismatch)
    elim (outcome_of kind) [
      | none ↦ ok (none, p)
      | some t ↦
          if list_eq kind (codes "error")
          then ok (some t, p)
          else if is_text j (in_response v (codes "status")) (terminal_text t)
          then ok (some t, record p { usage = sanitize_usage (in_response v (codes "usage")) })
          else err (upstream terminal_status)
    ]

  -- The model and the completion's identity, where a model is expected.
  unfoldable pub identify : j.Value → Protocol → Result Failure (Option Text)
  identify v p = elim p.expected_model [
    | none ↦ ok p.completion_id
    | some expected ↦ do
      guard
          (is_some_and (and_then (get_key j v (codes "model")) j.as_str)
            (provider_model_matches expected))
          (upstream model_mismatch)
      id ← ok_or (and_then (get_key j v (codes "id")) j.as_str) (upstream no_completion_id)
      guard (not (is_empty (trim id))) (upstream no_completion_id)
      guard (is_none_or p.completion_id (λ previous. list_eq previous id))
          (upstream completion_id_changed)
      ok (some id)
  ]

  -- The usage that a chunk reports, or the one before.
  unfoldable pub chunk_usage : Option j.Value → Option Usage → Option Usage
  chunk_usage none before = before
  chunk_usage (some u) before = if j.is_null u then before else sanitize_usage (some u)

  -- A chunk of a chat.
  unfoldable pub inspect_chunk : j.Value → Protocol → Result Failure Protocol
  inspect_chunk v p = do
    guard (is_text j (get_key j v (codes "object")) (codes "chat.completion.chunk"))
        (upstream invalid_chunk)
    id ← identify v p
    choices ← ok_or (and_then (get_key j v (codes "choices")) j.as_array) (upstream no_choices)
    guard (not (is_some p.expected_model && ltb 1 (length choices))) (upstream multiple_choices)
    finished ← inspect_choices j (is_some p.expected_model) choices p.chat_finished
    ok (record p {
      completion_id = id;
      chat_finished = finished;
      usage = chunk_usage (get_key j v (codes "usage")) p.usage;
    })

  -- A value of either route.
  unfoldable pub inspect_value :
      j.Value → Option Text → Protocol → Result Failure (Option Terminal × Protocol)
  inspect_value v name p =
      if p.responses
      then inspect_response v name p
      else if is_some (get_key j v (codes "error"))
          || is_some_and name (λ n. list_eq n (codes "error"))
      then ok (some failed, p)
      else do q ← inspect_chunk v p; ok (none, q)

  -- The guard of the request's usage, with its model and the budget.
  pub record Accounting : Type 0 where
    pub guards : Option (UsageGuard × ModelPolicy)
    pub system : System

  -- The usage that a value reports is observed before anything else is read of it.
  unfoldable pub account :
      Codec → Os → ℕ → Bool → j.Value → Accounting → Result Failure (Unit {0}) × Accounting
  account c os now responses v a = elim a.guards [
    | none ↦ (ok tt, a)
    | some (g, model) ↦
        let usage =
          if responses then in_response v (codes "usage") else get_key j v (codes "usage") in
        let (observed, g', s) = observe_usage j c os now model usage g a.system in
        let after : Accounting = record { guards = some (g', model); system = s } in
        elim observed [
          | ok _ ↦ (ok tt, after)
          | err _ ↦ (err (record { status = 503; reason = accounting_unavailable }), after)
        ]
  ]

  -- The text of an event that has data.
  unfoldable pub inspect_data :
      Codec
      → Os
      → ℕ
      → Text
      → Option Text
      → Protocol
      → Accounting
      → Result Failure (Event × Protocol) × Accounting
  inspect_data c os now text name p a = elim (j.from_str text) [
    | none ↦ (err (upstream not_json), a)
    | some v ↦
        let (charged, after) = account c os now p.responses v a in
        if not (is_object j v) then (err (upstream not_object), a) else (
          do
            charged
            r ← inspect_value v name p
            ok (record { has_data = true; terminal = r.0 }, r.1),
          after,
        )
  ]

  -- `inspect`.
  unfoldable pub inspect :
      Codec
      → Os
      → ℕ
      → List ℕ
      → Protocol
      → Accounting
      → Result Failure (Event × Protocol) × Accounting
  inspect c os now frame p a =
      let q : Protocol = record p { first_frame = false } in
      elim (read_event p.first_frame frame) [
        | err e ↦ (err e, a)
        | ok (parts, name) ↦
            if all is_empty parts
            then (ok (record { has_data = false; terminal = none }, q), a)
            else if not p.responses && list_eq (join_lines parts) (codes "[DONE]")
            then (inspect_done q, a)
            else inspect_data c os now (join_lines parts) name q a
      ]
