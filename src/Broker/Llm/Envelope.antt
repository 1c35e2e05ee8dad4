-- ===== src/Broker/Llm/Envelope.antt =====
-- crates/tentaflake-broker/src/broker.rs: what a request may ask of a provider,
-- `require_strict_envelope` and `require_local_tools`, and what its parts may hold.
use tentaflake.Prelude.{
  contains, any, contains_key, ◌∷◌, ◌||◌, none, List, false, keys, is_some, true, Text, list_eq,
  some, Bool, codes, [], ◌&&◌, Option, is_empty, get, is_none_or, if◌then◌else◌, and_then,
  is_some_and, all, not,
}
use tentaflake.Broker.Json.{
  is_text, is_boolean, Json, is_u64, is_string, get_key, is_bool, is_object,
}

module _ (j : Json) where
  -- `object_with_keys`.
  unfoldable pub object_with_keys : List Text → j.Value → Option (List (Text × j.Value))
  object_with_keys allowed v =
      and_then (j.as_object v) (λ m. if all (contains allowed) (keys m) then some m else none)

  unfoldable pub nonempty_string : Option j.Value → Bool
  nonempty_string o = is_some_and (and_then o j.as_str) (λ s. not (is_empty s))

  -- A part of a text.
  unfoldable pub text_part : j.Value → Bool
  text_part part = is_some_and (object_with_keys (codes "type" ∷ codes "text" ∷ []) part) (λ m.
      is_text j (get m (codes "type")) (codes "text")
      && is_some_and (get m (codes "text")) (is_string j))

  unfoldable pub text_content : j.Value → Bool
  text_content v = is_string j v || is_some_and (j.as_array v) (all text_part)

  unfoldable pub strict_tool_call : j.Value → Bool
  strict_tool_call v =
      is_some_and (object_with_keys (codes "id" ∷ codes "type" ∷ codes "function" ∷ []) v) (λ call.
        nonempty_string (get call (codes "id"))
        && is_text j (get call (codes "type")) (codes "function")
        && is_some_and
            (and_then (get call (codes "function"))
              (object_with_keys (codes "name" ∷ codes "arguments" ∷ [])))
            (λ f.
              nonempty_string (get f (codes "name"))
              && is_some_and (get f (codes "arguments")) (is_string j)))

  unfoldable pub strict_tool : j.Value → Bool
  strict_tool v = is_some_and (object_with_keys (codes "type" ∷ codes "function" ∷ []) v) (λ tool.
      is_text j (get tool (codes "type")) (codes "function")
      && is_some_and
          (and_then (get tool (codes "function")) (
            object_with_keys
              (codes "name" ∷ codes "description" ∷ codes "parameters" ∷ codes "strict" ∷ [])))
          (λ f.
            nonempty_string (get f (codes "name"))
            && is_none_or (get f (codes "description")) (is_string j)
            && is_none_or (get f (codes "parameters")) (is_object j)
            && is_none_or (get f (codes "strict")) (is_boolean j)))

  -- The keys that a message of a role may have.
  unfoldable pub message_keys : Text → Option (List Text)
  message_keys role =
      if list_eq role (codes "system")
        || list_eq role (codes "developer")
        || list_eq role (codes "user")
      then some (codes "role" ∷ codes "content" ∷ codes "name" ∷ [])
      else if list_eq role (codes "assistant")
      then some (codes "role" ∷ codes "content" ∷ codes "name" ∷ codes "tool_calls" ∷ [])
      else if list_eq role (codes "tool")
      then some (codes "role" ∷ codes "content" ∷ codes "tool_call_id" ∷ [])
      else none

  unfoldable pub valid_calls : j.Value → Bool
  valid_calls calls =
      is_some_and (j.as_array calls) (λ l. not (is_empty l) && all strict_tool_call l)

  -- A message of a role that is known.
  unfoldable pub strict_message_of : Text → List Text → List (Text × j.Value) → Bool
  strict_message_of role allowed m =
      let calls = get m (codes "tool_calls") in
      all (contains allowed) (keys m)
      && is_none_or (get m (codes "name")) (λ name. nonempty_string (some name))
      && not (list_eq role (codes "tool") && not (nonempty_string (get m (codes "tool_call_id"))))
      && is_none_or calls valid_calls
      && elim (get m (codes "content")) [
        | none ↦ list_eq role (codes "assistant") && is_some calls
        | some content ↦
            if j.is_null content
            then list_eq role (codes "assistant") && is_some calls
            else text_content content
      ]

  unfoldable pub strict_message : j.Value → Bool
  strict_message v = is_some_and (j.as_object v) (λ m.
      is_some_and (and_then (get m (codes "role")) j.as_str)
        (λ role. is_some_and (message_keys role) (λ allowed. strict_message_of role allowed m)))

  abbrev pub envelope_fields : List Text
  envelope_fields =
      codes "model"
      ∷ codes "messages"
      ∷ codes "tools"
      ∷ codes "tool_choice"
      ∷ codes "stream"
      ∷ codes "stream_options"
      ∷ codes "max_tokens"
      ∷ codes "max_completion_tokens"
      ∷ codes "n"
      ∷ codes "temperature"
      ∷ codes "top_p"
      ∷ codes "stop"
      ∷ codes "parallel_tool_calls"
      ∷ []

  -- The first test of `require_strict_envelope`, negated.
  unfoldable pub strict_fields : List (Text × j.Value) → Bool
  strict_fields p =
      all (contains envelope_fields) (keys p)
      && is_none_or (get p (codes "n")) (λ n. is_u64 j (some n) 1)
      && not (contains_key p (codes "max_tokens") && contains_key p (codes "max_completion_tokens"))
      && is_none_or (get p (codes "parallel_tool_calls")) (λ v. is_bool j v false)
      && is_none_or (get p (codes "stream")) (is_boolean j)
      && is_none_or (get p (codes "temperature")) j.is_number
      && is_none_or (get p (codes "top_p")) j.is_number

  unfoldable pub stream_options : j.Value → Bool
  stream_options v =
      is_some_and (object_with_keys (codes "include_usage" ∷ []) v)
        (λ m. is_none_or (get m (codes "include_usage")) (is_boolean j))

  unfoldable pub stop_sequences : j.Value → Bool
  stop_sequences v = is_string j v || is_some_and (j.as_array v) (all (is_string j))

  abbrev pub choice_word : Text → Bool
  choice_word s =
      list_eq s (codes "auto") || list_eq s (codes "none") || list_eq s (codes "required")

  unfoldable pub tool_choice : j.Value → Bool
  tool_choice v = elim (j.as_str v) [
    | some s ↦ choice_word s
    | none ↦ is_some_and (object_with_keys (codes "type" ∷ codes "function" ∷ []) v) (λ choice.
        is_text j (get choice (codes "type")) (codes "function")
        && is_some_and
            (and_then (get choice (codes "function")) (object_with_keys (codes "name" ∷ [])))
            (λ f. nonempty_string (get f (codes "name"))))
  ]

  -- `require_strict_envelope`: whether the request is within the envelope.
  unfoldable pub is_strict_envelope : List (Text × j.Value) → Bool
  is_strict_envelope p =
      strict_fields p
      && is_none_or (get p (codes "stream_options")) stream_options
      && is_none_or (get p (codes "stop")) stop_sequences
      && is_some_and (and_then (get p (codes "messages")) j.as_array)
          (λ l. not (is_empty l) && all strict_message l)
      && is_none_or (get p (codes "tools"))
          (λ tools. is_some_and (j.as_array tools) (all strict_tool))
      && is_none_or (get p (codes "tool_choice")) tool_choice

  abbrev pub local_tool : j.Value → Bool
  local_tool tool =
      is_text j (get_key j tool (codes "type")) (codes "function")
      || is_text j (get_key j tool (codes "type")) (codes "custom")

  abbrev pub local_tools : j.Value → Bool
  local_tools tools = is_some_and (j.as_array tools) (all local_tool)

  abbrev pub extension_fields : List Text
  extension_fields =
      codes "web_search_options" ∷ codes "plugins" ∷ codes "extensions" ∷ codes "data_sources" ∷ []

  unfoldable pub local_choice : j.Value → Bool
  local_choice v = if j.is_null v then true else elim (j.as_str v) [
    | some s ↦ choice_word s
    | none ↦
        is_object j v
        && (local_tool v
            || (is_text j (get_key j v (codes "type")) (codes "allowed_tools")
                && is_some_and (get_key j v (codes "tools")) local_tools))
  ]

  -- `require_local_tools`: whether the request keeps to tools of the client.
  unfoldable pub has_local_tools : List (Text × j.Value) → Bool
  has_local_tools p =
      not (any (contains_key p) extension_fields)
      && is_none_or (get p (codes "tools")) local_tools
      && is_none_or (get p (codes "tool_choice")) local_choice
