-- ===== src/Broker/Llm/Completion.antt =====
-- crates/tentaflake-broker/src/broker.rs: what a response of a provider shows,
-- `complete_chat_response` and `nonstream_activity_outcome`.
use tentaflake.Prelude.{
  is_none_or, ◌==◌, is_empty, false, some, Text, List, ◌&&◌, none, Bool, get, ◌||◌, ◌∷◌, list_eq,
  [], leb, is_some, and_then, ℕ, Option, not, codes, if◌then◌else◌, is_some_and,
}
use tentaflake.Broker.Json.{get_key, Json, is_string, is_u64, is_array, is_text}
use tentaflake.Broker.Llm.Envelope.{text_content, valid_calls}
use tentaflake.Integrations.Grants.{route}
use tentaflake.Broker.Llm.Usage.{provider_model_matches}

-- `tentaflake_activity::Outcome`.
pub data Outcome : Type 0 where
  succeeded failed uncertain denied : Outcome

module _ (j : Json) where
  -- The message of the one choice.
  unfoldable pub complete_message : List (Text × j.Value) → Option j.Value → Bool
  complete_message message finish =
      let calls : Option j.Value = elim (get message (codes "tool_calls")) [
        | none ↦ none
        | some v ↦ if j.is_null v then none else some v
      ] in
      let valid = is_some_and calls (valid_calls j) in
      let content =
        is_none_or (get message (codes "content")) (λ v. j.is_null v || text_content j v) in
      let refusal =
        is_none_or (get message (codes "refusal")) (λ v. j.is_null v || is_string j v) in
      is_text j (get message (codes "role")) (codes "assistant")
      && not (is_some calls && not valid)
      && elim (and_then finish j.as_str) [
        | none ↦ false
        | some reason ↦
            if list_eq reason (codes "tool_calls")
            then valid
            else (list_eq reason (codes "stop")
                || list_eq reason (codes "length")
                || list_eq reason (codes "content_filter"))
              && content
              && refusal
      ]

  unfoldable pub complete_choices : List j.Value → Bool
  complete_choices [] = false
  complete_choices (choice ∷ []) =
      is_u64 j (get_key j choice (codes "index")) 0
      && is_some_and (and_then (get_key j choice (codes "message")) j.as_object)
          (λ message. complete_message message (get_key j choice (codes "finish_reason")))
  complete_choices (choice ∷ other ∷ more) = false

  abbrev pub names_model : j.Value → Text → Bool
  names_model v requested =
      is_some_and (and_then (get_key j v (codes "model")) j.as_str)
        (provider_model_matches requested)

  abbrev pub has_id : j.Value → Bool
  has_id v = is_some_and (and_then (get_key j v (codes "id")) j.as_str) (λ id. not (is_empty id))

  unfoldable pub complete_chat_response : j.Value → Text → Bool
  complete_chat_response v requested =
      is_text j (get_key j v (codes "object")) (codes "chat.completion")
      && names_model v requested
      && has_id v
      && not (is_some (get_key j v (codes "error")))
      && is_some_and (and_then (get_key j v (codes "choices")) j.as_array) complete_choices

  -- The outcome of a value of the Responses route.
  unfoldable pub response_outcome : j.Value → Text → Outcome
  response_outcome v requested =
      let status = get_key j v (codes "status") in
      if not (is_text j (get_key j v (codes "object")) (codes "response"))
        || not (has_id v)
        || not (names_model v requested)
      then uncertain
      else if is_text j status (codes "completed")
          && is_some_and (get_key j v (codes "output")) (is_array j)
          && is_none_or (get_key j v (codes "error")) j.is_null
      then succeeded
      else if is_text j status (codes "failed")
      then failed
      else uncertain

  unfoldable pub nonstream_activity_outcome : Text → ℕ → Option j.Value → Text → Outcome
  nonstream_activity_outcome route status value requested =
      if leb 300 status then failed else if not (status == 200) then uncertain else elim value [
        | none ↦ uncertain
        | some v ↦
            if list_eq route (codes "/v1/chat/completions")
            then if complete_chat_response v requested then succeeded else uncertain
            else response_outcome v requested
      ]
