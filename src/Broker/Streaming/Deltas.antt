-- ===== src/Broker/Streaming/Deltas.antt =====
-- crates/tentaflake-broker/src/streaming.rs: `valid_chat_delta` and what a choice of a chunk may hold.
use tentaflake.Prelude.{
  list_eq, Option, ◌∷◌, codes, none, is_some, ◌&&◌, ◌||◌, Result, err, Bool, not, get, [], true,
  all, Text, ok, and_then, is_none_or, List, some, if◌then◌else◌, ◌>>=◌, ◌>>◌, is_some_and, guard,
}
use tentaflake.Broker.Json.{is_object, Json, is_text, is_string, is_u64, get_key}
use tentaflake.Broker.Streaming.Sse.{
  invalid_delta, Failure, invalid_finish_reason, upstream, choice_outside,
}

-- The reasons that finish a completion.
abbrev pub finish_word : Text → Bool
finish_word s =
    list_eq s (codes "stop")
    || list_eq s (codes "length")
    || list_eq s (codes "tool_calls")
    || list_eq s (codes "content_filter")
    || list_eq s (codes "function_call")

module _ (j : Json) where
  -- `is_none_or(|value| value.is_null() || value.is_string())`.
  abbrev pub null_or_string : Option j.Value → Bool
  null_or_string o = is_none_or o (λ v. j.is_null v || is_string j v)

  unfoldable pub valid_function_delta : j.Value → Bool
  valid_function_delta v =
      is_some_and (j.as_object v)
        (λ f. null_or_string (get f (codes "name")) && null_or_string (get f (codes "arguments")))

  unfoldable pub valid_call_delta : j.Value → Bool
  valid_call_delta call =
      is_object j call
      && is_some (and_then (get_key j call (codes "index")) j.as_u64)
      && null_or_string (get_key j call (codes "id"))
      && is_none_or (get_key j call (codes "type"))
          (λ kind. j.is_null kind || is_text j (some kind) (codes "function"))
      && is_none_or (get_key j call (codes "function")) (λ f. j.is_null f || valid_function_delta f)

  unfoldable pub valid_chat_delta : j.Value → Bool
  valid_chat_delta v = is_some_and (j.as_object v) (λ delta.
      is_none_or (get delta (codes "role"))
        (λ role. j.is_null role || is_text j (some role) (codes "assistant"))
      && null_or_string (get delta (codes "content"))
      && null_or_string (get delta (codes "refusal"))
      && is_none_or (get delta (codes "tool_calls"))
          (λ calls. j.is_null calls || is_some_and (j.as_array calls) (all valid_call_delta))
      && is_none_or (get delta (codes "function_call"))
          (λ call. j.is_null call || valid_function_delta call))

  -- Whether the completion is finished once the choice's reason was read.
  unfoldable pub finish : Option j.Value → Bool → Result Failure Bool
  finish none finished = ok finished
  finish (some v) finished =
      if j.is_null v
      then ok finished
      else if is_some_and (j.as_str v) finish_word
      then ok true
      else err (upstream invalid_finish_reason)

  -- The loop over the choices.
  unfoldable pub inspect_choices : Bool → List j.Value → Bool → Result Failure Bool
  inspect_choices strict [] finished = ok finished
  inspect_choices strict (choice ∷ choices) finished = do
    guard (is_u64 j (get_key j choice (codes "index")) 0) (upstream choice_outside)
    guard (not (strict && not (is_some_and (get_key j choice (codes "delta")) valid_chat_delta)))
        (upstream invalid_delta)
    next ← finish (get_key j choice (codes "finish_reason")) finished
    inspect_choices strict choices next
