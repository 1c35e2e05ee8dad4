-- ===== src/Broker/Budget/Tests/Streams.antt =====
-- A stream of two events, cut and inspected.
use tentaflake.Broker.Samples.{json}
use tentaflake.Broker.Budget.Tests.{codec, healthy, noon, first_day}
use tentaflake.Broker.Streaming.Sse.{SseParser, feed, new_parser, push, count_byte, end_line}
use tentaflake.Broker.Streaming.Frames.{feed-cut, normalize, flatten, has_blank, IsEvent}
use tentaflake.Broker.Streaming.Deltas.{inspect_choices, valid_chat_delta, finish}
use tentaflake.Broker.Streaming.Protocol.{
  inspect, read_event, field_of, collect, inspect_data, account, inspect_value, inspect_chunk,
  identify, chunk_usage, inspect_done, Protocol, Accounting, new_protocol, inspect, read_event,
  field_of, collect, inspect_data, account, inspect_value,
}
use tentaflake.Broker.Streaming.Endings.{inspects, inspects-completed, AnyFinishes}
use tentaflake.Prelude.{
  from_utf8, refl, true, false, none, [], ◌∷◌, ◌++◌, List, ◌≡◌, ℕ, All, codes, length, ◌≤◌,
  from_utf8,
}

abbrev first_event : List ℕ
first_event = codes "data: chunk" ++ (10 ∷ 10 ∷ [])

abbrev last_event : List ℕ
last_event = codes "data: [DONE]" ++ (10 ∷ 10 ∷ [])

-- The events with other ends of lines, and the start of a third.
abbrev first_bytes : List ℕ
first_bytes = codes "data: chunk" ++ (13 ∷ 10 ∷ 13 ∷ [])

abbrev last_bytes : List ℕ
last_bytes = codes "data: [DONE]" ++ (10 ∷ 10 ∷ codes "id")

abbrev middle : SseParser
middle = (feed (new_parser 64) first_bytes).1

abbrev cut : SseParser
cut = (feed middle last_bytes).1

feed-cut_example :
    (normalize false (first_bytes ++ last_bytes)
      ≡ flatten (first_event ∷ last_event ∷ []) ++ cut.frame)
    × All (IsEvent 64) (first_event ∷ last_event ∷ [])
    × (has_blank 0 cut.frame ≡ false)
    × (length cut.frame ≤ 64)
unfolding feed new_parser push count_byte end_line
feed-cut_example = feed-cut 64 (first_bytes ++ last_bytes) (first_event ∷ last_event ∷ []) cut refl

abbrev accounting : Accounting json
accounting = record { guards = none; system = first_day }

abbrev finished : Protocol
finished = record {
  responses = false;
  chat_finished = true;
  usage = none;
  expected_model = none;
  completion_id = none;
  first_frame = false;
}

inspects-completed_example : AnyFinishes json codec healthy noon (first_event ∷ last_event ∷ [])
unfolding inspects new_protocol inspect read_event field_of collect from_utf8 inspect_data account
    inspect_value inspect_chunk identify chunk_usage inspect_choices inspect_done valid_chat_delta
    finish
inspects-completed_example =
    inspects-completed json codec healthy noon (first_event ∷ last_event ∷ []) none finished
      accounting refl
