-- ===== src/Broker/Streaming/Sse.antt =====
-- crates/tentaflake-broker/src/streaming.rs: `SseParser`, which cuts a stream of bytes into events,
-- and the failures of a stream. A chunk goes through `push` byte by byte.
use tentaflake.Prelude.{
  ◌||◌, ◌==◌, Result, ◌+◌, Bool, ◌&&◌, ◌∷◌, false, some, ℕ, List, [], err, ltb, Option, none, ◌++◌,
  if◌then◌else◌, ok,
}

-- The reasons that the source gives; one constructor for each text.
pub data Reason : Type 0 where
  disconnected deadline client_write audit_unavailable provider_rejected : Reason
  no_client request_failed read_failed not_event_stream response_limit no_terminal : Reason
  event_limit not_utf8 no_finish_reason not_identified not_json not_object : Reason
  accounting_unavailable no_type type_mismatch terminal_status invalid_chunk model_mismatch : Reason
  no_completion_id completion_id_changed no_choices multiple_choices choice_outside : Reason
  invalid_delta invalid_finish_reason : Reason

pub record Failure : Type 0 where
  pub status : ℕ
  pub reason : Reason

abbrev pub upstream : Reason → Failure
upstream reason = record { status = 502; reason = reason }

pub record SseParser : Type 0 where
  pub frame : List ℕ
  pub line_bytes : ℕ
  pub skip_lf : Bool
  pub raw_bytes : ℕ
  pub limit : ℕ

unfoldable pub new_parser : ℕ → SseParser
new_parser limit = record {
  frame = [];
  line_bytes = 0;
  skip_lf = false;
  raw_bytes = 0;
  limit = limit;
}

-- The end of a line: an empty line ends the event.
unfoldable pub end_line : SseParser → ℕ → Result Failure (Option (List ℕ)) × SseParser
end_line p byte =
    let frame = p.frame ++ (10 ∷ []) in
    if p.line_bytes == 0
    then (
      ok (some frame),
      record p { skip_lf = byte == 13; frame = []; line_bytes = 0; raw_bytes = 0 },
    )
    else (ok none, record p { skip_lf = byte == 13; frame = frame; line_bytes = 0 })

-- A byte that is counted.
unfoldable pub count_byte : SseParser → ℕ → Result Failure (Option (List ℕ)) × SseParser
count_byte p byte =
    let counted : SseParser = record p { raw_bytes = p.raw_bytes + 1 } in
    if ltb p.limit (p.raw_bytes + 1)
    then (err (upstream event_limit), counted)
    else if byte == 13 || byte == 10
    then end_line counted byte
    else (ok none, record counted { frame = p.frame ++ (byte ∷ []); line_bytes = p.line_bytes + 1 })

unfoldable pub push : SseParser → ℕ → Result Failure (Option (List ℕ)) × SseParser
push p byte =
    let next : SseParser = record p { skip_lf = false } in
    if p.skip_lf && byte == 10 then (ok none, next) else count_byte next byte

-- The bytes of a chunk, with the frames that they complete, up to the first failure.
unfoldable pub feed : SseParser → List ℕ → Result Failure (List (List ℕ)) × SseParser
feed p [] = (ok [], p)
feed p (byte ∷ bytes) =
    let (pushed, q) = push p byte in
    let (frames, end) = feed q bytes in
    elim pushed [
      | err e ↦ (err e, q)
      | ok none ↦ (frames, end)
      | ok (some f) ↦ (elim frames [ err e ↦ err e | ok fs ↦ ok (f ∷ fs) ], end)
    ]
