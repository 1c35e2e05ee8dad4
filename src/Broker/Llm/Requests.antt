-- ===== src/Broker/Llm/Requests.antt =====
-- crates/tentaflake-broker/src/broker.rs: what `handle_llm` checks of a request and computes for it
-- before it reserves its budget, and `require_post_and_auth` and `provider_session`.
use Prim.Native.String.{String}
use tentaflake.Prelude.{
  Text, eq_ignore_ascii_case, Bool, ◌&&◌, Result, some, err, not, is_some_and, none, codes, all,
  strip_prefix, trim, text_len, and_then, list_eq, checked_add, [], is_some, List, ltb,
  contains_key, ok_or, is_none_or, get, first_part, put, length, ◌||◌, ◌∷◌, is_empty,
  is_alphanumeric, false, Option, ◌==◌, ℕ, if◌then◌else◌, ◌>>=◌, ◌>>◌, ok, guard,
}
use tentaflake.Broker.Json.{is_u64, is_bool, Json}
use tentaflake.Broker.Llm.Usage.{ModelPolicy, conservative_input_tokens, estimate_cost}
use tentaflake.Broker.Llm.Envelope.{has_local_tools, is_strict_envelope}
use tentaflake.Broker.Config.{LlmPolicy}

pub record Request : Type 0 where
  pub method : Text
  pub path : Text
  pub headers : List (Text × Text)
  pub body : List ℕ

-- A failure's status, its kind and the text that the client is shown.
pub record Failure : Type 0 where
  pub status : ℕ
  pub kind : Text
  pub public : Text

abbrev pub failure : ℕ → String → String → Failure
failure status kind public = record { status = status; kind = codes kind; public = codes public }

unfoldable pub route_without_query : Text → Text
route_without_query path = first_part b'?' path

unfoldable pub provider_session : Request → Result Failure (Option Text)
provider_session r = elim (get r.headers (codes "x-opencode-session")) [
  | none ↦ ok none
  | some session ↦
      if is_empty session
        || ltb 128 (text_len session)
        || not (
            all (λ b. is_alphanumeric b || b == b'_' || b == b'.' || b == b':' || b == b'-')
              session)
      then err (failure 400 "llm" "invalid provider session header")
      else ok (some session)
]

-- `require_post_and_auth`, where `read_secret` gave the token or failed. What `constant_time_eq`
-- compares are the bytes of the two texts.
unfoldable pub require_post_and_auth :
    (List ℕ → List ℕ → Bool) → (Text → List ℕ) → Option Text → Request → Result Failure (Unit {0})
require_post_and_auth constant_time_eq as_bytes secret r = do
  guard (list_eq r.method (codes "POST")) (failure 405 "request" "only POST is accepted")
  expected ← ok_or secret (failure 503 "auth" "broker credential is unavailable")
  supplied ←
      ok_or (and_then (get r.headers (codes "authorization")) (strip_prefix (codes "Bearer ")))
        (failure 401 "auth" "bearer credential is required")
  guard (constant_time_eq (as_bytes supplied) (as_bytes expected))
      (failure 401 "auth" "bearer credential is invalid")
  guard
      (is_some_and (get r.headers (codes "content-type"))
        (λ v. eq_ignore_ascii_case (trim (first_part b';' v)) (codes "application/json")))
      (failure 400 "request" "content-type must be application/json")

abbrev pub chat_route : Text
chat_route = codes "/v1/chat/completions"

abbrev pub responses_route : Text
responses_route = codes "/v1/responses"

-- The route and the session of a request.
unfoldable pub check_route : LlmPolicy → Request → Result Failure (Text × Option Text)
check_route policy r = do
  let route = route_without_query r.path
  guard (list_eq route chat_route || list_eq route responses_route)
      (failure 404 "llm" "route is not allowed")
  session ← provider_session r
  guard (not (policy.strict_cost_envelope && not (list_eq route chat_route)))
      (failure 404 "llm" "route is not allowed in strict cost mode")
  guard (not (policy.strict_cost_envelope && is_some session))
      (failure 400 "llm" "session affinity is not allowed in strict cost mode")
  ok (route, session)

-- `allowed_models.iter().find(..)`.
unfoldable pub find_model : Text → List ModelPolicy → Option ModelPolicy
find_model name [] = none
find_model name (m ∷ ms) =
    let rest = find_model name ms in if list_eq m.name name then some m else rest

abbrev pub min : ℕ → ℕ → ℕ
min a b = if ltb b a then b else a

module _ (j : Json) where
  abbrev pub Members : Type 0
  Members = List (Text × j.Value)

  -- What is sent on, and what is reserved for it.
  pub record Plan : Type 0 where
    pub route : Text
    pub session : Option Text
    pub streaming : Bool
    pub model : ModelPolicy
    pub payload : Members
    pub token_field : Text
    pub completion_tokens : ℕ
    pub tokens : ℕ
    pub cost : ℕ

  -- The members of the body, within the envelope of the policy.
  unfoldable pub check_payload : LlmPolicy → Request → Result Failure Members
  check_payload policy r = do
    v ← ok_or (j.from_slice r.body) (failure 400 "llm" "request body is not valid JSON")
    m ← ok_or (j.as_object v) (failure 400 "llm" "request body must be a JSON object")
    guard (not policy.strict_cost_envelope || is_strict_envelope j m)
        (failure 400 "llm" "request is outside the strict cost envelope")
    guard (has_local_tools j m) (
        failure 403 "llm"
          "provider tools and extensions are disabled; use secure-research-tool for web access")
    ok m

  -- Whether the response is a stream.
  unfoldable pub streams : LlmPolicy → Text → Members → Result Failure Bool
  streams policy route m = do
    streaming ← elim (get m (codes "stream")) [
      | none ↦ ok false
      | some v ↦ ok_or (j.as_bool v) (failure 400 "llm" "stream must be a boolean")
    ]
    guard (not (streaming && not policy.streaming.enable))
        (failure 400 "llm" "streaming is disabled")
    guard
        (not (
          (streaming || list_eq route chat_route)
          && not (is_none_or (get m (codes "n")) (λ n. is_u64 j (some n) 1))))
        (failure 400 "llm" "request requires one completion choice")
    guard
        (not (streaming && not (is_none_or (get m (codes "background")) (λ v. is_bool j v false))))
        (failure 400 "llm" "background streaming is not allowed")
    ok streaming

  -- The field that limits the completion.
  unfoldable pub limit_field : Text → Members → Result Failure Text
  limit_field route m =
      if list_eq route responses_route
      then ok (codes "max_output_tokens")
      else if contains_key m (codes "max_completion_tokens")
      then if contains_key m (codes "max_tokens")
        then err (failure 400 "llm" "use only one completion-token limit")
        else ok (codes "max_completion_tokens")
      else ok (codes "max_tokens")

  unfoldable pub completion_limit : LlmPolicy → Text → Members → Result Failure ℕ
  completion_limit policy field m = elim (get m field) [
    | none ↦ ok policy.max_completion_tokens
    | some v ↦ do
      n ← ok_or (j.as_u64 v) (failure 400 "llm" "completion-token limit must be an integer")
      ok (min n policy.max_completion_tokens)
  ]

  -- What is reserved: all bytes of the body as tokens, and the whole completion.
  unfoldable pub reserve_for : ModelPolicy → ℕ → ℕ → Result Failure (ℕ × ℕ)
  reserve_for model body completion = do
    let input = conservative_input_tokens body
    tokens ←
        ok_or (checked_add input completion) (failure 400 "llm" "token reservation is too large")
    cost ←
        ok_or (estimate_cost model input completion)
          (failure 400 "llm" "cost reservation is too large")
    ok (tokens, cost)

  -- `handle_llm` up to its reservation.
  unfoldable pub plan : LlmPolicy → Request → Result Failure Plan
  plan policy r = do
    routed ← check_route policy r
    m ← check_payload policy r
    streaming ← streams policy routed.0 m
    name ← ok_or (and_then (get m (codes "model")) j.as_str) (failure 400 "llm" "model is required")
    model ← ok_or (find_model name policy.allowed_models) (failure 403 "llm" "model is not allowed")
    field ← limit_field routed.0 m
    completion ← completion_limit policy field m
    guard (not (completion == 0)) (failure 400 "llm" "completion-token limit must be positive")
    reserved ← reserve_for model (length r.body) completion
    ok (record {
      route = routed.0;
      session = routed.1;
      streaming = streaming;
      model = model;
      payload = put field (j.number completion) m;
      token_field = field;
      completion_tokens = completion;
      tokens = reserved.0;
      cost = reserved.1;
    })
