-- ===== src/Broker/Llm/Tests.antt =====
-- The theorems on costs, envelopes and plans at a request of one message.
use tentaflake.Broker.Samples.{json, small, policy, request, payload}
use tentaflake.Broker.Llm.Costs.{estimate_cost-Covers, Covers, price}
use tentaflake.Broker.Llm.Usage.{estimate_cost, conservative_input_tokens}
use tentaflake.Broker.Llm.Locality.{is_strict_envelope-local}
use tentaflake.Broker.Llm.Envelope.{
  has_local_tools, is_strict_envelope, strict_fields, strict_message, strict_message_of,
  message_keys, text_content, nonempty_string, object_with_keys,
}
use tentaflake.Broker.Llm.Plans.{plan-Planned, Planned}
use tentaflake.Broker.Llm.Requests.{
  Plan, plan, check_route, check_payload, streams, find_model, limit_field, completion_limit,
  reserve_for, route_without_query, provider_session,
}
use tentaflake.Broker.Llm.Authorized.{require_post_and_auth-Authorized, Authorized}
use tentaflake.Broker.Secrets.{constant_time_eq, differences}
use tentaflake.Broker.Secrets.Equality.{constant_time_eq-list_eq}
use tentaflake.Broker.Llm.Requests.{Request, require_post_and_auth}
use tentaflake.Prelude.{some, [], ◌∷◌, refl, true, ok, ◌≡◌, codes, none, false, put, list_eq}

estimate_cost-Covers_example : Covers (price small 20 400) (estimate_cost small 20 400)
estimate_cost-Covers_example = estimate_cost-Covers small 20 400

is_strict_envelope-local_example : has_local_tools json payload ≡ true
unfolding is_strict_envelope strict_fields strict_message strict_message_of message_keys
    text_content nonempty_string object_with_keys
is_strict_envelope-local_example = is_strict_envelope-local json payload refl

-- The plan of the request.
abbrev pub planned : Plan json
planned = record {
  route = codes "/v1/chat/completions";
  session = none;
  streaming = false;
  model = small;
  payload = put (codes "max_tokens") (json.number 400) payload;
  token_field = codes "max_tokens";
  completion_tokens = 400;
  tokens = 421;
  cost = 821;
}

pub is_planned : plan json policy request ≡ ok planned
unfolding plan check_route check_payload streams find_model limit_field completion_limit reserve_for
    route_without_query provider_session is_strict_envelope strict_fields strict_message
    strict_message_of message_keys text_content nonempty_string object_with_keys has_local_tools
    estimate_cost conservative_input_tokens
is_planned = refl

plan-Planned_example : Planned json policy request planned
plan-Planned_example = plan-Planned json policy request planned is_planned

-- A request with a token.
abbrev signed : Request
signed = record {
  method = codes "POST";
  path = codes "/v1/chat/completions";
  headers =
      (codes "authorization", codes "Bearer t0ken")
      ∷ (codes "content-type", codes "application/json; charset=utf-8")
      ∷ [];
  body = [];
}

constant_time_eq-list_eq_example :
    constant_time_eq (codes "t0ken") (codes "t0ke") ≡ list_eq (codes "t0ken") (codes "t0ke")
constant_time_eq-list_eq_example = constant_time_eq-list_eq (codes "t0ken") (codes "t0ke")

require_post_and_auth-Authorized_example : Authorized (λ s. s) (some (codes "t0ken")) signed
unfolding require_post_and_auth constant_time_eq differences
require_post_and_auth-Authorized_example =
    require_post_and_auth-Authorized (λ s. s) (some (codes "t0ken")) signed refl
