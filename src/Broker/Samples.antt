-- ===== src/Broker/Samples.antt =====
-- Values of JSON with the operations that the broker uses, a policy and a request, for the tests.
use tentaflake.Prelude.{
  if◌then◌else◌, is_empty, is_some, true, false, some, none, [], ◌∷◌, refl, ap, Bool, List, Option,
  codes, ℕ, Text, ◌≡◌,
}
use tentaflake.Broker.Json.{Json}
use tentaflake.Broker.Config.{LlmPolicy}
use tentaflake.Broker.Llm.Requests.{Request}
use tentaflake.Broker.Llm.Usage.{ModelPolicy}

mutual
  pub data Value : Type 0 where
    null : Value
    boolean : Bool → Value
    number : ℕ → Value
    string : Text → Value
    array : Values → Value
    dict : Members → Value

  pub data Values : Type 0 where
    nil : Values
    item : Value → Values → Values

  pub data Members : Type 0 where
    empty : Members
    member : Text → Value → Members → Members

abbrev pub values : Values → List Value
values nil = []
values (item v vs) = v ∷ values vs

abbrev pub members : Members → List (Text × Value)
members empty = []
members (member k v m) = (k, v) ∷ members m

abbrev pub of_members : List (Text × Value) → Members
of_members [] = empty
of_members ((k, v) ∷ m) = member k v (of_members m)

pub members-of_members : (m : List (Text × Value)) → members (of_members m) ≡ m
members-of_members [] = refl
members-of_members ((k, v) ∷ m) = ap (λ rest. (k, v) ∷ rest) (members-of_members m)

abbrev pub object_of : Value → Option (List (Text × Value))
object_of (dict m) = some (members m)
object_of _ = none

abbrev pub array_of : Value → Option (List Value)
array_of (array vs) = some (values vs)
array_of _ = none

abbrev pub str_of : Value → Option Text
str_of (string s) = some s
str_of _ = none

abbrev pub number_of : Value → Option ℕ
number_of (number n) = some n
number_of _ = none

abbrev pub bool_of : Value → Option Bool
bool_of (boolean b) = some b
bool_of _ = none

abbrev pub null_test : Value → Bool
null_test null = true
null_test _ = false

-- A request to one model, in the strict envelope.
abbrev pub payload : List (Text × Value)
payload =
    (codes "model", string (codes "small"))
    ∷ (
      codes "messages",
      array (
          item
            (dict (
              member (codes "role") (string (codes "user"))
                (member (codes "content") (string (codes "hello")) empty)))
            nil),
    )
    ∷ []

-- A chunk that finishes a completion.
abbrev pub chunk : Value
chunk = dict (
    member (codes "object") (string (codes "chat.completion.chunk")) (
      member (codes "choices")
        (array (
          item
            (dict (
              member (codes "index") (number 0) (
                member (codes "delta") (dict empty)
                  (member (codes "finish_reason") (string (codes "stop")) empty))))
            nil))
        empty))

abbrev pub json : Json
json = record {
  Value = Value;
  from_slice = λ bytes. if is_empty bytes then none else some (dict (of_members payload));
  from_str = λ text. if is_empty text then none else some chunk;
  to_vec = λ v. some [];
  as_object = object_of;
  as_array = array_of;
  as_str = str_of;
  as_u64 = number_of;
  as_bool = bool_of;
  is_null = null_test;
  is_number = λ v. is_some (number_of v);
  object = λ m. dict (of_members m);
  number = number;
  as_object-object = λ m. ap some (members-of_members m);
  as_u64-number = λ n h. refl;
}

abbrev pub small : ModelPolicy
small = record {
  name = codes "small";
  input_microusd_per_million = 1_000_000;
  output_microusd_per_million = 2_000_000;
}

abbrev pub policy : LlmPolicy
policy = record {
  upstream_base_url = codes "https://models.example/v1";
  provider_credential_file = codes "/run/secrets/provider";
  allowed_models = small ∷ [];
  max_completion_tokens = 400;
  strict_cost_envelope = true;
  streaming = record {
    enable = false;
    max_event_bytes = 4096;
    first_event_timeout_seconds = 30;
    idle_timeout_seconds = 30;
    total_timeout_seconds = 300;
  };
  allow_plain_http_for_tests = false;
}

abbrev pub request : Request
request = record {
  method = codes "POST";
  path = codes "/v1/chat/completions?trace=1";
  headers = [];
  body = codes "{\"model\":\"small\",...}";
}

-- What a response reports.
abbrev pub usage : Value
usage = dict (
    member (codes "prompt_tokens") (number 10) (
      member (codes "completion_tokens") (number 100)
        (member (codes "total_tokens") (number 110) empty)))
