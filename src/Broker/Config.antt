-- ===== src/Broker/Config.antt =====
-- crates/tentaflake-broker/src/config.rs: the configuration of a broker and `validate`. The URL of
use Prim.Native.Nat.{bit_and}
use tentaflake.Prelude.{
  is_empty, ◌||◌, true, all, none, strip_suffix, leb, text_len, strip_prefix, to_ascii_lowercase,
  between, [], Text, List, is_control, false, contains, ℕ, split, codes, Option, is_alphanumeric,
  ok_or, ◌==◌, list_eq, Result, ltb, ◌&&◌, is_digit, some, Bool, err, any, ◌∷◌, ◌>>=◌, ◌>>◌,
  is_some, not, guard,
}
use tentaflake.Integrations.Grants.{label}
use tentaflake.Broker.Llm.Usage.{ModelPolicy}
use tentaflake.Broker.Targets.{SocketAddr, IpAddr, v4, v6}

-- the upstream is what its parser answers; the activity's own configuration is not part of it.

pub record StreamingPolicy : Type 0 where
  pub enable : Bool
  pub max_event_bytes : ℕ
  pub first_event_timeout_seconds : ℕ
  pub idle_timeout_seconds : ℕ
  pub total_timeout_seconds : ℕ

pub record LlmPolicy : Type 0 where
  pub upstream_base_url : Text
  pub provider_credential_file : Text
  pub allowed_models : List ModelPolicy
  pub max_completion_tokens : ℕ
  pub strict_cost_envelope : Bool
  pub streaming : StreamingPolicy
  pub allow_plain_http_for_tests : Bool

pub record FetchPolicy : Type 0 where
  pub allowed_hosts : List Text
  pub allowed_content_types : List Text
  pub quarantine_dir : Text
  pub max_quarantine_bytes : ℕ
  pub max_quarantine_entries : ℕ
  pub max_redirects : ℕ

pub record Config : Type 0 where
  pub agent : Text
  pub listen : SocketAddr
  pub token_file : Text
  pub audit_file : Text
  pub budget_state_file : Text
  pub max_request_bytes : ℕ
  pub max_response_bytes : ℕ
  pub max_header_bytes : ℕ
  pub timeout_seconds : ℕ
  pub connect_timeout_seconds : ℕ
  pub max_concurrency : ℕ
  pub rate_window_seconds : ℕ
  pub max_requests_per_window : ℕ
  pub daily_request_budget : ℕ
  pub daily_token_budget : ℕ
  pub daily_cost_microusd : ℕ
  pub max_audit_bytes : ℕ
  pub llm : Option LlmPolicy
  pub fetch : Option FetchPolicy

pub data Error : Type 0 where
  invalid_agent public_listener relative_path zero_limit both_modes no_mode : Error
  invalid_upstream upstream_scheme upstream_parts no_models invalid_model streaming_limits : Error
  zero_quarantine no_allowlist invalid_host invalid_content_type too_many_redirects : Error

-- The parts of the upstream's URL.
pub record BaseUrl : Type 0 where
  pub scheme : Text
  pub host_str : Option Text
  pub cannot_be_a_base : Bool
  pub username : Text
  pub password : Option Text
  pub query : Option Text
  pub fragment : Option Text
  pub path : Text

-- A path that is absolute and has no component "..".
unfoldable pub is_runtime_path : Text → Bool
is_runtime_path path =
    is_some (strip_prefix (codes "/") path)
    && not (any (λ part. list_eq part (codes "..")) (split b'/' path))

abbrev pub is_lowercase : ℕ → Bool
is_lowercase b = between b'a' b'z' b

-- The bytes of an agent's name from an index on; a hyphen stands inside only.
abbrev pub agent_bytes : Bool → Text → Bool
agent_bytes first [] = true
agent_bytes first (b ∷ s) =
    (is_lowercase b || is_digit b || (b == b'-' && not first && not (is_empty s)))
    && agent_bytes false s

unfoldable pub valid_agent_name : Text → Bool
valid_agent_name s = not (is_empty s) && leb (text_len s) 63 && agent_bytes true s

abbrev pub valid_label : Text → Bool
valid_label label =
    not (is_empty label)
    && leb (text_len label) 63
    && not (is_some (strip_prefix (codes "-") label))
    && not (is_some (strip_suffix (codes "-") label))
    && all (λ b. is_alphanumeric b || b == b'-') label

unfoldable pub valid_hostname : Text → Bool
valid_hostname s =
    not (is_empty s)
    && leb (text_len s) 253
    && list_eq s (to_ascii_lowercase s)
    && all valid_label (split b'.' s)

-- `is_loopback` and `is_private` of the addresses.
unfoldable pub is_private_listener : IpAddr → Bool
is_private_listener (v4 a b c d) =
    a == 127 || a == 10 || (a == 172 && between 16 31 b) || (a == 192 && b == 168)
is_private_listener (v6 s₀ s₁ s₂ s₃ s₄ s₅ s₆ s₇) =
    (s₀ == 0 && s₁ == 0 && s₂ == 0 && s₃ == 0 && s₄ == 0 && s₅ == 0 && s₆ == 0 && s₇ == 1)
    || bit_and s₀ 0xfe00 == 0xfc00

-- The loop over the models, with the names seen so far.
unfoldable pub valid_models : List Text → List ModelPolicy → Bool
valid_models names [] = true
valid_models names (m ∷ ms) =
    not (
      is_empty m.name
      || ltb 200 (text_len m.name)
      || any is_control m.name
      || contains names m.name
      || m.input_microusd_per_million == 0
      || m.output_microusd_per_million == 0)
    && valid_models (m.name ∷ names) ms

unfoldable pub valid_upstream : Bool → BaseUrl → Result Error (Unit {0})
valid_upstream plain url = do
  guard (list_eq url.scheme (codes "https") || (plain && list_eq url.scheme (codes "http")))
      upstream_scheme
  guard
      (not (
        not (is_some url.host_str)
        || url.cannot_be_a_base
        || not (is_empty url.username)
        || is_some url.password
        || is_some url.query
        || is_some url.fragment
        || not (is_some (strip_suffix (codes "/") url.path))))
      upstream_parts

abbrev pub exact_content_type : Text → Bool
exact_content_type s =
    not (is_empty s)
    && list_eq s (to_ascii_lowercase s)
    && not (any (λ b. b == b'*') s)
    && not (any (λ b. b == b';') s)
    && any (λ b. b == b'/') s

-- `FetchPolicy::validate`.
unfoldable pub validate_fetch : FetchPolicy → Result Error (Unit {0})
validate_fetch p = do
  guard (is_runtime_path p.quarantine_dir) relative_path
  guard (not (p.max_quarantine_bytes == 0 || p.max_quarantine_entries == 0)) zero_quarantine
  guard (not (is_empty p.allowed_hosts || is_empty p.allowed_content_types)) no_allowlist
  guard (all valid_hostname p.allowed_hosts) invalid_host
  guard (all exact_content_type p.allowed_content_types) invalid_content_type
  guard (leb p.max_redirects 10) too_many_redirects

unfoldable pub valid_streaming : ℕ → StreamingPolicy → Bool
valid_streaming max_response_bytes s = not (
    s.max_event_bytes == 0
    || s.first_event_timeout_seconds == 0
    || s.idle_timeout_seconds == 0
    || s.total_timeout_seconds == 0
    || ltb s.total_timeout_seconds s.first_event_timeout_seconds
    || ltb s.total_timeout_seconds s.idle_timeout_seconds
    || (s.enable && ltb max_response_bytes s.max_event_bytes))

unfoldable pub positive_limits : Config → Bool
positive_limits c = not (
    c.max_request_bytes == 0
    || c.max_response_bytes == 0
    || c.max_header_bytes == 0
    || c.timeout_seconds == 0
    || c.connect_timeout_seconds == 0
    || c.max_concurrency == 0
    || c.rate_window_seconds == 0
    || c.max_requests_per_window == 0
    || c.daily_request_budget == 0
    || c.daily_token_budget == 0
    || c.daily_cost_microusd == 0
    || c.max_audit_bytes == 0)

-- `validate` of the part that both modes share.
unfoldable pub validate_common : Config → Result Error (Unit {0})
validate_common c = do
  guard (valid_agent_name c.agent) invalid_agent
  guard (is_private_listener c.listen.ip) public_listener
  guard
      (is_runtime_path c.token_file
        && is_runtime_path c.audit_file
        && is_runtime_path c.budget_state_file)
      relative_path
  guard (positive_limits c) zero_limit

module _ (parse : Text → Option BaseUrl) where
  -- `LlmPolicy::validate`.
  unfoldable pub validate_llm : LlmPolicy → Result Error (Unit {0})
  validate_llm p = do
    guard (is_runtime_path p.provider_credential_file) relative_path
    url ← ok_or (parse p.upstream_base_url) invalid_upstream
    valid_upstream p.allow_plain_http_for_tests url
    guard (not (is_empty p.allowed_models || p.max_completion_tokens == 0)) no_models
    guard (valid_models [] p.allowed_models) invalid_model

  -- The parts of the two modes, of which there is exactly one.
  unfoldable pub validate_mode : ℕ → Option LlmPolicy → Option FetchPolicy → Result Error (Unit {0})
  validate_mode bytes (some l) (some f) = err both_modes
  validate_mode bytes none none = err no_mode
  validate_mode bytes (some l) none = do
    validate_llm l
    guard (valid_streaming bytes l.streaming) streaming_limits
  validate_mode bytes none (some f) = validate_fetch f

  -- `Config::validate` of a broker without activity.
  unfoldable pub validate_config : Config → Result Error (Unit {0})
  validate_config c = do validate_common c; validate_mode c.max_response_bytes c.llm c.fetch
