-- ===== src/Integrations/Grants.antt =====
-- crates/tentaflake-integrations/src/lib.rs: providers, grants, requests, their checks and the
-- routes. A route holds what the URL library is given: the host, the path segments and the query.
use tentaflake.Prelude.{
  ok, any, [], between, codes, is_control, ◌&&◌, list_eq, not, text_len, List, is_empty, err, all,
  ◌==◌, length, ℕ, Result, ◌∷◌, Bool, ltb, true, ◌*◌, contains, ok_or, false, leb, ◌||◌, Option,
  if◌then◌else◌, Text, ◌>>=◌, ◌>>◌, guard,
}

pub data Provider : Type 0 where
  drive gmail hub_spot : Provider

pub data ReadMethod : Type 0 where
  drive_metadata drive_file gmail_message hub_spot_contact : ReadMethod

unfoldable pub provider : ReadMethod → Provider
provider drive_metadata = drive
provider drive_file = drive
provider gmail_message = gmail
provider hub_spot_contact = hub_spot

-- The derived `PartialEq`.
abbrev pub provider_eq : Provider → Provider → Bool
provider_eq drive drive = true
provider_eq gmail gmail = true
provider_eq hub_spot hub_spot = true
provider_eq _ _ = false

abbrev pub method_eq : ReadMethod → ReadMethod → Bool
method_eq drive_metadata drive_metadata = true
method_eq drive_file drive_file = true
method_eq gmail_message gmail_message = true
method_eq hub_spot_contact hub_spot_contact = true
method_eq _ _ = false

pub record ReadRequest : Type 0 where
  pub tenant : Text
  pub account : Text
  pub resource : Text
  pub method : ReadMethod
  pub generation : ℕ

-- The sets of resources and methods are lists; times are milliseconds and seconds.
pub record Grant : Type 0 where
  pub agent : Text
  pub tenant : Text
  pub account : Text
  pub provider : Provider
  pub resources : List Text
  pub methods : List ReadMethod
  pub credential_reference : Text
  pub generation : ℕ
  pub expires_unix : ℕ
  pub max_body_bytes : ℕ
  pub max_concurrency : ℕ
  pub deadline_ms : ℕ

pub data Error : Type 0 where
  denied expired revoked busy invalid_policy invalid_request credential_unavailable : Error
  network redirect provider_failure too_large malformed deadline : Error

unfoldable pub label : Text → Bool
label s = not (is_empty s) && leb (text_len s) 256 && not (any is_control s)

-- The test of `Gateway::new`, negated.
unfoldable pub is_valid_grant : Grant → Bool
is_valid_grant g = not (
    not (label g.agent)
    || not (label g.tenant)
    || not (label g.account)
    || not (label g.credential_reference)
    || g.generation == 0
    || is_empty g.resources
    || ltb 4096 (length g.resources)
    || not (all label g.resources)
    || is_empty g.methods
    || any (λ m. not (provider_eq (provider m) g.provider)) g.methods
    || not (between 1 (4 * 1024 * 1024) g.max_body_bytes)
    || not (between 1 16 g.max_concurrency)
    || g.deadline_ms == 0
    || ltb 60000 g.deadline_ms)

abbrev pub contains_method : List ReadMethod → ReadMethod → Bool
contains_method ms m = any (λ x. method_eq x m) ms

-- `authorize`, at a generation and a clock that were read. A clock before 1970 has no time.
unfoldable pub authorize : Grant → ℕ → Option ℕ → ReadRequest → Result Error (Unit {0})
authorize g generation clock r = do
  guard (not (generation == 0)) Error.revoked
  now ← ok_or clock Error.expired
  guard (ltb now g.expires_unix) Error.expired
  guard
      (not (
        not (r.generation == g.generation)
        || not (list_eq r.tenant g.tenant)
        || not (list_eq r.account g.account)
        || not (contains g.resources r.resource)
        || not (contains_method g.methods r.method)))
      Error.denied

unfoldable pub origin : Provider → Text
origin drive = codes "www.googleapis.com"
origin gmail = codes "gmail.googleapis.com"
origin hub_spot = codes "api.hubapi.com"

pub record Route : Type 0 where
  pub host : Text
  pub segments : List Text
  pub query : List (Text × Text)

unfoldable pub segments : ReadRequest → ReadMethod → List Text
segments r drive_metadata = codes "drive" ∷ codes "v3" ∷ codes "files" ∷ r.resource ∷ []
segments r drive_file = codes "drive" ∷ codes "v3" ∷ codes "files" ∷ r.resource ∷ []
segments r gmail_message =
    codes "gmail" ∷ codes "v1" ∷ codes "users" ∷ r.account ∷ codes "messages" ∷ r.resource ∷ []
segments r hub_spot_contact =
    codes "crm" ∷ codes "v3" ∷ codes "objects" ∷ codes "contacts" ∷ r.resource ∷ []

unfoldable pub query : ReadMethod → List (Text × Text)
query drive_metadata = (codes "fields", codes "id,name,mimeType,size,modifiedTime") ∷ []
query drive_file = (codes "alt", codes "media") ∷ []
query gmail_message = (codes "format", codes "full") ∷ []
query hub_spot_contact =
    (codes "properties", codes "email,firstname,lastname") ∷ (codes "archived", codes "false") ∷ []

-- "." and "..".
abbrev pub is_dots : Text → Bool
is_dots s = list_eq s (codes ".") || list_eq s (codes "..")

unfoldable pub route : ReadRequest → Result Error Route
route r =
    if not (label r.resource) || not (label r.account) || is_dots r.resource || is_dots r.account
    then err Error.invalid_request
    else ok (record {
      host = origin (provider r.method);
      segments = segments r r.method;
      query = query r.method;
    })
