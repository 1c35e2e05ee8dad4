-- ===== src/Broker/Llm/Authorized.antt =====
-- A request that is let in carries the secret of the broker.
use tentaflake.Broker.Llm.Requests.{Request, require_post_and_auth}
use tentaflake.Broker.Secrets.{constant_time_eq}
use tentaflake.Broker.Secrets.Equality.{constant_time_eq-list_eq}
use tentaflake.Prelude.{
  ◌∙◌, sym, list_eq-eq, refl, true, ok, some, none, Text, List, ℕ, Option, list_eq, ◌≡◌, codes,
  arith, and_then, Option-cases, get, strip_prefix, inl, inr,
}

-- What a request that was let in shows.
pub record Authorized (as_bytes : Text → List ℕ) (secret : Option Text) (r : Request) : Type 0 where
  pub posted : list_eq r.method (codes "POST") ≡ true
  pub expected : Text
  pub secret_is : secret ≡ some expected
  pub supplied : Text
  pub bearer :
      and_then (get r.headers (codes "authorization")) (strip_prefix (codes "Bearer "))
      ≡ some supplied
  pub same : as_bytes supplied ≡ as_bytes expected

-- A request is let in only as a POST whose bearer token has exactly the bytes of the secret, and
-- none where the secret could not be read.
pub require_post_and_auth-Authorized :
    (as_bytes : Text → List ℕ) (secret : Option Text) (r : Request)
    → require_post_and_auth constant_time_eq as_bytes secret r ≡ ok tt
    → Authorized as_bytes secret r
unfolding require_post_and_auth
require_post_and_auth-Authorized as_bytes none r h = absurd (ground arith)
require_post_and_auth-Authorized as_bytes (some expected) r h =
    elim (Option-cases
      (and_then (get r.headers (codes "authorization")) (strip_prefix (codes "Bearer ")))) [
        | inl e ↦ absurd (ground arith)
        | inr (supplied, e) ↦
            let compared : constant_time_eq (as_bytes supplied) (as_bytes expected) ≡ true =
              ground arith in
            let equal = constant_time_eq-list_eq (as_bytes supplied) (as_bytes expected) in
            record {
              posted = ground arith;
              expected = expected;
              secret_is = refl;
              supplied = supplied;
              bearer = e;
              same = list_eq-eq (as_bytes supplied) (as_bytes expected) (sym equal ∙ compared);
            }
      ]
