-- ===== src/Integrations/Credentials.antt =====
-- crates/tentaflake-integrations/src/front.rs: `RuntimeCredentials`, the lease of one token and the
-- epoch that numbers the leases. Clock readings are arguments; a poisoned lock is `locks = false`.
use tentaflake.Prelude.{
  ok_or, ◌||◌, ◌==◌, Text, Result, not, err, some, ℕ, Option, ◌+◌, codes, ltb, ◌%◌, list_eq, none,
  Bool, u64_mod, if◌then◌else◌, ◌>>=◌, ◌>>◌, guard, ok, saturating_add,
}
use tentaflake.Integrations.Gateway.{Credential, new_credential}
use tentaflake.Integrations.Grants.{Provider, provider_eq, Error}

pub record Lease : Type 0 where
  pub token : Text
  pub epoch : ℕ
  pub expires : ℕ

pub record RuntimeCredentials : Type 0 where
  pub lease : Option Lease
  pub epoch : ℕ
  pub provider : Provider
  pub tenant : Text
  pub account : Text
  pub generation : ℕ

-- The checks of `rotate`, with the clock read twice.
unfoldable pub check_rotation :
    Text → ℕ → ℕ → Bool → Option ℕ → Option ℕ → RuntimeCredentials → Result Error Credential
check_rotation token generation expires consent first second s = do
  credential ← new_credential token
  guard consent Error.denied
  guard (generation == s.generation) Error.denied
  now ← ok_or first Error.expired
  guard (ltb now expires) Error.denied
  later ← ok_or second Error.expired
  guard (not (ltb (saturating_add later 86400) expires)) Error.denied
  ok credential

-- `fetch_add` wraps, and the rotation is refused where the new epoch cannot be represented.
unfoldable pub rotate :
    Bool
    → Text
    → ℕ
    → ℕ
    → Bool
    → Option ℕ
    → Option ℕ
    → RuntimeCredentials
    → Result Error (Unit {0}) × RuntimeCredentials
rotate locks token generation expires consent first second s =
    elim (check_rotation token generation expires consent first second s) [
      | err e ↦ (err e, s)
      | ok credential ↦
          if not locks
          then (err Error.credential_unavailable, s)
          else if ltb (s.epoch + 1) u64_mod
          then (
            ok tt,
            record s {
              lease =
                  some
                    (record { token = credential.token; epoch = s.epoch + 1; expires = expires });
              epoch = s.epoch + 1;
            },
          )
          else (err Error.revoked, record s { epoch = (s.epoch + 1) % u64_mod })
    ]

unfoldable pub revoke : Bool → RuntimeCredentials → Result Error (Unit {0}) × RuntimeCredentials
revoke locks s =
    if locks
    then (ok tt, record s { lease = none; epoch = (s.epoch + 1) % u64_mod })
    else (err Error.credential_unavailable, s)

unfoldable pub load :
    Bool → Text → Provider → Text → Text → Option ℕ → RuntimeCredentials → Result Error Credential
load locks reference provider tenant account clock s = do
  guard
      (not (
        not (list_eq reference (codes "runtime"))
        || not (provider_eq provider s.provider)
        || not (list_eq tenant s.tenant)
        || not (list_eq account s.account)))
      Error.denied
  guard locks Error.credential_unavailable
  lease ← ok_or s.lease Error.credential_unavailable
  now ← ok_or clock Error.expired
  guard (ltb now lease.expires) Error.expired
  ok (record { token = lease.token; epoch = lease.epoch })

unfoldable pub validate :
    Bool → Option ℕ → Credential → RuntimeCredentials → Result Error (Unit {0})
validate locks clock credential s = do
  guard locks Error.credential_unavailable
  lease ← ok_or s.lease Error.revoked
  guard (lease.epoch == credential.epoch) Error.revoked
  now ← ok_or clock Error.expired
  guard (ltb now lease.expires) Error.expired
