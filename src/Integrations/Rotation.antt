-- ===== src/Integrations/Rotation.antt =====
-- A credential that was handed out is void once its lease was rotated or revoked.
use tentaflake.Prelude.{
  ◌≡◌, [], ◌∷◌, u64_mod, Option, Option-cases, inr, ℕ, ◌+◌, some, ok, Text, Result, inl, arith,
  List, none, ◌≤◌, ◌<◌, Bool, length,
}
use tentaflake.Integrations.Credentials.{validate, revoke, RuntimeCredentials, rotate, load}
use tentaflake.Integrations.Gateway.{Credential}
use tentaflake.Integrations.Grants.{Provider, Error}

-- The calls that change the lease, as they arrive.
pub data Change : Type 0 where
  rotates : Bool → Text → ℕ → ℕ → Bool → Option ℕ → Option ℕ → Change
  revokes : Bool → Change

abbrev pub change : Change → RuntimeCredentials → Result Error (Unit {0}) × RuntimeCredentials
change (rotates k token generation expires consent first second) s =
    rotate k token generation expires consent first second s
change (revokes k) s = revoke k s

unfoldable pub changes : List Change → RuntimeCredentials → RuntimeCredentials
changes [] s = s
changes (a ∷ rest) s = changes rest (change a s).1

-- The lease in place carries an epoch that was given out.
abbrev pub IsNumbered : RuntimeCredentials → Type 0
IsNumbered s = elim s.lease [ none ↦ Unit {0} | some l ↦ l.epoch ≤ s.epoch ]

-- The credential's epoch is past: it was given out, and the lease in place has a later one.
abbrev pub IsStale : Credential → RuntimeCredentials → Type 0
IsStale c s = (c.epoch ≤ s.epoch) × (elim s.lease [ none ↦ Unit {0} | some l ↦ c.epoch < l.epoch ])

-- `validate` refuses a stale credential.
stale_refused :
    (locks : Bool) (clock : Option ℕ) (c : Credential) (s : RuntimeCredentials)
    → IsStale c s
    → ¬ (validate locks clock c s ≡ ok tt)
unfolding validate
stale_refused locks clock c s st h = elim (Option-cases s.lease) [
  | inl e ↦ absurd (ground arith)
  | inr (l, e) ↦ absurd (ground arith)
]

change-IsStale :
    (a : Change) (c : Credential) (s : RuntimeCredentials)
    → s.epoch + 1 < u64_mod
    → IsStale c s
    → IsStale c (change a s).1 × ((change a s).1.epoch ≤ s.epoch + 1)
unfolding rotate revoke
change-IsStale (rotates k t g x y f n) c s w st = ground arith
change-IsStale (revokes k) c s w st = ground arith

-- A change that succeeds makes every credential stale that was loaded before it.
change_makes-IsStale :
    (a : Change) (c : Credential) (s : RuntimeCredentials)
    → s.epoch + 1 < u64_mod
    → c.epoch ≤ s.epoch
    → (change a s).0 ≡ ok tt
    → IsStale c (change a s).1 × ((change a s).1.epoch ≤ s.epoch + 1)
unfolding rotate revoke
change_makes-IsStale (rotates k t g x y f n) c s w st h = ground arith
change_makes-IsStale (revokes k) c s w st h = ground arith

change_epoch :
    (a : Change) (s : RuntimeCredentials)
    → s.epoch + 1 < u64_mod
    → (s.epoch ≤ (change a s).1.epoch) × ((change a s).1.epoch ≤ s.epoch + 1)
unfolding rotate revoke
change_epoch (rotates k t g x y f n) s w = ground arith
change_epoch (revokes k) s w = ground arith

changes_epoch :
    (l : List Change) (s : RuntimeCredentials)
    → s.epoch + length l < u64_mod
    → (s.epoch ≤ (changes l s).epoch) × ((changes l s).epoch ≤ s.epoch + length l)
unfolding changes
changes_epoch [] s w = omega arith
changes_epoch (a ∷ l) s w =
    let k = change_epoch a s (omega arith) in
    omega (arith, changes_epoch l (change a s).1 (omega arith))

changes-IsStale :
    (l : List Change) (c : Credential) (s : RuntimeCredentials)
    → s.epoch + length l < u64_mod
    → IsStale c s
    → IsStale c (changes l s)
unfolding changes
changes-IsStale [] c s w st = st
changes-IsStale (a ∷ l) c s w st =
    let k = change-IsStale a c s (omega arith) st in
    changes-IsStale l c (change a s).1 (omega arith) k.0

load_epoch :
    (locks : Bool) (reference : Text) (p : Provider) (tenant account : Text) (clock : Option ℕ)
    (s : RuntimeCredentials) (c : Credential)
    → load locks reference p tenant account clock s ≡ ok c
    → IsNumbered s
    → c.epoch ≤ s.epoch
unfolding load
load_epoch locks reference p tenant account clock s c h k = elim (Option-cases s.lease) [
  | inl e ↦ absurd (ground arith)
  | inr (l, e) ↦ ground arith
]

-- A credential that was loaded is refused for good once a rotation or a revocation succeeds, after
-- any changes in earlier and whatever changes follow, while fewer than 2 ^ 64 epochs are used.
pub validate-load_stale :
    (locks₁ locks₂ : Bool) (reference : Text) (p : Provider) (tenant account : Text)
    (clock₁ clock₂ : Option ℕ) (s : RuntimeCredentials) (c : Credential) (earlier : List Change)
    (a : Change) (later : List Change)
    → IsNumbered s
    → s.epoch + length earlier + length later + 1 < u64_mod
    → load locks₁ reference p tenant account clock₁ s ≡ ok c
    → (change a (changes earlier s)).0 ≡ ok tt
    → ¬ (validate locks₂ clock₂ c (changes later (change a (changes earlier s)).1) ≡ ok tt)
validate-load_stale locks₁ locks₂ reference p tenant account clock₁ clock₂ s c earlier a later k w h
      e =
    let u = changes earlier s in
    let n = load_epoch locks₁ reference p tenant account clock₁ s c h k in
    let b = changes_epoch earlier s (omega arith) in
    let st = change_makes-IsStale a c u (omega arith) (omega arith) e in
    stale_refused locks₂ clock₂ c _ (changes-IsStale later c (change a u).1 (omega arith) st.0)
