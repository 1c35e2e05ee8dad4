-- ===== src/Workloads/Authority.antt =====
-- crates/tentaflake-workloads/src/lib.rs: `Authority`, which numbers what was observed of a binding.
-- `serde_json::to_string` is a parameter: where it gives a text of a binding and an identity, that
-- text is read back.
use tentaflake.Prelude.{
  ◌≡◌, Text, some, ◌==◌, ltb, list_eq, length, ◌+◌, Result, ◌||◌, ◌∷◌, Option, leb, not, text_len,
  List, [], ℕ, any, Bool, none, err, if◌then◌else◌, ok,
}
use tentaflake.Workloads.Types.{Binding, valid_id, max_generation, max_bindings, Identity}

pub record Fingerprints : Type 0 where
  pub to_string : Binding → Option Identity → Option Text
  pub from_string : Text → Option (Binding × Option Identity)
  pub from_string-to_string :
      (b : Binding) (i : Option Identity) (t : Text)
      → to_string b i ≡ some t
      → from_string t ≡ some (b, i)

pub record Entry : Type 0 where
  pub fingerprint : Text
  pub generation : ℕ

-- The map from agents to entries is an association list.
pub record Authority : Type 0 where
  pub version : ℕ
  pub counter : ℕ
  pub entries : List (Text × Entry)

pub data Error : Type 0 where
  invalid : Error

abbrev pub empty : Authority
empty = record { version = 1; counter = 0; entries = [] }

unfoldable pub lookup : Text → List (Text × Entry) → Option Entry
lookup k [] = none
lookup k ((j, e) ∷ m) = if list_eq j k then some e else lookup k m

unfoldable pub insert : Text → Entry → List (Text × Entry) → List (Text × Entry)
insert k e [] = (k, e) ∷ []
insert k e ((j, f) ∷ m) = if list_eq j k then (k, e) ∷ m else (j, f) ∷ insert k e m

unfoldable pub valid_entry : ℕ → Text × Entry → Bool
valid_entry counter (id, e) = not (
    not (valid_id id)
    || e.generation == 0
    || ltb counter e.generation
    || ltb 8192 (text_len e.fingerprint))

-- `Authority::validate`.
unfoldable pub is_valid : Authority → Bool
is_valid a = not (
    not (a.version == 1)
    || ltb max_generation a.counter
    || ltb max_bindings (length a.entries)
    || any (λ x. not (valid_entry a.counter x)) a.entries)

-- The end of `assign`: a new number.
unfoldable pub renumber : Binding → Text → Authority → Result Error ℕ × Authority
renumber b fingerprint a = if leb max_generation a.counter then (err invalid, a) else (
  ok (a.counter + 1),
  record a {
    counter = a.counter + 1;
    entries =
        insert b.agent_id (record { fingerprint = fingerprint; generation = a.counter + 1 })
          a.entries;
  },
)

-- `assign` once it has the fingerprint.
unfoldable pub assign_fingerprint : Binding → Text → Authority → Result Error ℕ × Authority
assign_fingerprint b t a = elim (lookup b.agent_id a.entries) [
  | some e ↦ if list_eq e.fingerprint t then (ok e.generation, a) else renumber b t a
  | none ↦ renumber b t a
]

-- `assign`: what was observed must have a fingerprint.
unfoldable pub assign :
    Fingerprints → Binding → Option Identity → Authority → Result Error ℕ × Authority
assign f b i a = elim (f.to_string b i) [
  | none ↦ (err invalid, a)
  | some t ↦ assign_fingerprint b t a
]
