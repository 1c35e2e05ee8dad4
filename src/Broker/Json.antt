-- ===== src/Broker/Json.antt =====
-- The values of `serde_json`, which the broker reads and writes, as a parameter. An object is shown
-- as the list of its members, and a number as a `u64` where it is one.
use tentaflake.Prelude.{
  List, and_then, Option, ◌≡◌, get, list_eq, not, is_some_and, u64_mod, Bool, is_some, ◌<◌, ℕ, ◌==◌,
  some, Text, if◌then◌else◌,
}

pub record Json : Type 1 where
  pub Value : Type 0
  pub from_slice : List ℕ → Option Value
  pub from_str : Text → Option Value
  pub to_vec : Value → Option (List ℕ)
  pub as_object : Value → Option (List (Text × Value))
  pub as_array : Value → Option (List Value)
  pub as_str : Value → Option Text
  pub as_u64 : Value → Option ℕ
  pub as_bool : Value → Option Bool
  pub is_null : Value → Bool
  pub is_number : Value → Bool
  -- `Value::Object` and `Value::from`.
  pub object : List (Text × Value) → Value
  pub number : ℕ → Value
  pub as_object-object : (m : List (Text × Value)) → as_object (object m) ≡ some m
  pub as_u64-number : (n : ℕ) → n < u64_mod → as_u64 (number n) ≡ some n

module _ (j : Json) where
  -- `Value::get` of a key.
  abbrev pub get_key : j.Value → Text → Option j.Value
  get_key v k = and_then (j.as_object v) (λ m. get m k)

  abbrev pub is_string : j.Value → Bool
  is_string v = is_some (j.as_str v)

  abbrev pub is_boolean : j.Value → Bool
  is_boolean v = is_some (j.as_bool v)

  abbrev pub is_object : j.Value → Bool
  is_object v = is_some (j.as_object v)

  abbrev pub is_array : j.Value → Bool
  is_array v = is_some (j.as_array v)

  -- `.and_then(Value::as_str) == Some(text)`.
  abbrev pub is_text : Option j.Value → Text → Bool
  is_text o text = is_some_and (and_then o j.as_str) (λ s. list_eq s text)

  -- `.and_then(Value::as_u64) == Some(n)`.
  abbrev pub is_u64 : Option j.Value → ℕ → Bool
  is_u64 o n = is_some_and (and_then o j.as_u64) (λ m. m == n)

  -- `!= &Value::Bool(b)`, negated.
  abbrev pub is_bool : j.Value → Bool → Bool
  is_bool v b = is_some_and (j.as_bool v) (λ c. if b then c else not c)
