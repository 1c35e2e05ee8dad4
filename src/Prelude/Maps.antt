-- ===== src/Prelude/Maps.antt =====
-- Maps from texts as association lists, as the source's maps of JSON and of headers.
use mathlib.Core.Path.{◌≡◌}
use mathlib.Core.Bool.{Bool, false}
use mathlib.Core.List.{List, [], ◌∷◌}
use mathlib.Core.Option.{Option, none, some}
use tentaflake.Prelude.Tests.{if◌then◌else◌}
use tentaflake.Prelude.Lists.{list_eq, list_eq-eq, list_eq_refl}
use tentaflake.Prelude.Results.{is_some}
use tentaflake.Prelude.Texts.{Text}
use native.Mathlib.Omega.{arith}

module _ {ℓ} {V : Type ℓ} where
  abbrev pub get : List (Text × V) → Text → Option V
  get [] k = none
  get ((j, v) ∷ m) k = if list_eq j k then some v else get m k

  abbrev pub contains_key : List (Text × V) → Text → Bool
  contains_key m k = is_some (get m k)

  -- `insert`, in the place of an entry with the key.
  abbrev pub put : Text → V → List (Text × V) → List (Text × V)
  put k v [] = (k, v) ∷ []
  put k v ((j, w) ∷ m) = if list_eq j k then (k, v) ∷ m else (j, w) ∷ put k v m

  abbrev pub keys : List (Text × V) → List Text
  keys [] = []
  keys ((j, v) ∷ m) = j ∷ keys m

  pub get-put_self : (k : Text) (v : V) (m : List (Text × V)) → get (put k v m) k ≡ some v
  get-put_self k v [] = ground (arith, list_eq_refl k)
  get-put_self k v ((j, w) ∷ m) = ground (arith, list_eq_refl k, get-put_self k v m)

  pub get-put_other :
      (k i : Text) (v : V) (m : List (Text × V)) → list_eq k i ≡ false → get (put k v m) i ≡ get m i
  get-put_other k i v [] h = ground arith
  get-put_other k i v ((j, w) ∷ m) h =
      ground (arith, list_eq-eq j k, list_eq_refl k, get-put_other k i v m h)
