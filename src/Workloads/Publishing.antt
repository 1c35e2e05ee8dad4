-- ===== src/Workloads/Publishing.antt =====
-- crates/tentaflake-workloads/src/lib.rs: `atomic_json`, which publishes a manifest, and
-- `parse_cgroup`. The JSON text of the value and what the operating system answers are arguments.
use tentaflake.Workloads.Authority.{Error, invalid}
use tentaflake.Prelude.{
  none, not, is_empty, inr, list_eq, err, true, [], List, Bool, is_some_and, Option-cases, arith,
  ◌≤◌, is_some, Text, ok_or, length, ◌||◌, ◌≡◌, ℕ, ◌∷◌, codes, Result, refl, some, strip_prefix,
  ◌&&◌, Option, guard, inl, ltb, ok, if◌then◌else◌, ◌>>=◌, ◌>>◌, lines, strip_suffix,
}
use tentaflake.Workloads.Types.{valid_id}

unfoldable pub valid_json_filename : Text → Bool
valid_json_filename name = is_some_and (strip_suffix (codes ".json") name) valid_id

-- What the operating system answers while a value is published.
pub record Publication : Type 0 where
  pub opens_directory : Bool
  pub creates : Bool
  pub writes : Bool
  pub protects : Bool
  pub syncs : Bool
  pub renames : Bool
  pub syncs_directory : Bool

-- The published file and the pending one; a pending file without bytes was not written to its end.
pub record Place : Type 0 where
  pub target : Option (List ℕ)
  pub pending : Option (Option (List ℕ))

-- `atomic_json` once the pending file was created.
unfoldable pub fill_pending :
    Publication → Option (List ℕ) → Place → Result Error (Unit {0}) × Place
fill_pending w none p = (err invalid, record p { pending = some none })
fill_pending w (some bytes) p =
    if ltb 262_144 (length bytes) || not w.writes
    then (err invalid, record p { pending = some none })
    else if not w.protects || not w.syncs || not w.renames
    then (err invalid, record p { pending = some (some bytes) })
    else (
      if w.syncs_directory then ok tt else err invalid,
      record { target = some bytes; pending = none },
    )

-- A pending file that an interrupted publication left is neither followed nor overwritten.
unfoldable pub atomic_json :
    Publication → Text → Option (List ℕ) → Place → Result Error (Unit {0}) × Place
atomic_json w name bytes p =
    if not (valid_json_filename name) || not w.opens_directory || not w.creates || is_some p.pending
    then (err invalid, p)
    else fill_pending w bytes p

unfoldable pub parse_cgroup : Text → Text → Result Error Text
parse_cgroup text container = elim (lines text) [
  | [] ↦ err invalid
  | l ∷ ls ↦ do
    path ← ok_or (strip_prefix (codes "0::") l) invalid
    guard
        (is_empty ls
          && is_some_and (strip_prefix (codes "/system.slice/docker-") path)
              (λ s. is_some_and (strip_suffix (codes ".scope") s) (λ id. list_eq id container)))
        invalid
    ok path
]

-- A publication that succeeds leaves exactly the value's bytes, of at most 256 KiB, under a valid
-- name, and no pending file; one that found a pending file changes nothing.
pub atomic_json-published :
    (w : Publication) (name : Text) (bytes : Option (List ℕ)) (p q : Place)
    → atomic_json w name bytes p ≡ (ok tt, q)
    → (valid_json_filename name ≡ true)
      × (p.pending ≡ none)
      × (q.target ≡ bytes)
      × (q.pending ≡ none)
      × ((b : List ℕ) × (bytes ≡ some b) × (length b ≤ 262_144))
unfolding atomic_json fill_pending
atomic_json-published w name none p q h = absurd (ground arith)
atomic_json-published w name (some b) p q h = elim (Option-cases p.pending) [
  | inr (x, e) ↦ absurd (ground arith)
  | inl e ↦ (ground arith, e, ground arith, ground arith, (b, refl, ground arith))
]
