-- ===== src/Integrations/Proposals.antt =====
-- crates/tentaflake-integrations/src/review.rs: `Store`, the proposals that wait for a human review.
-- `serde_json` is the parameter `Codec`; what the operating system answers is `Opening` and `Saving`.
use tentaflake.Integrations.Advisory.{ReviewProposal}
use tentaflake.Prelude.{
  zero, is_some, ◌++◌, ◌∷◌, ◌/◌, err, list_eq, [], false, Result, not, ◌*◌, true, ok_or, Option,
  leb, List, none, suc, ◌≡◌, codes, ◌||◌, length, ◌%◌, ◌==◌, ◌+◌, get_elem?, Text, ◌&&◌, some, ℕ,
  Bool, ltb, if◌then◌else◌, ◌>>=◌, ◌>>◌, ok, guard,
}

pub data Decision : Type 0 where
  pending acknowledged dismissed : Decision

pub record Row : Type 0 where
  pub id : Text
  pub proposal : ReviewProposal
  pub review : Decision

-- The texts of the errors.
pub data Error : Type 0 where
  state_unavailable unsafe_state state_busy state_bounds corrupt_or_unbound_state : Error
  unbound_or_uncertain_state review_context_mismatch corrupt_state state_uncertain : Error
  denied not_found already_reviewed : Error

-- The derived `PartialEq`.
abbrev pub decision_eq : Decision → Decision → Bool
decision_eq pending pending = true
decision_eq acknowledged acknowledged = true
decision_eq dismissed dismissed = true
decision_eq _ _ = false

-- `format!` of a number, with fuel for its digits.
abbrev pub decimal : ℕ → ℕ → Text
decimal zero n = []
decimal (suc k) n =
    let rest = decimal k (n / 10) in
    if ltb n 10 then (b'0' + n) ∷ [] else rest ++ ((b'0' + n % 10) ∷ [])

-- `format!("proposal-{}", n)`; the numbers here have at most three digits.
abbrev pub proposal_id : ℕ → Text
proposal_id n = codes "proposal-" ++ decimal 3 n

-- `rows.iter().enumerate().any(..)`, from an index on.
unfoldable pub misnumbered : ℕ → List Row → Bool
misnumbered i [] = false
misnumbered i (r ∷ rs) = not (list_eq r.id (proposal_id (i + 1))) || misnumbered (i + 1) rs

unfoldable pub position : Text → List Row → Option ℕ
position id [] = none
position id (r ∷ rs) =
    let rest = position id rs in
    if list_eq r.id id then some 0 else elim rest [ none ↦ none | some i ↦ some (i + 1) ]

-- `rows[index].review = decision`.
unfoldable pub set_review : ℕ → Decision → List Row → List Row
set_review i d [] = []
set_review zero d (r ∷ rs) = record r { review = d } ∷ rs
set_review (suc i) d (r ∷ rs) = r ∷ set_review i d rs

abbrev pub state_limit : ℕ
state_limit = 8 * 1024 * 1024

-- `serde_json`. Of the bytes the store uses the length; a snapshot that is written is read back.
pub record Codec : Type 1 where
  pub Context : Type 0
  pub context_eq : Context → Context → Bool
  pub context_eq_refl : (c : Context) → context_eq c c ≡ true
  pub Bytes : Type 0
  pub len : Bytes → ℕ
  pub to_vec : Context → List Row → Option Bytes
  pub from_slice : Bytes → Option (Context × List Row)
  pub from_slice-to_vec :
      (c : Context) (rows : List Row) (b : Bytes)
      → to_vec c rows ≡ some b
      → from_slice b ≡ some (c, rows)
  pub Value : Type 0
  pub to_value : Row → Option Value
  pub proposals : List Row → Value

-- The directory's metadata.
pub record Meta : Type 0 where
  pub is_dir : Bool
  pub uid : ℕ
  pub mode : ℕ

-- What the operating system answers while a store is opened.
pub record Opening : Type 0 where
  pub directory : Option Meta
  pub euid : ℕ
  pub opens_lock : Bool
  pub locks : Bool
  pub opens_state : Bool
  pub reads : Bool
  pub inspects_next : Bool

-- What the operating system answers while a store is saved.
pub record Saving : Type 0 where
  pub opens : Bool
  pub writes : Bool
  pub renames : Bool
  pub syncs : Bool

module _ (c : Codec) where
  -- The two files of the directory; `next` without bytes was not written to its end.
  pub record Files : Type 0 where
    pub state : Option c.Bytes
    pub next : Option (Option c.Bytes)

  pub record Store : Type 0 where
    pub context : c.Context
    pub rows : List Row
    pub poisoned : Bool

  -- The write of proposals.next and its rename, with the files that are left.
  unfoldable pub publish : Saving → c.Bytes → Files → Result Error (Unit {0}) × Files
  publish o b f =
      if not o.opens
      then (err state_unavailable, f)
      else if not o.writes
      then (err state_unavailable, record f { next = some none })
      else if not o.renames
      then (err state_unavailable, record f { next = some (some b) })
      else (
        if o.syncs then ok tt else err state_unavailable,
        record { state = some b; next = none },
      )

  unfoldable pub save : Saving → Store × Files → Result Error (Unit {0}) × (Store × Files)
  save o (s, f) = elim (c.to_vec s.context s.rows) [
    | none ↦ (err state_unavailable, (record s { poisoned = true }, f))
    | some b ↦
        if ltb state_limit (c.len b)
        then (err state_bounds, (record s { poisoned = true }, f))
        else elim (publish o b f).0 [
          | err e ↦ (err e, (record s { poisoned = true }, (publish o b f).1))
          | ok _ ↦ (ok tt, (record s { poisoned = false }, (publish o b f).1))
        ]
  ]

  -- The directory and the lock.
  unfoldable pub check_directory : Opening → Result Error (Unit {0})
  check_directory w = do
    m ← ok_or w.directory state_unavailable
    guard (not (not m.is_dir || not (m.uid == w.euid) || not (m.mode % 64 == 0))) unsafe_state
    guard w.opens_lock state_unavailable
    guard w.locks state_busy

  -- proposals.json, where there is one.
  unfoldable pub read_state : Opening → Files → Result Error (Option (c.Context × List Row))
  read_state w f = elim f.state [
    | none ↦ ok none
    | some b ↦ do
      guard w.opens_state state_unavailable
      guard w.reads state_unavailable
      guard (not (ltb state_limit (c.len b))) state_bounds
      state ← ok_or (c.from_slice b) corrupt_or_unbound_state
      ok (some state)
  ]

  -- The rows that a state holds for a context; a fresh store needs a directory without a proposals.next.
  unfoldable pub bound_rows :
      Opening → c.Context → Option (c.Context × List Row) → Files → Result Error (List Row)
  bound_rows w context none f =
      if w.inspects_next && not (is_some f.next) then ok [] else err unbound_or_uncertain_state
  bound_rows w context (some (k, rows)) f =
      if c.context_eq k context then ok rows else err review_context_mismatch

  unfoldable pub load_rows : Opening → c.Context → Files → Result Error (Bool × List Row)
  load_rows w context f = do
    check_directory w
    state ← read_state w f
    rows ← bound_rows w context state f
    guard (not (ltb 100 (length rows) || misnumbered 0 rows)) corrupt_state
    ok (not (is_some state), rows)

  -- `Store::open`: the result, and the files that are left.
  unfoldable pub open_store : Opening → Saving → c.Context → Files → Result Error Store × Files
  open_store w o context f = elim (load_rows w context f) [
    | err e ↦ (err e, f)
    | ok (fresh, rows) ↦
        let store : Store = record { context = context; rows = rows; poisoned = false } in
        let saved = save o (store, f) in
        if fresh
        then (elim saved.0 [ err e ↦ err e | ok _ ↦ ok saved.1.0 ], saved.1.1)
        else (ok store, f)
  ]

  unfoldable pub list : Store → Result Error c.Value
  list s = if s.poisoned then err state_uncertain else ok (c.proposals s.rows)

  unfoldable pub submit :
      Saving → ReviewProposal → Store × Files → Result Error c.Value × (Store × Files)
  submit o p (s, f) =
      if s.poisoned || leb 100 (length s.rows)
      then (err state_unavailable, (s, f))
      else let row : Row = record {
        id = proposal_id (length s.rows + 1);
        proposal = p;
        review = pending;
      } in
        let saved = save o (record s { rows = s.rows ++ (row ∷ []) }, f) in
        (elim saved.0 [ err e ↦ err e | ok _ ↦ ok_or (c.to_value row) state_unavailable ], saved.1)

  -- `review` of the row at an index.
  unfoldable pub review_at :
      Saving → ℕ → Row → Decision → Store × Files → Result Error c.Value × (Store × Files)
  review_at o i row d (s, f) =
      let decided : Row = record row { review = d } in
      let saved = save o (record s { rows = set_review i d s.rows }, f) in
      if not (decision_eq row.review pending) && not (decision_eq row.review d)
      then (err already_reviewed, (s, f))
      else if decision_eq row.review pending
      then (
        elim saved.0 [ err e ↦ err e | ok _ ↦ ok_or (c.to_value decided) state_unavailable ],
        saved.1,
      )
      else (ok_or (c.to_value row) state_unavailable, (s, f))

  unfoldable pub review :
      Saving → Text → Decision → Store × Files → Result Error c.Value × (Store × Files)
  review o id d (s, f) =
      if s.poisoned || decision_eq d pending
      then (err denied, (s, f))
      else elim (position id s.rows) [
        | none ↦ (err not_found, (s, f))
        | some i ↦ elim (get_elem? s.rows i) [
          | none ↦ (err not_found, (s, f))
          | some row ↦ review_at o i row d (s, f)
        ]
      ]
