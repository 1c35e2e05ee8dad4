-- ===== src/Integrations/Gateway.antt =====
-- crates/tentaflake-integrations/src/lib.rs: one read through the gateway. What the clock, the
-- atomics, the credential source, the transport and the JSON parser answer is the record `World`.
use tentaflake.Integrations.Grants.{drive_file}
use tentaflake.Prelude.{
  [], none, some, zero, suc, Result, ok_or, text_len, ◌||◌, ◌==◌, is_graphic, ◌+◌, err, not, ℕ, all,
  list_eq, ◌&&◌, leb, List, Bool, is_empty, length, Option, checked_sub, ltb, is_some_and, ◌-◌,
  if◌then◌else◌, ok, Text, ◌>>=◌, ◌>>◌, guard, u64_mod, ◌∷◌, ◌%◌, get_elem?,
}
use tentaflake.Integrations.Grants.{ReadMethod, route, Route, Grant, authorize, ReadRequest, Error}

-- A response, and a credential with its epoch.
pub record Response : Type 0 where
  pub status : ℕ
  pub body : List ℕ

pub record Credential : Type 0 where
  pub token : Text
  pub epoch : ℕ

-- `serde_json`: a value, if the bytes are one, whether it is an object, and its text `id`.
pub record Json : Type 1 where
  pub Value : Type 0
  pub parse : List ℕ → Option Value
  pub is_object : Value → Bool
  pub id : Value → Option Text

-- What one moment shows: the stored generation and the clock.
pub record Moment : Type 0 where
  pub generation : ℕ
  pub clock : Option ℕ

-- What happens around one read: the moments of its three authorisations, the time that passed at
-- its two deadline checks, and the answers of its environment.
pub record World : Type 0 where
  pub start : Moment
  pub dispatch : Moment
  pub arrival : Moment
  pub elapsed_before : ℕ
  pub elapsed_after : ℕ
  pub credential : Option Credential
  pub response : Result Error Response
  pub valid : Result Error (Unit {0})

-- `Credential::new`.
unfoldable pub new_credential : Text → Result Error Credential
new_credential value =
    if is_empty value || ltb 8192 (text_len value) || not (all is_graphic value)
    then err Error.credential_unavailable
    else ok (record { token = value; epoch = 0 })

-- `active.try_update`: the count with this read, unless the gateway is full.
unfoldable pub acquire : Grant → ℕ → Result Error ℕ
acquire g active = if ltb active g.max_concurrency then ok (active + 1) else err Error.busy

-- The start of `read_inner`, before it has a slot: the count of active reads with the new slot.
unfoldable pub take_slot : Grant → World → ℕ → ReadRequest → Result Error ℕ
take_slot g w active r = do authorize g w.start.generation w.start.clock r; acquire g active

-- `Drop` of the slot, on every way out of `read_inner` after it was taken: `fetch_sub` wraps.
unfoldable pub drop_slot : ℕ → ℕ
drop_slot active = (active + (u64_mod - 1)) % u64_mod

-- What the transport is asked for.
pub record Dispatch : Type 0 where
  pub url : Route
  pub bearer : Credential
  pub cap : ℕ
  pub remaining : ℕ

-- The part of `read_inner` between taking the slot and the transport.
unfoldable pub prepare : Grant → World → ReadRequest → Result Error Dispatch
prepare g w r = do
  url ← route r
  credential ← ok_or w.credential Error.credential_unavailable
  authorize g w.dispatch.generation w.dispatch.clock r
  remaining ← ok_or (checked_sub g.deadline_ms w.elapsed_before) Error.deadline
  ok (record { url = url; bearer = credential; cap = g.max_body_bytes; remaining = remaining })

-- The list without the element at an index.
abbrev pub remove_at {ℓ} : {A : Type ℓ} → ℕ → List A → List A
remove_at i [] = []
remove_at zero (x ∷ l) = l
remove_at (suc i) (x ∷ l) = x ∷ remove_at i l

-- A read that holds a slot, with what the world answers to it.
pub record Reading : Type 0 where
  pub world : World
  pub request : ReadRequest

-- The count that the reads share, and those of them that hold a slot.
pub record Reads : Type 0 where
  pub active : ℕ
  pub running : List Reading

-- Reads overlap: one comes in, or the one at an index is done, whatever its result.
pub data Event : Type 0 where
  begins : World → ReadRequest → Event
  ends : ℕ → Event

unfoldable pub overlap_step : Grant → Event → Reads → Reads
overlap_step g (begins w r) s = elim (take_slot g w s.active r) [
  | err e ↦ s
  | ok taken ↦ record { active = taken; running = record { world = w; request = r } ∷ s.running }
]
overlap_step g (ends i) s = elim (get_elem? s.running i) [
  | none ↦ s
  | some x ↦ record { active = drop_slot s.active; running = remove_at i s.running }
]

unfoldable pub overlap : Grant → List Event → Reads → Reads
overlap g [] s = s
overlap g (e ∷ es) s = overlap g es (overlap_step g e s)

module _ (j : Json) where
  pub data Content : Type 0 where
    json : j.Value → Content
    file : List ℕ → Content

  -- The body as the content of its method.
  unfoldable pub content : ReadRequest → ReadMethod → List ℕ → Result Error Content
  content r drive_file body = ok (file body)
  content r _ body = do
    value ← ok_or (j.parse body) Error.malformed
    guard
        (not
          (not (j.is_object value) || not (is_some_and (j.id value) (λ id. list_eq id r.resource))))
        Error.malformed
    ok (json value)

  -- The part of `read_inner` after the transport.
  unfoldable pub conclude : Grant → World → ReadRequest → Response → Result Error Content
  conclude g w r response = do
    authorize g w.arrival.generation w.arrival.clock r
    w.valid
    guard (not (ltb g.deadline_ms w.elapsed_after)) Error.deadline
    guard (not (leb 300 response.status && ltb response.status 400)) Error.redirect
    guard (response.status == 200) Error.provider_failure
    guard (not (ltb g.max_body_bytes (length response.body))) Error.too_large
    content r r.method response.body

  -- `read_inner` under its slot.
  unfoldable pub exchange : Grant → World → ReadRequest → Result Error Content
  exchange g w r = do _ ← prepare g w r; response ← w.response; conclude g w r response

  -- `read_inner`: the result, and the count of active reads after the slot is dropped.
  unfoldable pub read_inner : Grant → World → ℕ → ReadRequest → Result Error Content × ℕ
  read_inner g w active r = elim (take_slot g w active r) [
    | err e ↦ (err e, active)
    | ok taken ↦ (exchange g w r, drop_slot taken)
  ]
