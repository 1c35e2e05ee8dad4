-- ===== src/Integrations/Advisory.antt =====
-- crates/tentaflake-integrations/src/advisory.rs: evidence that an observer may propose for review.
use tentaflake.Prelude.{
  ◌≡◌, ◌≤◌, ◌==◌, ◌∷◌, between, arith, ltb, ◌&&◌, is_empty, Result, Bool, text_len, all, ◌+◌, leb,
  true, length, Text, is_alphanumeric, ok_or, list_eq, list_eq-eq, Option, List, some, Result-cases,
  inr, inl, ◌||◌, contains, ◌⊎◌, sym, subst, ℕ, All, checked_add, [], ◌>>=◌, ◌>>◌, not, ok, guard,
}

pub data Error : Type 0 where
  denied unavailable bounds missing_evidence : Error

pub record Policy : Type 0 where
  pub system : Text
  pub observer : Text
  pub admitted : Bool
  pub resources : List Text
  pub max_evidence : ℕ
  pub max_content_bytes : ℕ

pub record Telemetry : Type 0 where
  pub resource : Text
  pub evidence_reference : Text
  pub summary : Text

pub data Category : Type 0 where
  security optimization : Category

pub record Finding : Type 0 where
  pub title : Text
  pub explanation : Text
  pub evidence_references : List Text
  pub category : Category

-- The one state, `AwaitingHumanReview`, holds nothing.
pub record ReviewProposal : Type 0 where
  pub system : Text
  pub observer : Text
  pub finding : Finding

-- `id`.
unfoldable pub is_id : Text → Bool
is_id s =
    not (is_empty s)
    && leb (text_len s) 256
    && all (λ b. is_alphanumeric b || b == b'-' || b == b'_' || b == b':' || b == b'.' || b == b'/')
        s

-- The test of `Advisory::new`, negated.
unfoldable pub is_valid_policy : Policy → Bool
is_valid_policy p = not (
    not (is_id p.system)
    || not (is_id p.observer)
    || is_empty p.resources
    || ltb 128 (length p.resources)
    || not (all is_id p.resources)
    || not (between 1 64 p.max_evidence)
    || not (between 1 65536 p.max_content_bytes))

-- The loop over the telemetry: the bytes counted and the references seen.
unfoldable pub gather : Policy → ℕ → List Text → List Telemetry → Result Error (ℕ × List Text)
gather p bytes references [] = ok (bytes, references)
gather p bytes references (t ∷ ts) = do
  guard (not (not (contains p.resources t.resource) || not (is_id t.evidence_reference)))
      Error.denied
  guard (not (contains references t.evidence_reference)) Error.missing_evidence
  some_bytes ← ok_or (checked_add bytes (text_len t.summary)) Error.bounds
  more_bytes ← ok_or (checked_add some_bytes (text_len t.evidence_reference)) Error.bounds
  gather p more_bytes (t.evidence_reference ∷ references) ts

-- The loop over the references of the finding.
unfoldable pub cite : ℕ → List Text → List Text → Result Error ℕ
cite bytes references [] = ok bytes
cite bytes references (r ∷ rs) = do
  guard (contains references r) Error.missing_evidence
  more_bytes ← ok_or (checked_add bytes (text_len r)) Error.bounds
  cite more_bytes references rs

unfoldable pub has_bounds : Policy → List Telemetry → Finding → Bool
has_bounds p telemetry f = not (
    is_empty telemetry
    || ltb p.max_evidence (length telemetry)
    || is_empty f.title
    || ltb 256 (text_len f.title)
    || is_empty f.explanation
    || is_empty f.evidence_references
    || ltb p.max_evidence (length f.evidence_references))

unfoldable pub propose :
    Policy → Text → List Telemetry → Option Finding → Result Error ReviewProposal
propose p observer telemetry found = do
  guard (list_eq observer p.observer) Error.denied
  guard p.admitted Error.unavailable
  f ← ok_or found Error.unavailable
  guard (has_bounds p telemetry f) Error.bounds
  bytes ← ok_or (checked_add (text_len f.title) (text_len f.explanation)) Error.bounds
  gathered ← gather p bytes [] telemetry
  total ← cite gathered.0 gathered.1 f.evidence_references
  guard (not (ltb p.max_content_bytes total)) Error.bounds
  ok (record { system = p.system; observer = p.observer; finding = f })

-- The bytes of all the texts that the reviewer is shown.
abbrev pub evidence_bytes : List Telemetry → ℕ
evidence_bytes [] = 0
evidence_bytes (t ∷ ts) = text_len t.summary + text_len t.evidence_reference + evidence_bytes ts

abbrev pub total_len : List Text → ℕ
total_len [] = 0
total_len (r ∷ rs) = text_len r + total_len rs

abbrev pub references : List Telemetry → List Text
references [] = []
references (t ∷ ts) = t.evidence_reference ∷ references ts

gather_facts :
    (p : Policy) (bytes total : ℕ) (before after : List Text) (ts : List Telemetry)
    → gather p bytes before ts ≡ ok (total, after)
    → (total ≡ bytes + evidence_bytes ts)
      × All (λ (t : Telemetry). contains p.resources t.resource ≡ true) ts
      × ((r : Text)
          → contains after r ≡ true
          → (contains before r ≡ true) ⊎ (contains (references ts) r ≡ true))
unfolding gather
gather_facts p bytes total before after [] h = (ground arith, tt, λ r k. inl (ground arith))
gather_facts p bytes total before after (t ∷ ts) h =
    let ih =
      gather_facts p (bytes + text_len t.summary + text_len t.evidence_reference) total
        (t.evidence_reference ∷ before) after ts (ground arith) in
    (ground arith, (ground arith, ih.1), λ r k. (let w = ih.2 r k in ground arith))

cite_facts :
    (bytes total : ℕ) (known rs : List Text)
    → cite bytes known rs ≡ ok total
    → (total ≡ bytes + total_len rs) × All (λ r. contains known r ≡ true) rs
unfolding cite
cite_facts bytes total known [] h = (ground arith, tt)
cite_facts bytes total known (r ∷ rs) h =
    let ih = cite_facts (bytes + text_len r) total known rs (ground arith) in
    (ground arith, (ground arith, ih.1))

cited :
    (ts : List Telemetry) (after rs : List Text)
    → ((r : Text)
        → contains after r ≡ true
        → (contains [] r ≡ true) ⊎ (contains (references ts) r ≡ true))
    → All (λ r. contains after r ≡ true) rs
    → All (λ r. contains (references ts) r ≡ true) rs
cited ts after [] f h = tt
cited ts after (r ∷ rs) f h = (let w = f r h.0 in ground arith, cited ts after rs f h.1)

-- A proposal comes from the policy's own admitted observer, shows the finding as it was, cites only
-- evidence that the telemetry holds, from resources of the policy, and fits the policy's bytes.
pub record Supported (p : Policy) (observer : Text) (ts : List Telemetry) (r : ReviewProposal)
    : Type 0 where
  pub observer_is : observer ≡ p.observer
  pub admitted : p.admitted ≡ true
  pub system_is : r.system ≡ p.system
  pub covered : All (λ (t : Telemetry). contains p.resources t.resource ≡ true) ts
  pub evidence : All (λ x. contains (references ts) x ≡ true) r.finding.evidence_references
  pub within :
      text_len r.finding.title
        + text_len r.finding.explanation
        + evidence_bytes ts
        + total_len r.finding.evidence_references
      ≤ p.max_content_bytes

-- A proposal that is made is supported by the telemetry, and shows the finding that was found.
pub propose-Supported :
    (p : Policy) (observer : Text) (ts : List Telemetry) (f : Finding) (r : ReviewProposal)
    → propose p observer ts (some f) ≡ ok r
    → Supported p observer ts r × (r.finding ≡ f)
unfolding propose
propose-Supported p observer ts f r h =
    let bytes = text_len f.title + text_len f.explanation in
    elim (Result-cases (gather p bytes [] ts)) [
      | inr (e, q) ↦ absurd (ground arith)
      | inl ((total, after), q) ↦ elim (Result-cases (cite total after f.evidence_references)) [
        | inr (e, k) ↦ absurd (ground arith)
        | inl (sum, k) ↦
            let g = gather_facts p bytes total [] after ts q in
            let c = cite_facts total sum after f.evidence_references k in
            let same : r.finding ≡ f = ground arith in
            let d = cited ts after f.evidence_references g.2 c.1 in
            (
              record {
                observer_is = list_eq-eq observer p.observer (ground arith);
                admitted = ground arith;
                system_is = ground arith;
                covered = g.1;
                evidence =
                    subst
                      (λ (x : Finding).
                        All (λ y. contains (references ts) y ≡ true) x.evidence_references)
                      (sym same) d;
                within = ground arith;
              },
              same,
            )
      ]
    ]
