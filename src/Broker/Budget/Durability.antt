-- ===== src/Broker/Budget/Durability.antt =====
-- An admission is on disk before it is acknowledged: a restart reads back what memory holds.
use tentaflake.Broker.Budget.Authority.{unchanged, moved, lost, ready-Verified}
use tentaflake.Broker.Budget.Outcomes.{
  refused, admitted, unwritten, Admission, written, reserve_with_clock-Reserved,
}
use tentaflake.Prelude.{
  ◌≡◌, unwrap_or, some, true, ◌≤◌, ◌<◌, ◌↔◌, ◌≢◌, arith, refl, Bool, Bool-cases, inl, none, ◌+◌,
  ◌/◌, inr, ℕ, ◌==◌, u64_mod, false, if◌then◌else◌, ok,
}
use tentaflake.Broker.Budget.State.{BudgetState, OptFits, Fits}
use tentaflake.Broker.Budget.Disk.{is_consistent, Codec, Os, read_strict_budget, stamp}
use tentaflake.Broker.Budget.Admission.{
  System, roll_day, propose, Proposal, is_strict, reserve_with_clock,
}
use tentaflake.Broker.Budget.Storage.{IsStored, Readable, read_strict_budget-stamp}
use tentaflake.Broker.Budget.Charging.{ChargeFacts, propose_facts, charge-ChargeFacts}

-- What `read_strict_budget` asks of the counters.
pub record Counters (b : BudgetState) : Type 0 where
  pub empty : b.requests ≡ 0 → (b.tokens ≡ 0) × (b.cost_microusd ≡ 0)
  pub used : b.requests ≢ 0 → (0 < b.tokens) × (0 < b.cost_microusd)
  pub held_le : unwrap_or b.unsettled 0 ≤ b.requests
  pub pending_le : unwrap_or b.pending_usage 0 ≤ b.requests
  pub pending_ne : b.pending_usage ≢ some 0

pub Counters-iff : (b : BudgetState) → (is_consistent b ≡ true) ↔ Counters b
unfolding is_consistent
Counters-iff b = (λ h. ground arith, λ k. ground arith)

rolled-Fits :
    (strict : Bool) (now : ℕ) (b : BudgetState)
    → Fits b
    → now < u64_mod
    → Fits (roll_day strict (now / 86400) b)
unfolding roll_day
rolled-Fits strict now b f h = elim (Bool-cases (b.day == now / 86400)) [
  | inl e ↦ rw e f
  | inr e ↦ rw e (record {
    day_fits = omega arith;
    requests_fits = omega arith;
    tokens_fits = omega arith;
    cost_fits = omega arith;
    last_seen_fits = tt;
    unsettled_fits = new_held strict;
    pending_fits = tt;
    checksum_fits = tt;
  })
]
  where
    new_held : (k : Bool) → OptFits (if k then some 0 else none)
    new_held true = omega arith
    new_held false = tt

-- The counters that the request starts from: the day's, or those of an empty day.
rolled-Counters :
    (now : ℕ) (b : BudgetState) → Counters b → Counters (roll_day true (now / 86400) b)
unfolding roll_day
rolled-Counters now b k = ground arith

charged-Counters :
    (track : Bool) (now tokens cost : ℕ) (p : Proposal) (b r : BudgetState)
    → 0 < tokens
    → 0 < cost
    → Counters b
    → propose tokens cost b ≡ some p
    → ChargeFacts true track now p b r
    → Counters r
charged-Counters track now tokens cost p b r ht hc k q f =
    let w = propose_facts tokens cost b p q in
    let (n, u, u', _) = f.held refl in
    record {
      empty = ground arith;
      used = ground arith;
      held_le = ground arith;
      pending_le = ground arith;
      pending_ne = ground arith;
    }

charged-Fits :
    (track : Bool) (now tokens cost : ℕ) (p : Proposal) (b r : BudgetState)
    → now < u64_mod
    → Fits b
    → propose tokens cost b ≡ some p
    → ChargeFacts true track now p b r
    → Fits r
charged-Fits track now tokens cost p b r h k q f =
    let w = propose_facts tokens cost b p q in
    let (n, u, u', l) = f.held refl in
    record {
      day_fits = ground arith;
      requests_fits = ground arith;
      tokens_fits = ground arith;
      cost_fits = ground arith;
      last_seen_fits = rw (f.seen refl) h;
      unsettled_fits = rw u' l;
      pending_fits = pending track f.pending (f.pending_fits);
      checksum_fits = rw f.same_checksum k.checksum_fits;
    }
  where
    pending :
        (t : Bool)
        → r.pending_usage ≡ (if t then some (unwrap_or b.pending_usage 0 + 1) else b.pending_usage)
        → (t ≡ true → unwrap_or b.pending_usage 0 + 1 < u64_mod)
        → OptFits r.pending_usage
    pending true e g = rw e (g refl)
    pending false e g = rw e k.pending_fits

module _ (c : Codec) where
  pub charged-IsStored :
      (os : Os) (tokens cost : ℕ) (track : Bool) (now : ℕ) (s : System) (p : Proposal)
      (r : BudgetState) (active : ℕ)
      → is_strict s.limits ≡ true
      → now < u64_mod
      → 0 < tokens
      → 0 < cost
      → Admission c os tokens cost track now s p r active
      → IsStored r
  charged-IsStored os tokens cost track now s p r active strict h ht hc a =
      let v = ready-Verified c os now s strict a.ready_ok in
      let b = roll_day true (now / 86400) s.limits.budget in
      let q : propose tokens cost b ≡ some p = rw strict at a.proposed in
      let f : ChargeFacts true track now p b r =
        charge-ChargeFacts true track now p b r (rw strict at a.charge_ok) in
      let held = f.held refl in
      record {
        fits =
            charged-Fits track now tokens cost p b r h (rolled-Fits true now _ v.stored.fits h) q f;
        consistent = (Counters-iff r).1 (
            charged-Counters track now tokens cost p b r ht hc
              (rolled-Counters now _ ((Counters-iff _).0 v.stored.consistent)) q f);
        last_seen = now;
        last_seen_is = f.seen refl;
        unsettled = held.0 + 1;
        unsettled_is = held.2;
      }

  -- Where a strict broker, at a clock of 64 bits, admits a request of a positive number of tokens
  -- and a positive cost, its charge is on disk before it is acknowledged: a restart that can read
  -- the file reads back the budget that memory holds.
  pub reserve_with_clock-durable :
      (os later : Os) (tokens cost : ℕ) (track : Bool) (now : ℕ) (s s' : System)
      → is_strict s.limits ≡ true
      → now < u64_mod
      → 0 < tokens
      → 0 < cost
      → reserve_with_clock c os tokens cost track now s ≡ (ok tt, s')
      → Readable later
      → read_strict_budget c later s'.file ≡ ok s'.limits.budget
  reserve_with_clock-durable os later tokens cost track now s s' strict h ht hc e r =
      elim (reserve_with_clock-Reserved c os tokens cost track now s) [
        | refused (unchanged x q) ↦ absurd (ground arith)
        | refused (moved x k q) ↦ absurd (ground arith)
        | refused (lost x k q) ↦ absurd (ground arith)
        | admitted p charged active a q ↦
            let i = charged-IsStored os tokens cost track now s p charged active strict h ht hc a in
            let w = read_strict_budget-stamp c later charged r i in
            let z : written c s charged ≡ stamp c true charged = rw strict in ground (arith, w)
        | unwritten p charged active x f a k q ↦ absurd (ground arith)
      ]
