-- ===== src/Broker/Budget/History.antt =====
-- Histories of a running broker: a list of calls, each with its time and what the operating system
-- answered, in the order in which the mutex let them in.
use tentaflake.Broker.Budget.Charging.{Charged, reserve_with_clock-Charged}
use tentaflake.Broker.Budget.Authority.{unchanged, moved, lost, ready-open}
use tentaflake.Broker.Budget.Outcomes.{refused, admitted, unwritten, reserve_with_clock-Reserved}
use tentaflake.Prelude.{
  ◌≡◌, err, List, Bool, Option, Result, ℕ, ◌∷◌, [], ◌+◌, ok, refl, false, arith,
}
use tentaflake.Broker.Budget.Usage.{
  drop_reservation, UsageGuard, observe, settle_with_clock, drop_guard,
}
use tentaflake.Broker.Budget.Admission.{reserve_with_clock, System}
use tentaflake.Broker.Budget.State.{Error}
use tentaflake.Broker.Budget.Keeping.{
  SameLimits, Kept, reserve_with_clock-limits, settle_with_clock-Kept, reserve_with_clock-Kept,
  observe-Kept, drop_guard-Kept, drop_reservation-Kept,
}
use tentaflake.Broker.Budget.Disk.{Codec, Os}

pub data Call : Type 0 where
  reserves : ℕ → ℕ → Bool → Call
  settles : Call
  observes : ℕ → Option ℕ → UsageGuard → Call
  drops_guard : UsageGuard → Call
  drops_reservation : Bool → Call

pub record Event : Type 0 where
  pub call : Call
  pub now : ℕ
  pub os : Os

-- What a call admits: its tokens and cost, if it is a reservation that succeeds.
pub record Spent : Type 0 where
  pub requests : ℕ
  pub tokens : ℕ
  pub cost : ℕ

abbrev pub nothing : Spent
nothing = record { requests = 0; tokens = 0; cost = 0 }

abbrev pub spend : Spent → Spent → Spent
spend a b = record {
  requests = a.requests + b.requests;
  tokens = a.tokens + b.tokens;
  cost = a.cost + b.cost;
}

-- What is charged once the outcome of a reservation is known.
abbrev pub admitted_by : ℕ → ℕ → Result Error (Unit {0}) → Spent
admitted_by tokens cost (ok _) = record { requests = 1; tokens = tokens; cost = cost }
admitted_by tokens cost (err _) = nothing

module _ (c : Codec) where
  unfoldable pub perform : Os → ℕ → Call → System → System × Spent
  perform os now (reserves tokens cost track) s =
      let r = reserve_with_clock c os tokens cost track now s in (r.1, admitted_by tokens cost r.0)
  perform os now settles s = ((settle_with_clock c os now s).1, nothing)
  perform os now (observes tokens cost g) s = ((observe c os now tokens cost g s).2, nothing)
  perform os now (drops_guard g) s = (drop_guard c os now g s, nothing)
  perform os now (drops_reservation sent) s = (drop_reservation c os now sent s, nothing)

  unfoldable pub step : Event → System → System × Spent
  step e s = perform e.os e.now e.call s

  -- The state after a history, and all that it admitted.
  unfoldable pub run : List Event → System → System × Spent
  run [] s = (s, nothing)
  run (e ∷ es) s = let (t, a) = step e s in let (u, b) = run es t in (u, spend a b)

  -- A call keeps the counters and admits nothing, or is a reservation that is charged.
  pub data Stepped (now : ℕ) (s : System) (r : System × Spent) : Type 0 where
    kept : Kept s r.0 → r.1 ≡ nothing → Stepped now s r
    charged :
        (tokens cost : ℕ)
        → Charged tokens cost now s r.0
        → s.limits.persistence_failed ≡ false
        → s.limits.overage_pending ≡ false
        → SameLimits s.limits r.0.limits
        → r.1 ≡ record { requests = 1; tokens = tokens; cost = cost }
        → Stepped now s r

  reserve_open :
      (os : Os) (now tokens cost : ℕ) (track : Bool) (s s' : System)
      → reserve_with_clock c os tokens cost track now s ≡ (ok tt, s')
      → (s.limits.persistence_failed ≡ false) × (s.limits.overage_pending ≡ false)
  reserve_open os now tokens cost track s s' h =
      elim (reserve_with_clock-Reserved c os tokens cost track now s) [
        | refused (unchanged x q) ↦ absurd (ground arith)
        | refused (moved x k q) ↦ absurd (ground arith)
        | refused (lost x k q) ↦ absurd (ground arith)
        | admitted p b active a q ↦ ready-open c os now s a.ready_ok
        | unwritten p b active x f a k q ↦ absurd (ground arith)
      ]

  reserve-Stepped :
      (os : Os) (now tokens cost : ℕ) (track : Bool) (s : System)
      (r : Result Error (Unit {0}) × System)
      → reserve_with_clock c os tokens cost track now s ≡ r
      → Stepped now s (r.1, admitted_by tokens cost r.0)
  reserve-Stepped os now tokens cost track s (ok _, t) q =
      charged tokens cost (reserve_with_clock-Charged c os tokens cost track now s t q)
        (reserve_open os now tokens cost track s t q).0
        (reserve_open os now tokens cost track s t q).1
        (reserve_with_clock-limits c os tokens cost track now s t q) refl
  reserve-Stepped os now tokens cost track s (err e, t) q =
      kept (reserve_with_clock-Kept c os tokens cost track now s t e q) refl

  pub perform-Stepped :
      (os : Os) (now : ℕ) (call : Call) (s : System) → Stepped now s (perform os now call s)
  unfolding perform
  perform-Stepped os now (reserves tokens cost track) s =
      reserve-Stepped os now tokens cost track s _ refl
  perform-Stepped os now settles s = kept (settle_with_clock-Kept c os now s) refl
  perform-Stepped os now (observes tokens cost g) s =
      kept (observe-Kept c os now tokens cost g s) refl
  perform-Stepped os now (drops_guard g) s = kept (drop_guard-Kept c os now g s) refl
  perform-Stepped os now (drops_reservation sent) s =
      kept (drop_reservation-Kept c os now sent s) refl

  pub step-Stepped : (e : Event) (s : System) → Stepped e.now s (step e s)
  unfolding step
  step-Stepped e s = perform-Stepped e.os e.now e.call s
