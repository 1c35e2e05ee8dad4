-- ===== src/Broker/Budget/Admission.antt =====
-- crates/tentaflake-broker/src/state.rs: `reserve_with_clock`, by which `reserve` and `reserve_llm`
-- admit a request, with the checks that it shares with the other operations.
use tentaflake.Prelude.{
  ℕ, ◌+◌, ◌/◌, Bool, true, false, not, ◌&&◌, ◌||◌, List, Option, none, some, ltb, leb, ◌==◌,
  if◌then◌else◌, checked_add, Result, ok, err, ◌>>=◌, ◌>>◌, guard, ok_or, unwrap_or, is_some,
}
use tentaflake.Broker.Budget.State.{
  BudgetState, RateState, Limits, Error, default, opt_eq, budget_eq,
}
use tentaflake.Broker.Budget.Disk.{
  Codec, Os, verify_owner_and_marker, reject_strict_marker, check_strict_clock, read_strict_budget,
  atomic_json, checkpoint_clock,
}

-- The limits in memory and the content of the state file.
pub record System : Type 0 where
  pub limits : Limits
  pub file : Option (List ℕ)

abbrev pub is_strict : Limits → Bool
is_strict l = is_some l.strict

-- The day's budget that a request is charged to, once the day was found free to change.
unfoldable pub roll_day : Bool → ℕ → BudgetState → BudgetState
roll_day strict day b =
    if b.day == day
    then b
    else record default { day = day; unsettled = if strict then some 0 else none }

unfoldable pub roll_window : ℕ → RateState → RateState
roll_window window r = if r.window == window then r else record { window = window; requests = 0 }

-- Why a request waits for another one's accounting.
unfoldable pub hold : Bool → ℕ → ℕ → BudgetState → Option Error
hold strict active day b =
    if ltb active (unwrap_or b.pending_usage 0)
    then some Error.unresolved_usage
    else if b.day == day
    then none
    else if is_some b.pending_usage
    then some Error.pending_usage_next_day
    else if strict && not (opt_eq b.unsettled (some 0))
    then some Error.unsettled_next_day
    else none

-- The counters after the request, if they can be represented.
pub record Proposal : Type 0 where
  pub requests : ℕ
  pub tokens : ℕ
  pub cost : ℕ

unfoldable pub propose : ℕ → ℕ → BudgetState → Option Proposal
propose tokens cost b = elim (checked_add b.requests 1) [
  | none ↦ none
  | some r ↦ elim (checked_add b.tokens tokens) [
    | none ↦ none
    | some t ↦ elim (checked_add b.cost_microusd cost) [
      | none ↦ none
      | some k ↦ some (record { requests = r; tokens = t; cost = k })
    ]
  ]
]

unfoldable pub over_budget : Limits → Option Proposal → Bool
over_budget l none = true
over_budget l (some p) =
    ltb l.daily_request_budget p.requests
    || ltb l.daily_token_budget p.tokens
    || ltb l.daily_cost_microusd p.cost

unfoldable pub denial : Limits → RateState → Option Proposal → Option Error
denial l r p =
    if leb l.max_requests_per_window r.requests
    then some Error.rate_limit_exceeded
    else if over_budget l p
    then some Error.daily_budget_exceeded
    else none

unfoldable pub count_reservation : Bool → ℕ → BudgetState → Result Error BudgetState
count_reservation false now b = ok b
count_reservation true now b = do
  unsettled ← ok_or b.unsettled Error.missing_unsettled
  more ← ok_or (checked_add unsettled 1) Error.daily_budget_exceeded
  ok (record b { last_seen_seconds = some now; unsettled = some more })

unfoldable pub count_usage : Bool → BudgetState → Result Error BudgetState
count_usage false b = ok b
count_usage true b = do
  more ← ok_or (checked_add (unwrap_or b.pending_usage 0) 1) Error.too_many_pending
  ok (record b { pending_usage = some more })

-- The charged budget, before it is written.
unfoldable pub charge : Bool → Bool → ℕ → Proposal → BudgetState → Result Error BudgetState
charge strict track now p b = do
  held ←
      count_reservation strict now
        (record b { requests = p.requests; tokens = p.tokens; cost_microusd = p.cost })
  count_usage track held

unfoldable pub next_active : Bool → ℕ → Result Error ℕ
next_active true active = ok_or (checked_add active 1) Error.too_many_active
next_active false active = ok active

-- `persist_budget`: a failed write sets the flag of a strict broker.
unfoldable pub persist_budget :
    Codec → Os → BudgetState → System → Result Error BudgetState × System
persist_budget c os b s =
    let (written, file) = atomic_json c os (is_strict s.limits) b s.file in
    (
      written,
      record {
        limits = record s.limits {
          persistence_failed = elim written [
            | ok _ ↦ s.limits.persistence_failed
            | err _ ↦ s.limits.persistence_failed || is_strict s.limits
          ];
        };
        file = file;
      },
    )

unfoldable pub check_authority : Codec → Os → ℕ → System → Result Error (Unit {0})
check_authority c os now s = elim s.limits.strict [
  | some held ↦ do
    verify_owner_and_marker os held
    stored ← read_strict_budget c os s.file
    guard (budget_eq stored s.limits.budget) Error.state_changed
    check_strict_clock s.limits.budget now
  | none ↦ reject_strict_marker os
]

-- A denied request still moves a strict budget's clock checkpoint.
unfoldable pub refuse : Codec → Os → ℕ → Error → System → Result Error (Unit {0}) × System
refuse c os now reason s =
    if is_strict s.limits
    then (let (written, file) = checkpoint_clock c os s.limits.budget now s.file in
        elim written [
          | ok b ↦ (err reason, record { limits = record s.limits { budget = b }; file = file })
          | err e ↦ (err e, record { limits = s.limits; file = file })
        ])
    else (err reason, s)

-- The write, and what the mutex protects once the write is done.
unfoldable pub commit :
    Codec → Os → BudgetState → RateState → ℕ → System → Result Error (Unit {0}) × System
commit c os b r active s =
    let (written, s') = persist_budget c os b s in
    elim written [
      | ok stored ↦ (
        ok tt,
        record s' { limits = record s'.limits { budget = stored; rate = r; active = active } },
      )
      | err e ↦ (err e, s')
    ]

unfoldable pub admit :
    Codec
    → Os
    → ℕ
    → ℕ
    → Bool
    → ℕ
    → BudgetState
    → RateState
    → System
    → Result Error (Unit {0}) × System
admit c os tokens cost track now b r s =
    let proposal = propose tokens cost b in
    elim (denial s.limits r proposal) [
      | some reason ↦ refuse c os now reason s
      | none ↦ elim proposal [
        | none ↦ (err Error.daily_budget_exceeded, s)
        | some p ↦ elim (charge (is_strict s.limits) track now p b) [
          | err e ↦ (err e, s)
          | ok charged ↦ elim (next_active track s.limits.active) [
            | err e ↦ (err e, s)
            | ok active ↦ commit c os charged (record r { requests = r.requests + 1 }) active s
          ]
        ]
      ]
    ]

-- The checks of `reserve_with_clock` before it reads the counters.
unfoldable pub ready : Codec → Os → ℕ → System → Result Error (Unit {0})
ready c os now s = do
  guard os.locks Error.lock_failed
  guard (not s.limits.persistence_failed) Error.persistence_failed
  guard (not s.limits.overage_pending) Error.overage_in_progress
  check_authority c os now s

unfoldable pub reserve_with_clock :
    Codec → Os → ℕ → ℕ → Bool → ℕ → System → Result Error (Unit {0}) × System
reserve_with_clock c os tokens cost track now s = elim (ready c os now s) [
  | err e ↦ (err e, s)
  | ok _ ↦
      let l = s.limits in
      let day = now / 86400 in
      elim (hold (is_strict l) l.active day l.budget) [
        | some reason ↦ refuse c os now reason s
        | none ↦
            admit c os tokens cost track now (roll_day (is_strict l) day l.budget)
              (roll_window (now / l.window_seconds) l.rate) s
      ]
]
