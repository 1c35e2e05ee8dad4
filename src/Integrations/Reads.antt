-- ===== src/Integrations/Reads.antt =====
-- What a read that succeeds was checked for, where a request may go, and the slots of the reads.
use tentaflake.Integrations.Grants.{
  method_eq, ReadRequest, provider, origin, is_valid_grant, route, is_dots, Provider, Grant,
  contains_method, ReadMethod, segments, provider_eq, authorize, Route,
}
use tentaflake.Prelude.{
  refl, zero, suc, get_elem?, u64_mod, ◌+◌, ◌≡◌, Bool-cases, inl, ◌∷◌, ◌<◌, inr, not, false,
  Option-cases, some, List, contains, ◌≤◌, any, list_eq-eq, [], arith, true, ◌≢◌, ok, ℕ, ap, ◌∙◌,
  Result-cases, length, get_elem?, u64_mod, ◌+◌, suc,
}
use tentaflake.Integrations.Gateway.{
  prepare, Moment, Dispatch, World, acquire, Response, Content, Json, content, conclude, read_inner,
  exchange, Reading, overlap_step, overlap, Event, take_slot, Reads, remove_at, drop_slot, begins,
  ends,
}

-- The grant covers the request at this moment.
pub record Granted (g : Grant) (m : Moment) (r : ReadRequest) : Type 0 where
  pub live : m.generation ≢ 0
  pub now : ℕ
  pub clock_is : m.clock ≡ some now
  pub unexpired : now < g.expires_unix
  pub generation_is : r.generation ≡ g.generation
  pub tenant_is : r.tenant ≡ g.tenant
  pub account_is : r.account ≡ g.account
  pub resource_in : contains g.resources r.resource ≡ true
  pub method_in : contains_method g.methods r.method ≡ true

pub authorize-Granted :
    (g : Grant) (m : Moment) (r : ReadRequest)
    → authorize g m.generation m.clock r ≡ ok tt
    → Granted g m r
unfolding authorize
authorize-Granted g m r h = elim (Option-cases m.clock) [
  | inl e ↦ absurd (ground arith)
  | inr (now, e) ↦ record {
    live = ground arith;
    now = now;
    clock_is = e;
    unexpired = ground arith;
    generation_is = ground arith;
    tenant_is = list_eq-eq r.tenant g.tenant (ground arith);
    account_is = list_eq-eq r.account g.account (ground arith);
    resource_in = ground arith;
    method_in = ground arith;
  }
]

-- Every method of a valid grant belongs to its provider.
method_provider :
    (p : Provider) (m : ReadMethod) (ms : List ReadMethod)
    → any (λ x. not (provider_eq (provider x) p)) ms ≡ false
    → contains_method ms m ≡ true
    → provider m ≡ p
unfolding provider
method_provider p m [] h k = cc
method_provider p m (x ∷ ms) h k = elim (Bool-cases (method_eq x m)) [
  | inl e ↦ same p m x e (ground arith)
  | inr e ↦ method_provider p m ms (ground arith) (ground arith)
]
  where
    same :
        (p : Provider) (m x : ReadMethod)
        → method_eq x m ≡ true
        → not (provider_eq (provider x) p) ≡ false
        → provider m ≡ p
    same p m x e f = ground arith

prepare_facts :
    (g : Grant) (w : World) (r : ReadRequest) (d : Dispatch)
    → prepare g w r ≡ ok d
    → (route r ≡ ok d.url)
      × (authorize g w.dispatch.generation w.dispatch.clock r ≡ ok tt)
      × (d.cap ≡ g.max_body_bytes)
      × (d.remaining ≤ g.deadline_ms)
unfolding prepare
prepare_facts g w r d h = elim (Result-cases (route r)) [
  | inr (e, q) ↦ absurd (ground arith)
  | inl (u, q) ↦ elim (Option-cases w.credential) [
    | inl e ↦ absurd (ground arith)
    | inr (c, e) ↦ elim (Result-cases (authorize g w.dispatch.generation w.dispatch.clock r)) [
      | inr (x, a) ↦ absurd (ground arith)
      | inl (_, a) ↦ (ground arith, a, ground arith, ground arith)
    ]
  ]
]

valid_methods :
    (g : Grant)
    → is_valid_grant g ≡ true
    → any (λ x. not (provider_eq (provider x) g.provider)) g.methods ≡ false
unfolding is_valid_grant
valid_methods g v = ground arith

route_facts :
    (r : ReadRequest) (u : Route)
    → route r ≡ ok u
    → (u.host ≡ origin (provider r.method))
      × (u.segments ≡ segments r r.method)
      × (is_dots r.resource ≡ false)
      × (is_dots r.account ≡ false)
unfolding route
route_facts r u h = ground arith

-- A request that leaves for the transport goes to the origin of the grant's own provider, with the
-- resource as one last path segment that is neither "." nor "..", under the grant's cap and deadline.
abbrev pub Bounded : Grant → ReadRequest → Dispatch → Type 0
Bounded g r d =
    (d.url.host ≡ origin g.provider)
    × (d.url.segments ≡ segments r r.method)
    × (is_dots r.resource ≡ false)
    × (is_dots r.account ≡ false)
    × (d.cap ≡ g.max_body_bytes)
    × (d.remaining ≤ g.deadline_ms)

-- Under a valid grant, what is handed to the transport is bounded as above.
pub prepare-Bounded :
    (g : Grant) (w : World) (r : ReadRequest) (d : Dispatch)
    → is_valid_grant g ≡ true
    → prepare g w r ≡ ok d
    → Bounded g r d
prepare-Bounded g w r d v h =
    let f = prepare_facts g w r d h in
    let a = authorize-Granted g w.dispatch r f.1 in
    let p = method_provider g.provider r.method g.methods (valid_methods g v) a.method_in in
    let u = route_facts r d.url f.0 in (u.0 ∙ ap origin p, u.1, u.2, u.3, f.2, f.3)

module _ (j : Json) where
  -- Why a read may return what it returns.
  pub record Earned (g : Grant) (w : World) (r : ReadRequest) (c : Content j) : Type 0 where
    pub at_start : Granted g w.start r
    pub at_dispatch : Granted g w.dispatch r
    pub at_arrival : Granted g w.arrival r
    pub still_valid : w.valid ≡ ok tt
    pub in_time : w.elapsed_after ≤ g.deadline_ms
    pub response : Response
    pub response_is : w.response ≡ ok response
    pub status_ok : response.status ≡ 200
    pub body_within : length response.body ≤ g.max_body_bytes
    pub content_is : content j r r.method response.body ≡ ok c

  conclude_facts :
      (g : Grant) (w : World) (r : ReadRequest) (p : Response) (c : Content j)
      → conclude j g w r p ≡ ok c
      → (authorize g w.arrival.generation w.arrival.clock r ≡ ok tt)
        × (w.valid ≡ ok tt)
        × (w.elapsed_after ≤ g.deadline_ms)
        × (p.status ≡ 200)
        × (length p.body ≤ g.max_body_bytes)
        × (content j r r.method p.body ≡ ok c)
  unfolding conclude
  conclude_facts g w r p c h =
      elim (Result-cases (authorize g w.arrival.generation w.arrival.clock r)) [
        | inr (e, a) ↦ absurd (ground arith)
        | inl (_, a) ↦ elim (Result-cases w.valid) [
          | inr (e, v) ↦ absurd (ground arith)
          | inl (_, v) ↦ (a, v, ground arith, ground arith, ground arith, ground arith)
        ]
      ]

  -- A read that returns content was authorised before, during and after the provider's work, so a
  -- revocation or an expiry on the way discards the response; its response was a 200 within the cap.
  pub read_inner-Earned :
      (g : Grant) (w : World) (active n : ℕ) (r : ReadRequest) (c : Content j)
      → read_inner j g w active r ≡ (ok c, n)
      → Earned g w r c
  unfolding read_inner take_slot exchange
  read_inner-Earned g w active n r c h =
      elim (Result-cases (authorize g w.start.generation w.start.clock r)) [
        | inr (e, a) ↦ absurd (ground arith)
        | inl (_, a) ↦ elim (Result-cases (acquire g active)) [
          | inr (e, q) ↦ absurd (ground arith)
          | inl (taken, q) ↦ elim (Result-cases (prepare g w r)) [
            | inr (e, p) ↦ absurd (ground arith)
            | inl (d, p) ↦ elim (Result-cases w.response) [
              | inr (e, s) ↦ absurd (ground arith)
              | inl (s, sent) ↦
                  let f = prepare_facts g w r d p in
                  let k = conclude_facts g w r s c (ground arith) in
                  record {
                    at_start = authorize-Granted g w.start r a;
                    at_dispatch = authorize-Granted g w.dispatch r f.1;
                    at_arrival = authorize-Granted g w.arrival r k.0;
                    still_valid = k.1;
                    in_time = k.2;
                    response = s;
                    response_is = sent;
                    status_ok = k.3;
                    body_within = k.4;
                    content_is = k.5;
                  }
            ]
          ]
        ]
      ]

length-remove_at :
    (i : ℕ) (l : List Reading) (x : Reading)
    → get_elem? l i ≡ some x
    → length (remove_at i l) + 1 ≡ length l
length-remove_at i [] x h = ground arith
length-remove_at zero (y ∷ l) x h = omega arith
length-remove_at (suc i) (y ∷ l) x h = omega (arith, length-remove_at i l x (ground arith))

overlap_step-counts :
    (g : Grant) (e : Event) (s : Reads)
    → g.max_concurrency < u64_mod
    → s.active ≡ length s.running
    → s.active ≤ g.max_concurrency
    → ((overlap_step g e s).active ≡ length (overlap_step g e s).running)
      × ((overlap_step g e s).active ≤ g.max_concurrency)
unfolding overlap_step take_slot acquire drop_slot
overlap_step-counts g (begins w r) s m h k =
    elim (Result-cases (authorize g w.start.generation w.start.clock r)) [
      | inr (e, q) ↦ (ground arith, ground arith)
      | inl (_, q) ↦ (ground arith, ground arith)
    ]
overlap_step-counts g (ends i) s m h k = elim (Option-cases (get_elem? s.running i)) [
  | inl q ↦ (ground arith, ground arith)
  | inr (x, q) ↦ let z = length-remove_at i s.running x q in (ground arith, ground arith)
]

overlap-counts :
    (g : Grant) (es : List (Event)) (s : Reads)
    → g.max_concurrency < u64_mod
    → s.active ≡ length s.running
    → s.active ≤ g.max_concurrency
    → ((overlap g es s).active ≡ length (overlap g es s).running)
      × ((overlap g es s).active ≤ g.max_concurrency)
unfolding overlap
overlap-counts g [] s m h k = (h, k)
overlap-counts g (e ∷ es) s m h k =
    let (h', k') = overlap_step-counts g e s m h k in
    overlap-counts g es (overlap_step g e s) m h' k'

-- However the reads of a valid grant overlap, from a gateway with no read on, at most
-- max_concurrency and so at most 16 of them hold a slot, and the shared count is their number.
pub overlap-within :
    (g : Grant) (es : List (Event))
    → is_valid_grant g ≡ true
    → let s = overlap g es (record { active = 0; running = [] }) in
      (s.active ≡ length s.running)
      × (length s.running ≤ g.max_concurrency)
      × (length s.running ≤ 16)
unfolding is_valid_grant
overlap-within g es v =
    let most : g.max_concurrency ≤ 16 = ground arith in
    let (h, k) =
      overlap-counts g es (record { active = 0; running = [] }) (omega arith) refl (omega arith) in
    (h, omega arith, omega arith)
