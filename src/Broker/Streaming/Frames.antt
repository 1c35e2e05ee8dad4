-- ===== src/Broker/Streaming/Frames.antt =====
-- The frames that the parser cuts: what they hold, where they end, and how long they are.
use mathlib.Core.List.{append_assoc, append-nil}
use tentaflake.Prelude.{
  none, ℕ, ◌++◌, arith, ◌||◌, true, length, [], ◌∷◌, ◌≤◌, Option, ◌≡◌, ◌==◌, ◌&&◌, false, Bool, ◌+◌,
  refl, ok, List, some, if◌then◌else◌, All, length-append, inr, subst, ap, inl, Result-cases, ◌∙◌,
  sym,
}
use tentaflake.Broker.Streaming.Sse.{end_line, SseParser, count_byte, push, feed, new_parser}

-- The input with each end of line, LF, CR or CR LF, as one LF; after a CR an LF is dropped.
abbrev pub normalize : Bool → List ℕ → List ℕ
normalize after_cr [] = []
normalize after_cr (b ∷ s) =
    let dropped = normalize false s in
    let cr = 10 ∷ normalize true s in
    let kept = b ∷ normalize false s in
    if after_cr && b == 10 then dropped else if b == 13 then cr else kept

abbrev pub flatten : List (List ℕ) → List ℕ
flatten [] = []
flatten (f ∷ fs) = f ++ flatten fs

-- The bytes of the last line, after `k` bytes of it.
abbrev pub last_line : ℕ → List ℕ → ℕ
last_line k [] = k
last_line k (b ∷ s) = last_line (if b == 10 then 0 else k + 1) s

-- An empty line ends somewhere in the text.
abbrev pub has_blank : ℕ → List ℕ → Bool
has_blank k [] = false
has_blank k (b ∷ s) = (b == 10 && k == 0) || has_blank (if b == 10 then 0 else k + 1) s

-- An event ends with its first empty line, and is no longer than the limit.
pub record IsEvent (limit : ℕ) (f : List ℕ) : Type 0 where
  pub body : List ℕ
  pub body_is : f ≡ body ++ (10 ∷ [])
  pub ends : last_line 0 body ≡ 0
  pub first : has_blank 0 body ≡ false
  pub within : length f ≤ limit

last_line-append :
    (k : ℕ) (s : List ℕ) (b : ℕ)
    → last_line k (s ++ (b ∷ [])) ≡ (if b == 10 then 0 else last_line k s + 1)
last_line-append k [] b = refl
last_line-append k (x ∷ s) b = last_line-append (if x == 10 then 0 else k + 1) s b

has_blank-append :
    (k : ℕ) (s : List ℕ) (b : ℕ)
    → has_blank k (s ++ (b ∷ [])) ≡ (has_blank k s || (b == 10 && last_line k s == 0))
has_blank-append k [] b = ground arith
has_blank-append k (x ∷ s) b =
    let ih = has_blank-append (if x == 10 then 0 else k + 1) s b in ground arith

-- The parser between two bytes.
record Inv (p : SseParser) : Type 0 where
  line : last_line 0 p.frame ≡ p.line_bytes
  open_event : has_blank 0 p.frame ≡ false
  counted : length p.frame ≤ p.raw_bytes
  bounded : p.raw_bytes ≤ p.limit

-- What a byte leaves: the normalized input goes on, and a completed frame is an event.
abbrev Pushed : SseParser → ℕ → SseParser → Option (List ℕ) → Type 0
Pushed p b q none =
    Inv q
    × (q.limit ≡ p.limit)
    × ((s : List ℕ) → p.frame ++ normalize p.skip_lf (b ∷ s) ≡ q.frame ++ normalize q.skip_lf s)
Pushed p b q (some f) =
    Inv q
    × (q.limit ≡ p.limit)
    × ((s : List ℕ)
        → p.frame ++ normalize p.skip_lf (b ∷ s) ≡ f ++ (q.frame ++ normalize q.skip_lf s))
    × IsEvent p.limit f

push-Pushed :
    (p : SseParser) (b : ℕ) (r : Option (List ℕ)) (q : SseParser)
    → Inv p
    → push p b ≡ (ok r, q)
    → Pushed p b q r
unfolding push count_byte end_line
push-Pushed p b none q v h = (
  record {
    line = ground (arith, last_line-append 0 p.frame 10, last_line-append 0 p.frame b);
    open_event = ground (arith, has_blank-append 0 p.frame 10, has_blank-append 0 p.frame b);
    counted = ground (arith, length-append p.frame (10 ∷ []), length-append p.frame (b ∷ []));
    bounded = ground arith;
  },
  ground arith,
  λ s. ground (
    arith,
    append_assoc p.frame (10 ∷ []) (normalize true s),
    append_assoc p.frame (10 ∷ []) (normalize false s),
    append_assoc p.frame (b ∷ []) (normalize false s),
  ),
)
push-Pushed p b (some f) q v h = (
  record {
    line = ground arith;
    open_event = ground arith;
    counted = ground arith;
    bounded = ground arith;
  },
  ground arith,
  λ s. ground (
    arith,
    append_assoc p.frame (10 ∷ []) (normalize true s),
    append_assoc p.frame (10 ∷ []) (normalize false s),
  ),
  record {
    body = p.frame;
    body_is = ground arith;
    ends = ground arith;
    first = ground arith;
    within = ground (arith, length-append p.frame (10 ∷ []));
  },
)

-- What a run of the parser from `p` leaves: the frames and the pending bytes are the normalized
-- input, and every frame is an event.
pub record Cut (p : SseParser) (bytes : List ℕ) (frames : List (List ℕ)) (q : SseParser)
    : Type 0 where
  pub text : p.frame ++ normalize p.skip_lf bytes ≡ flatten frames ++ q.frame
  pub events : All (IsEvent p.limit) frames
  pub pending : has_blank 0 q.frame ≡ false
  pub within : length q.frame ≤ p.limit

feed-Cut :
    (p : SseParser) (bytes : List ℕ) (frames : List (List ℕ)) (q : SseParser)
    → Inv p
    → feed p bytes ≡ (ok frames, q)
    → Cut p bytes frames q
unfolding feed
feed-Cut p [] frames q v h =
    let same : p ≡ q = ground arith in
    let none_yet : frames ≡ [] = ground arith in
    rw (none_yet, ← same)
      (record {
        text = append-nil p.frame;
        events = tt;
        pending = v.open_event;
        within = omega (arith, v.counted, v.bounded);
      })
feed-Cut p (b ∷ bytes) frames q v h =
    let m = (push p b).1 in
    elim (Result-cases (push p b).0) [
      | inr (e, k) ↦ absurd (ground arith)
      | inl (none, k) ↦
          let w = push-Pushed p b none m v (ground arith) in
          let c = feed-Cut m bytes frames q w.0 (ground arith) in
          let l = w.1 in
          record {
            text = w.2 bytes ∙ c.text;
            events = subst (λ n. All (IsEvent n) frames) l c.events;
            pending = c.pending;
            within = subst (λ n. length q.frame ≤ n) l c.within;
          }
      | inl (some f, k) ↦ elim (Result-cases (feed m bytes).0) [
        | inr (e, n) ↦ absurd (ground arith)
        | inl (fs, n) ↦
            let w = push-Pushed p b (some f) m v (ground arith) in
            let c = feed-Cut m bytes fs q w.0 (ground arith) in
            let same : frames ≡ f ∷ fs = ground arith in
            rw same (record {
              text =
                  w.2 bytes
                  ∙ ap (λ (x : List ℕ). f ++ x) c.text
                  ∙ sym (append_assoc f (flatten fs) q.frame);
              events = (w.3, subst (λ n. All (IsEvent n) fs) w.1 c.events);
              pending = c.pending;
              within = subst (λ n. length q.frame ≤ n) w.1 c.within;
            })
      ]
    ]

-- Bytes that a new parser accepts are cut without loss: with every end of line as one LF they are
-- the frames and what is pending; each frame ends with its first empty line and is within the limit,
-- and the pending bytes hold no empty line and are within it too.
pub feed-cut :
    (limit : ℕ) (bytes : List ℕ) (frames : List (List ℕ)) (q : SseParser)
    → feed (new_parser limit) bytes ≡ (ok frames, q)
    → (normalize false bytes ≡ flatten frames ++ q.frame)
      × All (IsEvent limit) frames
      × (has_blank 0 q.frame ≡ false)
      × (length q.frame ≤ limit)
unfolding new_parser
feed-cut limit bytes frames q h =
    let c =
      feed-Cut (new_parser limit) bytes frames q
        (record { line = refl; open_event = refl; counted = omega arith; bounded = omega arith })
        h in
    (c.text, c.events, c.pending, c.within)
