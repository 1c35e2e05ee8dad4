-- ===== src/Broker/Quarantine/Capacity.antt =====
-- The limits of the quarantine, and the objects that it holds and acknowledged.
use tentaflake.Broker.Quarantine.{
  store, fill_object, Storing, usage, is_safe, Object, new_object, Quarantine, usage_from,
  check_store, Error, Opening, open_quarantine,
}
use tentaflake.Prelude.{
  checked_add, List, ◌-◌, inr, ltb, none, ◌+◌, Option, ◌++◌, ◌≡◌, [], list_eq, Option-cases,
  Bool-cases, ◌∙◌, Text, ℕ, ◌∷◌, ◌<◌, arith, some, Result-cases, length, inl, true, ◌≤◌, u64_mod,
  false, any, ok, All, Bool, ◌%◌, refl, if◌then◌else◌, err, list_eq_refl,
}

usage_from-append :
    (q : Quarantine) (b n : ℕ) (l : List Object) (o : Object) (c m : ℕ)
    → usage_from q b n l ≡ ok (c, m)
    → usage_from q b n (l ++ (o ∷ [])) ≡ usage_from q c m (o ∷ [])
unfolding usage_from
usage_from-append q b n [] o c m h = ground arith
usage_from-append q b n (x ∷ l) o c m h = elim (Option-cases (checked_add b x.len)) [
  | inl e ↦ absurd (ground arith)
  | inr (k, e) ↦ let ih = usage_from-append q k (n + 1) l o c m (ground arith) in ground arith
]

-- The bytes of a list of objects.
abbrev pub total : List Object → ℕ
total [] = 0
total (o ∷ l) = o.len + total l

-- A regular file with one name, of the quarantine's owner, that no group and no other user can open.
abbrev pub Private : Quarantine → Object → Type 0
Private q o = (o.is_file ≡ true) × (o.nlink ≡ 1) × (o.uid ≡ q.uid) × (o.mode % 64 ≡ 0)

-- Private objects, and their bytes and their number within the limits.
abbrev pub Fits : Quarantine → List Object → Type 0
Fits q l = All (Private q) l × (total l ≤ q.max_bytes) × (length l ≤ q.max_entries)

is_safe-Private : (q : Quarantine) (o : Object) → is_safe q o ≡ true → Private q o
unfolding is_safe
is_safe-Private q o h = (ground arith, ground arith, ground arith, ground arith)

-- A scan that succeeds has counted the bytes and the objects, and found no limit passed.
usage_from-counts :
    (q : Quarantine) (b n c m : ℕ) (l : List Object)
    → usage_from q b n l ≡ ok (c, m)
    → b ≤ q.max_bytes
    → n ≤ q.max_entries
    → All (Private q) l
      × (c ≡ b + total l)
      × (m ≡ n + length l)
      × (c ≤ q.max_bytes)
      × (m ≤ q.max_entries)
unfolding usage_from
usage_from-counts q b n c m [] h k e = (tt, ground arith, ground arith, ground arith, ground arith)
usage_from-counts q b n c m (x ∷ l) h k e = elim (Option-cases (checked_add b x.len)) [
  | inl z ↦ absurd (ground arith)
  | inr (d, z) ↦
      let safe : is_safe q x ≡ true = ground arith in
      let sum : d ≡ b + x.len = ground arith in
      let (all, bytes, count, le, fits) =
        usage_from-counts q d (n + 1) c m l (ground arith) (ground arith) (ground arith) in
      ((is_safe-Private q x safe, all), omega arith, omega arith, le, fits)
]

usage_from-Fits :
    (q : Quarantine) (c m : ℕ) (l : List Object)
    → usage_from q 0 0 l ≡ ok (c, m)
    → Fits q l × (c ≡ total l) × (m ≡ length l)
usage_from-Fits q c m l h =
    let (all, bytes, count, le, fits) =
      usage_from-counts q 0 0 c m l h (omega arith) (omega arith) in
    ((all, omega arith, omega arith), omega arith, omega arith)

fill_object_safe :
    (q : Quarantine) (w : Storing) (id : Text) (bytes : List ℕ)
    → (is_safe q (fill_object q w id bytes).1 ≡ true)
      × ((fill_object q w id bytes).1.len ≤ length bytes)
unfolding fill_object new_object is_safe
fill_object_safe q w id bytes = ground arith

check_store_facts :
    (q : Quarantine) (w : Storing) (id : Text) (size : ℕ) (l : List Object) (b n : ℕ)
    → usage_from q 0 0 l ≡ ok (b, n)
    → check_store q w id size l ≡ ok tt
    → (ltb n q.max_entries ≡ true) × (size ≤ q.max_bytes - b)
unfolding check_store usage
check_store_facts q w id size l b n u h = ground arith

usage_one :
    (q : Quarantine) (b n : ℕ) (o : Object)
    → n < q.max_entries
    → is_safe q o ≡ true
    → b + o.len ≤ q.max_bytes
    → q.max_bytes < u64_mod
    → usage_from q b n (o ∷ []) ≡ ok (b + o.len, n + 1)
unfolding usage_from
usage_one q b n o h s k w = ground arith

store_refused :
    (q : Quarantine) (w : Storing) (id : Text) (bytes : List ℕ) (l : List Object) (e : Error)
    → check_store q w id (length bytes) l ≡ err e
    → store q w id bytes l ≡ (err e, l)
unfolding store
store_refused q w id bytes l e h = ground arith

store_created :
    (q : Quarantine) (w : Storing) (id : Text) (bytes : List ℕ) (l : List Object)
    → check_store q w id (length bytes) l ≡ ok tt
    → store q w id bytes l
      ≡ ((fill_object q w id bytes).0, l ++ ((fill_object q w id bytes).1 ∷ []))
unfolding store
store_created q w id bytes l h = ground arith

-- Storing keeps a quarantine that can be scanned so.
store_scanned :
    (q : Quarantine) (w : Storing) (id : Text) (bytes : List ℕ) (l : List Object) (b n : ℕ)
    → q.max_bytes < u64_mod
    → usage_from q 0 0 l ≡ ok (b, n)
    → (c : ℕ) × (m : ℕ) × (usage_from q 0 0 (store q w id bytes l).1 ≡ ok (c, m))
store_scanned q w id bytes l b n m u = elim (Result-cases (check_store q w id (length bytes) l)) [
  | inr (e, r) ↦ rw (store_refused q w id bytes l e r) (b, n, u)
  | inl (_, r) ↦
      let k = (usage_from-counts q 0 0 b n l u (omega arith) (omega arith)).3 in
      let (lt, le) = check_store_facts q w id (length bytes) l b n u r in
      let (safe, fits) = fill_object_safe q w id bytes in
      let o = (fill_object q w id bytes).1 in
      let room : b + o.len ≤ q.max_bytes = omega arith in
      rw (store_created q w id bytes l r) (
        b + o.len,
        n + 1,
        usage_from-append q 0 0 l o b n u ∙ usage_one q b n o (ground arith) safe room m,
      )
]

-- A call of `store`, with what the operating system answers.
pub record Call : Type 0 where
  pub answers : Storing
  pub id : Text
  pub bytes : List ℕ

abbrev pub stores : Quarantine → List Call → List Object → List Object
stores q [] l = l
stores q (c ∷ calls) l = stores q calls (store q c.answers c.id c.bytes l).1

stores_scanned :
    (q : Quarantine) (calls : List Call) (l : List Object) (b n : ℕ)
    → q.max_bytes < u64_mod
    → usage_from q 0 0 l ≡ ok (b, n)
    → (c : ℕ) × (m : ℕ) × (usage_from q 0 0 (stores q calls l) ≡ ok (c, m))
stores_scanned q [] l b n w u = (b, n, u)
stores_scanned q (x ∷ calls) l b n w u =
    let (c, m, v) = store_scanned q x.answers x.id x.bytes l b n w u in
    stores_scanned q calls (store q x.answers x.id x.bytes l).1 c m w v

open_quarantine_facts :
    (w : Opening) (absolute : Bool) (max_bytes max_entries : ℕ) (l : List Object) (q : Quarantine)
    → open_quarantine w absolute max_bytes max_entries l ≡ ok q
    → (q.max_bytes ≡ max_bytes)
      × (q.max_entries ≡ max_entries)
      × ((b : ℕ) × (n : ℕ) × (usage_from q 0 0 l ≡ ok (b, n)))
unfolding open_quarantine usage
open_quarantine_facts w absolute max_bytes max_entries l q h = elim (Option-cases w.parent) [
  | inl e ↦ absurd (ground arith)
  | inr (p, e) ↦ elim (Option-cases w.directory) [
    | inl k ↦ absurd (ground arith)
    | inr (d, k) ↦
        let z : Quarantine = record {
          uid = w.euid;
          max_bytes = max_bytes;
          max_entries = max_entries;
        } in
        elim (Result-cases (usage_from z 0 0 l)) [
          | inr (x, u) ↦ absurd (ground arith)
          | inl ((b, n), u) ↦ let same : q ≡ z = ground arith in rw same (refl, refl, (b, n, u))
        ]
  ]
]

-- Where a quarantine with a byte limit of 64 bits was opened, and whatever is stored and however
-- that fails, each object is a private file of its owner, the sum of their bytes and their number
-- are within the limits, and a later scan counts that sum and that number.
pub stores-Fits :
    (w : Opening) (absolute : Bool) (max_bytes max_entries : ℕ) (q : Quarantine) (calls : List Call)
    (l : List Object)
    → max_bytes < u64_mod
    → open_quarantine w absolute max_bytes max_entries l ≡ ok q
    → Fits q (stores q calls l)
      × (usage q true (stores q calls l) ≡ ok (total (stores q calls l), length (stores q calls l)))
unfolding usage
stores-Fits w absolute max_bytes max_entries q calls l m h =
    let (bytes, _, (b, n, u)) = open_quarantine_facts w absolute max_bytes max_entries l q h in
    let (c, k, v) = stores_scanned q calls l b n (omega arith) u in
    let (fits, sum, count) = usage_from-Fits q c k (stores q calls l) v in
    (fits, rw (v, sum, count) refl)

-- The first object of a name.
abbrev pub find_object : Text → List Object → Option Object
find_object id [] = none
find_object id (o ∷ l) = if list_eq o.name id then some o else find_object id l

find_object-append :
    (id : Text) (l : List Object) (o x : Object)
    → find_object id l ≡ some x
    → find_object id (l ++ (o ∷ [])) ≡ some x
find_object-append id [] o x h = ground arith
find_object-append id (y ∷ l) o x h =
    let ih = find_object-append id l o x in
    elim (Bool-cases (list_eq y.name id)) [
      | inl e ↦ ground arith
      | inr e ↦ let z = ih (ground arith) in ground arith
    ]

find_object_new :
    (id : Text) (l : List Object) (o : Object)
    → any (λ (o : Object). list_eq o.name id) l ≡ false
    → list_eq o.name id ≡ true
    → find_object id (l ++ (o ∷ [])) ≡ some o
find_object_new id [] o h e = ground arith
find_object_new id (y ∷ l) o h e =
    let ih = find_object_new id l o in
    elim (Bool-cases (list_eq y.name id)) [
      | inl z ↦ absurd (ground arith)
      | inr z ↦ let rest = ih (ground arith) e in ground arith
    ]

stores-keep :
    (q : Quarantine) (calls : List Call) (l : List Object) (id : Text) (x : Object)
    → find_object id l ≡ some x
    → find_object id (stores q calls l) ≡ some x
stores-keep q [] l id x h = h
stores-keep q (c ∷ calls) l id x h =
    let w = c.answers in
    elim (Result-cases (check_store q w c.id (length c.bytes) l)) [
      | inr (e, r) ↦ rw (store_refused q w c.id c.bytes l e r) (stores-keep q calls l id x h)
      | inl (_, r) ↦
          let o = (fill_object q w c.id c.bytes).1 in
          rw (store_created q w c.id c.bytes l r)
            (stores-keep q calls (l ++ (o ∷ [])) id x (find_object-append id l o x h))
    ]

store_ok :
    (q : Quarantine) (w : Storing) (id : Text) (bytes : List ℕ) (l m : List Object)
    → store q w id bytes l ≡ (ok tt, m)
    → find_object id m ≡ some (new_object q id (length bytes) (some bytes))
unfolding check_store fill_object new_object
store_ok q w id bytes l m h = elim (Result-cases (check_store q w id (length bytes) l)) [
  | inr (e, k) ↦ let z = store_refused q w id bytes l e k in absurd (ground arith)
  | inl (_, k) ↦
      let z = store_created q w id bytes l k in
      let full : (fill_object q w id bytes).1 ≡ new_object q id (length bytes) (some bytes) =
        ground arith in
      let there : m ≡ l ++ (new_object q id (length bytes) (some bytes) ∷ []) = ground arith in
      let fresh : any (λ (o : Object). list_eq o.name id) l ≡ false =
        elim (Result-cases (usage q w.scans l)) [
          | inr (e, u) ↦ absurd (ground arith)
          | inl (n, u) ↦ ground arith
        ] in
      rw there (find_object_new id l _ fresh (list_eq_refl id))
]

-- An object that was acknowledged is found with its content after any later calls.
pub stores-store :
    (q : Quarantine) (w : Storing) (id : Text) (bytes : List ℕ) (calls : List Call)
    (l m : List Object)
    → store q w id bytes l ≡ (ok tt, m)
    → find_object id (stores q calls m) ≡ some (new_object q id (length bytes) (some bytes))
stores-store q w id bytes calls l m h = stores-keep q calls m id _ (store_ok q w id bytes l m h)
