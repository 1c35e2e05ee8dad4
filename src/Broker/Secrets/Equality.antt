-- ===== src/Broker/Secrets/Equality.antt =====
-- The comparison of secrets is equality.
use Prim.Native.Nat.{bit_or, bit_xor, digits, differ, bit_or-bitwise, bit_xor-bitwise, max}
use tentaflake.Broker.Secrets.{differences, constant_time_eq}
use tentaflake.Prelude.{
  ◌∙◌, refl, true, [], ◌∷◌, zero, suc, ℕ, ◌≡◌, List, ◌≤◌, arith, sym, length, list_eq, ◌/◌, ap,
  Bool-cases, ◌%◌, inl, list_eq-eq, subst, inr, list_eq_refl,
}

or_digits_zero : (n a b : ℕ) → a ≤ n → digits (λ b. b) max n a b ≡ 0 → (a ≡ 0) × (b ≡ 0)
or_digits_zero zero zero b p h = (refl, h)
or_digits_zero zero (suc a) b p h = absurd (omega arith)
or_digits_zero (suc n) zero b p h = (refl, h)
or_digits_zero (suc n) (suc a) b p h =
    let (l, r) = or_digits_zero n (suc a / 2) (b / 2) (omega arith) (omega arith) in
    (omega arith, omega arith)

bit_or_zero : (a b : ℕ) → bit_or a b ≡ 0 → (a ≡ 0) × (b ≡ 0)
bit_or_zero a b h = or_digits_zero a a b (omega arith) (sym (bit_or-bitwise a b) ∙ h)

zero-bit_or_zero : bit_or 0 0 ≡ 0
zero-bit_or_zero = refl

differ_zero : (x y : ℕ) → differ x y ≡ 0 → x ≡ y
differ_zero zero y h = sym h
differ_zero (suc x) zero h = absurd (omega (arith, h))
differ_zero (suc x) (suc y) h = ap suc (differ_zero x y h)

differ_same : (x : ℕ) → differ x x ≡ 0
differ_same zero = refl
differ_same (suc x) = differ_same x

xor_digits_zero : (n a b : ℕ) → a ≤ n → digits (λ b. b) differ n a b ≡ 0 → a ≡ b
xor_digits_zero zero zero b p h = sym h
xor_digits_zero zero (suc a) b p h = absurd (omega arith)
xor_digits_zero (suc n) zero b p h = sym h
xor_digits_zero (suc n) (suc a) b p h =
    let high = xor_digits_zero n (suc a / 2) (b / 2) (omega arith) (omega arith) in
    let low = differ_zero (suc a % 2) (b % 2) (omega arith) in omega arith

xor_digits_same : (n a : ℕ) → a ≤ n → digits (λ b. b) differ n a a ≡ 0
xor_digits_same zero zero p = refl
xor_digits_same zero (suc a) p = absurd (omega arith)
xor_digits_same (suc n) zero p = refl
xor_digits_same (suc n) (suc a) p =
    omega (arith, xor_digits_same n (suc a / 2) (omega arith), differ_same (suc a % 2))

bit_xor_zero : (a b : ℕ) → bit_xor a b ≡ 0 → a ≡ b
bit_xor_zero a b h = xor_digits_zero a a b (omega arith) (sym (bit_xor-bitwise a b) ∙ h)

bit_xor_same : (a : ℕ) → bit_xor a a ≡ 0
bit_xor_same a = bit_xor-bitwise a a ∙ xor_digits_same a a (omega arith)

-- A difference is never taken back.
differences_zero : (d : ℕ) (l r : List ℕ) → differences d l r ≡ 0 → d ≡ 0
unfolding differences
differences_zero d [] [] h = h
differences_zero d (x ∷ xs) [] h =
    (bit_or_zero d (bit_xor x 0) (differences_zero (bit_or d (bit_xor x 0)) xs [] h)).0
differences_zero d [] (y ∷ ys) h =
    (bit_or_zero d (bit_xor 0 y) (differences_zero (bit_or d (bit_xor 0 y)) [] ys h)).0
differences_zero d (x ∷ xs) (y ∷ ys) h =
    (bit_or_zero d (bit_xor x y) (differences_zero (bit_or d (bit_xor x y)) xs ys h)).0

differences-eq : (d : ℕ) (l r : List ℕ) → length l ≡ length r → differences d l r ≡ 0 → l ≡ r
unfolding differences
differences-eq d [] [] n h = refl
differences-eq d (x ∷ xs) [] n h = absurd (omega (arith, n))
differences-eq d [] (y ∷ ys) n h = absurd (omega (arith, n))
differences-eq d (x ∷ xs) (y ∷ ys) n h =
    let step = bit_or d (bit_xor x y) in
    let same = bit_xor_zero x y (bit_or_zero d (bit_xor x y) (differences_zero step xs ys h)).1 in
    let rest = differences-eq step xs ys (omega (arith, n)) h in cc

differences_same : (l : List ℕ) → differences 0 l l ≡ 0
unfolding differences
differences_same [] = refl
differences_same (x ∷ xs) = rw (bit_xor_same x, zero-bit_or_zero) (differences_same xs)

-- The comparison that reads all bytes is equality of the two lists, of different lengths too.
pub constant_time_eq-list_eq : (l r : List ℕ) → constant_time_eq l r ≡ list_eq l r
unfolding constant_time_eq
constant_time_eq-list_eq l r = elim (Bool-cases (list_eq l r)) [
  | inl e ↦
      let same = list_eq-eq l r e in
      let whole : differences (bit_xor (length l) (length r)) l r ≡ 0 =
        subst (λ r. differences (bit_xor (length l) (length r)) l r ≡ 0) same
          (rw (bit_xor_same (length l)) (differences_same l)) in
      ground arith
  | inr d ↦ elim (Bool-cases (constant_time_eq l r)) [
    | inr off ↦ off ∙ sym d
    | inl on ↦
        let none : differences (bit_xor (length l) (length r)) l r ≡ 0 = ground arith in
        let sizes = bit_xor_zero (length l) (length r) (differences_zero _ l r none) in
        let same = differences-eq _ l r sizes none in
        let z = list_eq_refl l in
        let e : list_eq l r ≡ true = subst (λ r. list_eq l r ≡ true) same z in absurd (ground arith)
  ]
]
