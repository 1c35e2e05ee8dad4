-- ===== src/Prelude/Texts.antt =====
-- Texts as lists of code points. A test of bytes that only ASCII passes is a test of code points,
-- and `len` counts the bytes of UTF-8.
use Prim.Native.Char.{code}
use Prim.Native.String.{String}
use Prim.Native.Nat.{ℕ, ◌+◌}
use tentaflake.Prelude.Lists.{list_eq}
use tentaflake.Prelude.Results.{is_some}
use mathlib.Core.Bool.{Bool, ◌||◌, ◌&&◌}
use mathlib.Core.List.{List, [], ◌∷◌, map}
use mathlib.Core.Option.{Option, none, some}
use tentaflake.Prelude.Tests.{ltb, ◌==◌, between, if◌then◌else◌}

abbrev pub Text : Type 0
Text = List ℕ

abbrev pub codes : String → Text
codes String.[] = []
codes (String.◌∷◌ c s) = code c ∷ codes s

abbrev pub utf8_width : ℕ → ℕ
utf8_width c = if ltb c 0x80 then 1 else if ltb c 0x800 then 2 else if ltb c 0x10000 then 3 else 4

abbrev pub text_len : Text → ℕ
text_len [] = 0
text_len (c ∷ s) = utf8_width c + text_len s

-- `char::is_control`.
abbrev pub is_control : ℕ → Bool
is_control c = ltb c 0x20 || between 0x7f 0x9f c

abbrev pub is_digit : ℕ → Bool
is_digit c = between b'0' b'9' c

abbrev pub is_alphanumeric : ℕ → Bool
is_alphanumeric c = is_digit c || between b'a' b'z' c || between b'A' b'Z' c

-- `is_ascii_graphic`.
abbrev pub is_graphic : ℕ → Bool
is_graphic c = between 0x21 0x7e c

-- `strip_prefix` and `starts_with`.
abbrev pub strip_prefix : Text → Text → Option Text
strip_prefix [] s = some s
strip_prefix (c ∷ p) [] = none
strip_prefix (c ∷ p) (d ∷ s) = if c == d then strip_prefix p s else none

-- `strip_suffix` and `ends_with`.
abbrev pub strip_suffix : Text → Text → Option Text
strip_suffix suffix [] = if list_eq [] suffix then some [] else none
strip_suffix suffix (b ∷ s) =
    let rest = strip_suffix suffix s in
    if list_eq (b ∷ s) suffix then some [] else elim rest [ none ↦ none | some r ↦ some (b ∷ r) ]

-- `lines`: a line ends in a line feed, with or without a carriage return.
abbrev pub lines : Text → List Text
lines [] = []
lines (b ∷ s) =
    let rest = lines s in
    if b == 10
    then [] ∷ rest
    else if b == 13 && is_some (strip_prefix (10 ∷ []) s)
    then rest
    else elim rest [ [] ↦ (b ∷ []) ∷ [] | l ∷ ls ↦ (b ∷ l) ∷ ls ]

-- `split_once` at a character.
abbrev pub split_once : ℕ → Text → Option (Text × Text)
split_once c [] = none
split_once c (b ∷ s) =
    let rest = split_once c s in
    if b == c then some ([], s) else elim rest [ none ↦ none | some (l, r) ↦ some (b ∷ l, r) ]

-- `split(c)`.
abbrev pub split : ℕ → Text → List Text
split c [] = [] ∷ []
split c (b ∷ s) =
    let rest = split c s in
    if b == c then [] ∷ rest else elim rest [ [] ↦ (b ∷ []) ∷ [] | l ∷ ls ↦ (b ∷ l) ∷ ls ]

-- `split(c).next()`, which is there always.
abbrev pub first_part : ℕ → Text → Text
first_part c [] = []
first_part c (b ∷ s) = let rest = first_part c s in if b == c then [] else b ∷ rest

-- `char::is_whitespace`.
abbrev pub is_whitespace : ℕ → Bool
is_whitespace c =
    between 9 13 c
    || c == 0x20
    || c == 0x85
    || c == 0xa0
    || c == 0x1680
    || between 0x2000 0x200a c
    || c == 0x2028
    || c == 0x2029
    || c == 0x202f
    || c == 0x205f
    || c == 0x3000

-- `trim_start_matches`, `trim_end_matches` and `trim`.
abbrev pub trim_start_matches : (ℕ → Bool) → Text → Text
trim_start_matches p [] = []
trim_start_matches p (b ∷ s) = let rest = trim_start_matches p s in if p b then rest else b ∷ s

abbrev pub trim_end_matches : (ℕ → Bool) → Text → Text
trim_end_matches p [] = []
trim_end_matches p (b ∷ s) =
    let rest = trim_end_matches p s in
    elim rest [ [] ↦ if p b then [] else b ∷ [] | c ∷ t ↦ b ∷ c ∷ t ]

abbrev pub trim : Text → Text
trim s = trim_end_matches is_whitespace (trim_start_matches is_whitespace s)

-- `to_ascii_lowercase` and `eq_ignore_ascii_case`.
abbrev pub to_ascii_lowercase : Text → Text
to_ascii_lowercase s = map (λ b. if between b'A' b'Z' b then b + 32 else b) s

abbrev pub eq_ignore_ascii_case : Text → Text → Bool
eq_ignore_ascii_case s t = list_eq (to_ascii_lowercase s) (to_ascii_lowercase t)
