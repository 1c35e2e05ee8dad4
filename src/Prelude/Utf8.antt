-- ===== src/Prelude/Utf8.antt =====
-- `str::from_utf8`: the code points of bytes that are UTF-8.
use Prim.Native.Nat.{ℕ, zero, suc, ◌+◌, ◌-◌, ◌*◌}
use mathlib.Core.List.{List, [], ◌∷◌}
use mathlib.Core.Option.{Option, none, some}
use tentaflake.Prelude.Tests.{◌==◌, ltb, between, if◌then◌else◌}
use tentaflake.Prelude.Texts.{Text}

-- What follows a first byte: how many bytes, the range of the next one, and the bits so far.
abbrev pub lead : ℕ → Option (ℕ × ℕ × ℕ × ℕ)
lead b =
    if ltb b 0x80
    then some (0, 0, 0, b)
    else if between 0xc2 0xdf b
    then some (1, 0x80, 0xbf, b - 0xc0)
    else if b == 0xe0
    then some (2, 0xa0, 0xbf, 0)
    else if b == 0xed
    then some (2, 0x80, 0x9f, b - 0xe0)
    else if between 0xe1 0xef b
    then some (2, 0x80, 0xbf, b - 0xe0)
    else if b == 0xf0
    then some (3, 0x90, 0xbf, 0)
    else if between 0xf1 0xf3 b
    then some (3, 0x80, 0xbf, b - 0xf0)
    else if b == 0xf4
    then some (3, 0x80, 0x8f, 4)
    else none

abbrev emit : ℕ → Option Text → Option Text
emit c none = none
emit c (some s) = some (c ∷ s)

-- With `n` bytes to come of a character, the next one from `lo` to `hi`, and the bits so far.
pub decode : ℕ → ℕ → ℕ → ℕ → List ℕ → Option Text
decode zero lo hi bits [] = some []
decode (suc n) lo hi bits [] = none
decode zero lo hi bits (b ∷ s) = elim (lead b) [
  | none ↦ none
  | some (n, l, h, v) ↦
      let whole = emit v (decode 0 0 0 0 s) in
      let part = decode n l h v s in if n == 0 then whole else part
]
decode (suc n) lo hi bits (b ∷ s) =
    let v = bits * 64 + (b - 0x80) in
    let whole = emit v (decode 0 0 0 0 s) in
    let part = decode n 0x80 0xbf v s in
    if between lo hi b then if n == 0 then whole else part else none

unfoldable pub from_utf8 : List ℕ → Option Text
unfolding decode
from_utf8 s = decode 0 0 0 0 s
