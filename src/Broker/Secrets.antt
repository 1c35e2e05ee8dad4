-- ===== src/Broker/Secrets.antt =====
-- crates/tentaflake-broker/src/state.rs: `read_secret_from` and `constant_time_eq`.
pub mod Equality
use Prim.Native.Nat.{bit_and, bit_or, bit_xor}
use tentaflake.Prelude.{
  true, false, ok, err, [], ◌∷◌, some, none, guard, ◌>>=◌, ◌>>◌, ok_or, Bool, ℕ, Option, List, Text,
  ◌==◌, Result, length, ◌||◌, not, ltb, ◌&&◌, trim_end_matches, is_empty, any,
}

-- The opened file of a credential, and the text that is read of it where it is UTF-8.
pub record SecretFile : Type 0 where
  pub is_file : Bool
  pub len : ℕ
  pub mode : ℕ
  pub text : Option Text

pub data Error : Type 0 where
  cannot_open not_regular invalid_length too_accessible cannot_read not_one_line : Error

abbrev pub is_line_end : ℕ → Bool
is_line_end b = b == 13 || b == 10

-- `read_secret_from` of a file, and whether it stands in the directory of the credentials.
unfoldable pub read_secret_from : Option SecretFile → Bool → Result Error Text
read_secret_from opened is_systemd_credential = do
  file ← ok_or opened cannot_open
  guard file.is_file not_regular
  guard (not (file.len == 0 || ltb 4096 file.len)) invalid_length
  guard (bit_and file.mode 0o007 == 0 && (bit_and file.mode 0o070 == 0 || is_systemd_credential))
      too_accessible
  text ← ok_or file.text cannot_read
  let value = trim_end_matches is_line_end text
  guard (not (is_empty value || any is_line_end value)) not_one_line
  ok value

-- The loop of `constant_time_eq`, where a list that has ended reads as zeros.
unfoldable pub differences : ℕ → List ℕ → List ℕ → ℕ
differences d [] [] = d
differences d (x ∷ xs) [] = differences (bit_or d (bit_xor x 0)) xs []
differences d [] (y ∷ ys) = differences (bit_or d (bit_xor 0 y)) [] ys
differences d (x ∷ xs) (y ∷ ys) = differences (bit_or d (bit_xor x y)) xs ys

unfoldable pub constant_time_eq : List ℕ → List ℕ → Bool
constant_time_eq left right = differences (bit_xor (length left) (length right)) left right == 0
