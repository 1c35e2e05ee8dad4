-- ===== src/Broker/Budget/Digest.antt =====
-- crates/tentaflake-broker/src/state.rs: `strict_digest`.
use tentaflake.Prelude.{ℕ, ◌/◌, ◌%◌, ◌^◌, List, [], ◌∷◌, ◌++◌, Option, none, some}
use tentaflake.Broker.Budget.State.{BudgetState}

-- `u64::to_be_bytes`.
unfoldable pub to_be_bytes : ℕ → List ℕ
to_be_bytes n =
    n / 2 ^ 56 % 256
    ∷ n / 2 ^ 48 % 256
    ∷ n / 2 ^ 40 % 256
    ∷ n / 2 ^ 32 % 256
    ∷ n / 2 ^ 24 % 256
    ∷ n / 2 ^ 16 % 256
    ∷ n / 2 ^ 8 % 256
    ∷ n % 256
    ∷ []

-- `&[u8::from(value.is_some())]` and `value.unwrap_or(0).to_be_bytes()`.
unfoldable pub optional_bytes : Option ℕ → List ℕ
optional_bytes none = 0 ∷ to_be_bytes 0
optional_bytes (some n) = 1 ∷ to_be_bytes n

-- "tentaflake-strict-budget-v2\0" and "pending-usage\0".
abbrev pub context_label : List ℕ
context_label =
    b't' ∷ b'e' ∷ b'n' ∷ b't' ∷ b'a' ∷ b'f' ∷ b'l' ∷ b'a' ∷ b'k' ∷ b'e' ∷ b'-' ∷ b's' ∷ b't' ∷ b'r'
    ∷ b'i' ∷ b'c' ∷ b't' ∷ b'-' ∷ b'b' ∷ b'u' ∷ b'd' ∷ b'g' ∷ b'e' ∷ b't' ∷ b'-' ∷ b'v' ∷ b'2' ∷ 0
    ∷ []

abbrev pub pending_label : List ℕ
pending_label =
    b'p' ∷ b'e' ∷ b'n' ∷ b'd' ∷ b'i' ∷ b'n' ∷ b'g' ∷ b'-' ∷ b'u' ∷ b's' ∷ b'a' ∷ b'g' ∷ b'e' ∷ 0
    ∷ []

unfoldable pub pending_bytes : Option ℕ → List ℕ
pending_bytes none = []
pending_bytes (some n) = pending_label ++ to_be_bytes n

-- The bytes that the digest context is given, in the order of its updates.
unfoldable pub digest_message : BudgetState → List ℕ
digest_message b =
    context_label
    ++ (to_be_bytes b.day
        ++ (to_be_bytes b.requests
            ++ (to_be_bytes b.tokens
                ++ (to_be_bytes b.cost_microusd
                    ++ (optional_bytes b.last_seen_seconds
                        ++ (optional_bytes b.unsettled ++ pending_bytes b.pending_usage))))))
