-- ===== src/Broker/Targets.antt =====
-- crates/tentaflake-broker/src/policy.rs: which target a fetch may resolve to. The URL parser, the
-- address parser and the resolver are parameters, the records of `Net`.
use Prim.Native.Nat.{bit_and}
use tentaflake.Prelude.{
  ◌≤◌, ◌<◌, between, ◌/◌, some, ◌∷◌, ◌&&◌, Result, ◌||◌, Text, ◌==◌, all, not, List, list_eq, ◌≡◌,
  is_empty, leb, contains, [], Bool, ℕ, none, ok_or, is_some, codes, Option, any, ◌%◌,
  if◌then◌else◌, ◌>>=◌, ◌>>◌, guard, ok, to_ascii_lowercase,
}

-- The parts of a URL that the `url` crate answers.
pub record Url : Type 0 where
  pub scheme : Text
  pub username : Text
  pub password : Option Text
  pub fragment : Option Text
  pub host_str : Option Text
  pub port_or_known_default : Option ℕ

-- An address: four octets, or eight segments of 16 bits.
pub data IpAddr : Type 0 where
  v4 : ℕ → ℕ → ℕ → ℕ → IpAddr
  v6 : ℕ → ℕ → ℕ → ℕ → ℕ → ℕ → ℕ → ℕ → IpAddr

pub record SocketAddr : Type 0 where
  pub ip : IpAddr
  pub port : ℕ

pub data Error : Type 0 where
  invalid_url scheme_not_allowed credentials_or_fragment no_host not_in_allowlist : Error
  no_known_port dns_failed blocked_address port_changed : Error

-- `Url::parse`, `host.parse::<IpAddr>()` and the resolver.
pub record Net : Type 0 where
  pub parse : Text → Option Url
  pub parse_ip : Text → Option IpAddr
  pub resolver : Text → ℕ → Result Error (List SocketAddr)

pub record ResolvedTarget : Type 0 where
  pub url : Url
  pub host : Text
  pub addresses : List SocketAddr

unfoldable pub is_public_v4 : ℕ → ℕ → ℕ → ℕ → Bool
is_public_v4 a b c d = not (
    a == 0
    || a == 10
    || a == 127
    || (a == 100 && between 64 127 b)
    || (a == 169 && b == 254)
    || (a == 172 && between 16 31 b)
    || (a == 192 && b == 0 && c == 0)
    || (a == 192 && b == 0 && c == 2)
    || (a == 192 && b == 168)
    || (a == 198 && (b == 18 || b == 19))
    || (a == 198 && b == 51 && c == 100)
    || (a == 203 && b == 0 && c == 113)
    || leb 224 a)

-- `to_ipv4_mapped` answers for the addresses ::ffff:a.b.c.d.
unfoldable pub is_public_ip : IpAddr → Bool
is_public_ip (v4 a b c d) = is_public_v4 a b c d
is_public_ip (v6 s₀ s₁ s₂ s₃ s₄ s₅ s₆ s₇) =
    if s₀ == 0 && s₁ == 0 && s₂ == 0 && s₃ == 0 && s₄ == 0 && s₅ == 0xffff
    then is_public_v4 (s₆ / 256) (s₆ % 256) (s₇ / 256) (s₇ % 256)
    else bit_and s₀ 0xe000 == 0x2000 && not (s₀ == 0x2001 && s₁ == 0x0db8)

-- The checks of the URL: its host in lower case, and its port.
unfoldable pub check_url : List Text → Bool → Url → Result Error (Text × ℕ)
check_url allowed_hosts allow_http url = do
  guard
      (not (
        not (list_eq url.scheme (codes "https"))
        && not (allow_http && list_eq url.scheme (codes "http"))))
      scheme_not_allowed
  guard (not (not (is_empty url.username) || is_some url.password || is_some url.fragment))
      credentials_or_fragment
  host_str ← ok_or url.host_str no_host
  guard (contains allowed_hosts (to_ascii_lowercase host_str)) not_in_allowlist
  port ← ok_or url.port_or_known_default no_known_port
  ok (to_ascii_lowercase host_str, port)

-- The checks of the addresses.
unfoldable pub check_addresses : Bool → ℕ → List SocketAddr → Result Error (Unit {0})
check_addresses allow_non_public port addresses = do
  guard
      (not (
        is_empty addresses
        || (not allow_non_public && any (λ (a : SocketAddr). not (is_public_ip a.ip)) addresses)))
      blocked_address
  guard (all (λ (a : SocketAddr). a.port == port) addresses) port_changed

module _ (n : Net) where
  unfoldable pub addresses_of : Text → ℕ → Result Error (List SocketAddr)
  addresses_of host port = elim (n.parse_ip host) [
    | some ip ↦ ok (record { ip = ip; port = port } ∷ [])
    | none ↦ n.resolver host port
  ]

  -- `resolve_public_target_with`.
  unfoldable pub resolve_public_target :
      Text → List Text → Bool → Bool → Result Error ResolvedTarget
  resolve_public_target raw_url allowed_hosts allow_http allow_non_public = do
    url ← ok_or (n.parse raw_url) invalid_url
    target ← check_url allowed_hosts allow_http url
    addresses ← addresses_of target.0 target.1
    check_addresses allow_non_public target.1 addresses
    ok (record { url = url; host = target.0; addresses = addresses })

-- The blocks of IPv4 addresses that are not public.
pub data Reserved : ℕ → ℕ → ℕ → ℕ → Type 0 where
  this_network : (b c d : ℕ) → Reserved 0 b c d
  private_10 : (b c d : ℕ) → Reserved 10 b c d
  loopback : (b c d : ℕ) → Reserved 127 b c d
  shared : (b c d : ℕ) → 64 ≤ b → b < 128 → Reserved 100 b c d
  link_local : (c d : ℕ) → Reserved 169 254 c d
  private_172 : (b c d : ℕ) → 16 ≤ b → b < 32 → Reserved 172 b c d
  protocol : (d : ℕ) → Reserved 192 0 0 d
  documentation_1 : (d : ℕ) → Reserved 192 0 2 d
  private_192 : (c d : ℕ) → Reserved 192 168 c d
  benchmark : (b c d : ℕ) → 18 ≤ b → b < 20 → Reserved 198 b c d
  documentation_2 : (d : ℕ) → Reserved 198 51 100 d
  documentation_3 : (d : ℕ) → Reserved 203 0 113 d
  multicast_or_later : (a b c d : ℕ) → 224 ≤ a → Reserved a b c d

-- A public address: of IPv4, of IPv4 inside IPv6 (::ffff:a.b.c.d), or of IPv6 in 2000::/3 and not in
-- the block for documentation, 2001:db8::/32.
pub data IsOpen : IpAddr → Type 0 where
  open_v4 : (a b c d : ℕ) → ¬ Reserved a b c d → IsOpen (v4 a b c d)
  open_mapped :
      (s₆ s₇ : ℕ)
      → ¬ Reserved (s₆ / 256) (s₆ % 256) (s₇ / 256) (s₇ % 256)
      → IsOpen (v6 0 0 0 0 0 0xffff s₆ s₇)
  open_v6 :
      (s₀ s₁ s₂ s₃ s₄ s₅ s₆ s₇ : ℕ)
      → bit_and s₀ 0xe000 ≡ 0x2000
      → ¬ ((s₀ ≡ 0x2001) × (s₁ ≡ 0x0db8))
      → IsOpen (v6 s₀ s₁ s₂ s₃ s₄ s₅ s₆ s₇)
