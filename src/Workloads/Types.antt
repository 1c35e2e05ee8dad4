-- ===== src/Workloads/Types.antt =====
-- crates/tentaflake-workloads/src/lib.rs: bindings, identities, manifests and the policy's checks.
use tentaflake.Prelude.{
  true, list_eq, ◌∷◌, Text, is_some, Option, [], ◌&&◌, ℕ, text_len, all, Bool, List, ◌||◌, codes,
  ltb, is_empty, contains, any, length, none, ◌==◌, ◌++◌, some, leb, strip_prefix, is_alphanumeric,
  if◌then◌else◌, not,
}

abbrev pub max_generation : ℕ
max_generation = 9_007_199_254_740_991

abbrev pub max_bindings : ℕ
max_bindings = 64

pub record Binding : Type 0 where
  pub tenant_id : Text
  pub agent_id : Text
  pub workload_id : Text
  pub policy_revision : Text
  pub unit : Text

pub record Identity : Type 0 where
  pub kernel_boot_id : Text
  pub container_id : Text
  pub pid : ℕ
  pub start_ticks : ℕ
  pub cgroup : Text
  pub cgroup_inode : ℕ

pub record Manifest : Type 0 where
  pub version : ℕ
  pub state : Text
  pub tenant_id : Text
  pub agent_id : Text
  pub workload_id : Text
  pub policy_revision : Text
  pub unit : Text
  pub generation : ℕ
  pub verified_at_ms : ℕ
  pub kernel_boot_id : Option Text
  pub container_id : Option Text
  pub pid : Option ℕ
  pub start_ticks : Option ℕ
  pub cgroup : Option Text
  pub cgroup_inode : Option ℕ

abbrev pub map_option {ℓ κ} : {A : Type ℓ} {B : Type κ} → (A → B) → Option A → Option B
map_option f none = none
map_option f (some a) = some (f a)

unfoldable pub new_manifest : Binding → ℕ → ℕ → Option Identity → Manifest
new_manifest b generation now identity = record {
  version = 1;
  state = if is_some identity then codes "live" else codes "unavailable";
  tenant_id = b.tenant_id;
  agent_id = b.agent_id;
  workload_id = b.workload_id;
  policy_revision = b.policy_revision;
  unit = b.unit;
  generation = generation;
  verified_at_ms = now;
  kernel_boot_id = map_option (λ (v : Identity). v.kernel_boot_id) identity;
  container_id = map_option (λ (v : Identity). v.container_id) identity;
  pid = map_option (λ (v : Identity). v.pid) identity;
  start_ticks = map_option (λ (v : Identity). v.start_ticks) identity;
  cgroup = map_option (λ (v : Identity). v.cgroup) identity;
  cgroup_inode = map_option (λ (v : Identity). v.cgroup_inode) identity;
}

unfoldable pub valid_id : Text → Bool
valid_id s =
    not (is_empty s)
    && leb (text_len s) 64
    && all (λ b. is_alphanumeric b || b == b'-' || b == b'_' || b == b'.') s
    && not (list_eq s (codes "."))
    && not (list_eq s (codes ".."))

-- A scope is a tenant with a workload.
abbrev pub scope_eq : Text × Text → Text × Text → Bool
scope_eq (t, w) (u, v) = list_eq t u && list_eq w v

abbrev pub contains_scope : List (Text × Text) → Text × Text → Bool
contains_scope scopes s = any (λ x. scope_eq x s) scopes

-- The loop of `validate_policy` over the bindings, with the agents and the scopes seen so far.
unfoldable pub validate_bindings : List Text → List (Text × Text) → List Binding → Bool
validate_bindings agents scopes [] = true
validate_bindings agents scopes (b ∷ bs) =
    not (
      not (
        valid_id b.agent_id
        && valid_id b.tenant_id
        && valid_id b.workload_id
        && valid_id b.policy_revision)
      || not (is_some (strip_prefix (codes "agent-") b.agent_id))
      || not (list_eq b.unit (codes "docker-" ++ (b.agent_id ++ codes ".service")))
      || contains agents b.agent_id
      || contains_scope scopes (b.tenant_id, b.workload_id))
    && validate_bindings (b.agent_id ∷ agents) ((b.tenant_id, b.workload_id) ∷ scopes) bs

-- `validate_policy`; whether the two executables open as root-owned files is its argument.
unfoldable pub validate_policy : Bool → ℕ → List Binding → Bool
validate_policy executables version bindings =
    not (not (version == 1) || ltb max_bindings (length bindings))
    && executables
    && validate_bindings [] [] bindings
