-- ===== src/Workloads/Tests.antt =====
-- A text of bindings and identities that is read back, and the theorems at it.
use tentaflake.Workloads.Generations.{assign_again, assigns, Functional, assigns-Functional}
use tentaflake.Workloads.Changes.{assign_changed, IsEntered}
use tentaflake.Prelude.{
  arith, sym, ap, ◌∙◌, list_eq, false, ok, ◌+◌, ◌⊎◌, ℕ, List, ◌∷◌, suc, codes, ◌≡◌, refl, [], ◌<◌,
  none, Option, err, zero, ◌≤◌, Text, some, true, length,
}
use tentaflake.Workloads.Authority.{
  Fingerprints, assign, assign_fingerprint, insert, Authority, renumber, empty, lookup, Entry,
  Error,
}
use tentaflake.Workloads.Types.{max_generation, Identity, Binding, valid_id}
use tentaflake.Workloads.Publishing.{
  atomic_json-published, Place, fill_pending, valid_json_filename, Publication, atomic_json,
}

abbrev put : Text → List ℕ → List ℕ
put [] rest = 0 ∷ rest
put (b ∷ s) rest = suc b ∷ put s rest

abbrev take_text : List ℕ → Text × List ℕ
take_text [] = ([], [])
take_text (zero ∷ l) = ([], l)
take_text (suc b ∷ l) = let (s, rest) = take_text l in (b ∷ s, rest)

take_text-put : (s : Text) (rest : List ℕ) → take_text (put s rest) ≡ (s, rest)
take_text-put [] rest = refl
take_text-put (b ∷ s) rest = rw (take_text-put s rest) refl

abbrev put_identity : Option Identity → List ℕ
put_identity none = 0 ∷ []
put_identity (some i) =
    1
    ∷ i.pid
    ∷ i.start_ticks
    ∷ i.cgroup_inode
    ∷ put i.kernel_boot_id (put i.container_id (put i.cgroup []))

abbrev to_string : Binding → Option Identity → Text
to_string b i =
    put b.tenant_id
      (put b.agent_id (put b.workload_id (put b.policy_revision (put b.unit (put_identity i)))))

abbrev take_identity : List ℕ → Option Identity
take_identity (suc k ∷ p ∷ t ∷ n ∷ l) =
    let (boot, l₁) = take_text l in
    let (container, l₂) = take_text l₁ in
    let (cgroup, l₃) = take_text l₂ in
    some (record {
      kernel_boot_id = boot;
      container_id = container;
      pid = p;
      start_ticks = t;
      cgroup = cgroup;
      cgroup_inode = n;
    })
take_identity _ = none

abbrev from_string : Text → Option (Binding × Option Identity)
from_string l =
    let (tenant, l₁) = take_text l in
    let (agent, l₂) = take_text l₁ in
    let (workload, l₃) = take_text l₂ in
    let (revision, l₄) = take_text l₃ in
    let (unit, l₅) = take_text l₄ in
    some (
      record {
        tenant_id = tenant;
        agent_id = agent;
        workload_id = workload;
        policy_revision = revision;
        unit = unit;
      },
      take_identity l₅,
    )

take_identity-put : (i : Option Identity) → take_identity (put_identity i) ≡ i
take_identity-put none = refl
take_identity-put (some i) =
    rw
      (
        take_text-put i.kernel_boot_id (put i.container_id (put i.cgroup [])),
        take_text-put i.container_id (put i.cgroup []),
        take_text-put i.cgroup [],
      )
      refl

from_string-to_string :
    (b : Binding) (i : Option Identity) → from_string (to_string b i) ≡ some (b, i)
from_string-to_string b i =
    rw
      (
        take_text-put b.tenant_id _,
        take_text-put b.agent_id _,
        take_text-put b.workload_id _,
        take_text-put b.policy_revision _,
        take_text-put b.unit _,
        take_identity-put i,
      )
      refl

some-injective : (s t : Text) → some s ≡ some t → s ≡ t
some-injective s t h = ground arith

abbrev fingerprints : Fingerprints
fingerprints = record {
  to_string = λ b i. some (to_string b i);
  from_string = from_string;
  from_string-to_string = λ b i t h.
      ap from_string (sym (some-injective (to_string b i) t h)) ∙ from_string-to_string b i;
}

abbrev binding : Binding
binding = record {
  tenant_id = codes "t";
  agent_id = codes "agent-a";
  workload_id = codes "w";
  policy_revision = codes "r";
  unit = codes "docker-agent-a.service";
}

abbrev process : ℕ → Option Identity
process pid = some (record {
  kernel_boot_id = codes "k";
  container_id = codes "c";
  pid = pid;
  start_ticks = 5;
  cgroup = codes "g";
  cgroup_inode = 6;
})

abbrev calls : List (Binding × Option Identity)
calls = (binding, process 10) ∷ (binding, process 10) ∷ (binding, none) ∷ (binding, process 10) ∷ []

assigns-Functional_example : Functional (assigns fingerprints calls empty []).1
assigns-Functional_example = assigns-Functional fingerprints calls

assign_again_example :
    assign fingerprints binding none (assign fingerprints binding none empty).1
    ≡ (ok 1, (assign fingerprints binding none empty).1)
unfolding assign assign_fingerprint renumber lookup
assign_again_example = assign_again fingerprints binding none empty 1 first
  where
    first : (assign fingerprints binding none empty).0 ≡ ok 1
    first = refl

abbrev once : Authority
once = (assign fingerprints binding (process 10) empty).1

abbrev entry : Entry
entry = record { fingerprint = to_string binding (process 10); generation = 1 }

some_entry : (e d : Entry) → some d ≡ some e → e ≡ d
some_entry e d h = ground arith

-- The entry of the agent is not of the other process.
other :
    (e : Entry)
    → lookup binding.agent_id once.entries ≡ some e
    → list_eq e.fingerprint (to_string binding (process 11)) ≡ false
unfolding assign assign_fingerprint renumber lookup insert
other e h = rw (some_entry e entry h) refl

assign_changed_example :
    ((max_generation ≤ once.counter)
      × (assign fingerprints binding (process 11) once ≡ (err Error.invalid, once)))
    ⊎ ((once.counter < max_generation)
        × ((assign fingerprints binding (process 11) once).0 ≡ ok (once.counter + 1))
        × IsEntered once binding.agent_id
            (record { fingerprint = to_string binding (process 11); generation = once.counter + 1 })
            (assign fingerprints binding (process 11) once).1)
assign_changed_example =
    assign_changed fingerprints binding (process 11) once (to_string binding (process 11)) refl
      other

abbrev publication : Publication
publication = record {
  opens_directory = true;
  creates = true;
  writes = true;
  protects = true;
  syncs = true;
  renames = true;
  syncs_directory = true;
}

abbrev published : Place
published = record { target = some (1 ∷ []); pending = none }

atomic_json-published_example :
    (valid_json_filename (codes "a.json") ≡ true)
    × ◌≡◌ {A = Option (Option (List ℕ))} none none
    × (published.target ≡ some (1 ∷ []))
    × (published.pending ≡ none)
    × ((b : List ℕ) × (some (1 ∷ []) ≡ some b) × (length b ≤ 262_144))
unfolding atomic_json fill_pending valid_json_filename valid_id
atomic_json-published_example =
    atomic_json-published publication (codes "a.json") (some (1 ∷ []))
      (record { target = none; pending = none }) published refl
