-- ===== src/Lib.antt =====
-- A verification library of tentaflake, a host for contained agents. Its programs are Rust crates under
-- crates/; this library models the core of four of them.
--
-- Broker (crates/tentaflake-broker), the proxy between the agents and the providers:
--   Broker/Config models the records of src/config.rs and `validate`.
--   Broker/Budget models the budget limits of src/state.rs. State holds its records, Admission the call
--   `reserve_with_clock`, Reservations `reserve` and `reserve_llm`, Usage the settlement and the guards
--   of a response's usage, Disk and Digest the strict state file and its checksum, and Lifecycle
--   `initialize_strict_at`, `reconcile_strict_at` and `load_at`. History runs calls in any order; the
--   other modules hold proofs.
--   Broker/Llm models the requests to a model in src/broker.rs: Requests what `handle_llm` checks and
--   computes up to its reservation, Envelope the strict envelope and the local tools, Usage the costs
--   and `observe_usage`, Completion the outcome of a response. Costs, Locality, Plans Admitted and
--   Authorized hold proofs; Admitted joins the plan with the budget.
--   Broker/Streaming models src/streaming.rs: Sse the parser of events, Deltas and Protocol the
--   inspection of their data. Frames and Endings hold proofs.
--   Broker/Quarantine models `Quarantine` of src/state.rs, Broker/Secrets `read_secret_from` and
--   `constant_time_eq`, and Broker/Targets `resolve_public_target_with` of src/policy.rs. Broker/Json
--   is the interface of the JSON values.
-- Worker (crates/tentaflake-worker), which runs the jobs of an agent:
--   Config models the configuration and the requests of src/main.rs with their checks, Trees and
--   Snapshots the directories and `copy_directory_fd`; Retained models `scan_retained_tree` of
--   src/queue.rs, Reservations `check_retained`, and Claims `reserve_result` and `claim`. Measures is
--   the description of a tree that the code is compared with; the child modules hold proofs.
-- Integrations (crates/tentaflake-integrations), reads of third-party data and proposals for review:
--   Grants and Gateway model the grants, the routes and `read_inner` of src/lib.rs, Credentials the
--   leases of `RuntimeCredentials` in src/front.rs, Advisory `propose` of src/advisory.rs, whose
--   proposals Proposals keeps, the `Store` of src/review.rs. Reads, Rotation, Reviews and Unsaved hold
--   proofs.
-- Workloads (crates/tentaflake-workloads), which numbers what it observes of the agents' processes:
--   Types models the bindings, identities and manifests of src/lib.rs and the policy's checks, Authority
--   its `Authority`, Publishing `atomic_json` and `parse_cgroup`; Generations and Changes hold
--   proofs.
--
-- Stateful calls take the state and give back the new one with a result. What the operating system
-- answers is a record of answers per call, over which the theorems range. SHA-256, the JSON library,
-- the URL parser and the resolver are records of functions with the laws that the code relies on.
-- A `u64` is a native number, and where the source adds, the model checks or wraps at 2 ^ 64. The
-- only fuel is that of the decimal digits of a proposal's number, which is 3 for numbers up to 101.
-- The loops over bytes, lists and directories recur on them.
--
-- Not modelled are the servers and the HTTP of the broker and of the gateway, the dispatch and the
-- redirects of a request, the relay of a stream and its deadlines, the audit log, the activity of the
-- broker's configuration, the results, approvals and recovery of the worker's queue and the containers
-- that it runs, the commands that observe the workloads, and the crates of the control plane, of the
-- activity log and of the command line.
pub mod Prelude
pub mod Broker
pub mod Integrations
pub mod Workloads
pub mod Worker
