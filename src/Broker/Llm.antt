-- ===== src/Broker/Llm.antt =====
-- crates/tentaflake-broker/src/broker.rs: requests to a language model.
pub mod Usage
pub mod Costs
pub mod Completion
pub mod Envelope
pub mod Locality
pub mod Requests
pub mod Plans
pub mod Admitted
pub mod Authorized
pub mod Tests
