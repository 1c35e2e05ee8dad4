-- ===== src/Broker.antt =====
-- crates/tentaflake-broker.
pub mod Budget
pub mod Targets
pub mod Streaming
pub mod Json
pub mod Llm
pub mod Config
pub mod Secrets
pub mod Quarantine
pub mod Samples
pub mod Tests
