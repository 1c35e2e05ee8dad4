-- ===== src/Workloads.antt =====
-- crates/tentaflake-workloads.
pub mod Types
pub mod Authority
pub mod Generations
pub mod Changes
pub mod Publishing
pub mod Tests
