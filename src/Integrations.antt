-- ===== src/Integrations.antt =====
-- crates/tentaflake-integrations.
pub mod Grants
pub mod Gateway
pub mod Reads
pub mod Credentials
pub mod Rotation
pub mod Advisory
pub mod Proposals
pub mod Reviews
pub mod Unsaved
pub mod Tests
