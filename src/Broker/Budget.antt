-- ===== src/Broker/Budget.antt =====
-- crates/tentaflake-broker/src/state.rs, the budget limits.
pub mod State
pub mod Digest
pub mod Disk
pub mod Admission
pub mod Usage
pub mod Storage
pub mod Authority
pub mod Outcomes
pub mod Charging
pub mod Durability
pub mod Keeping
pub mod History
pub mod DailyBudget
pub mod Closing
pub mod Reservations
pub mod Lifecycle
pub mod Restart
pub mod Tests
