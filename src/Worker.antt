-- ===== src/Worker.antt =====
-- crates/tentaflake-worker: the worker's configuration and requests, the snapshot of a workspace,
-- and the state that it retains.
pub mod Config
pub mod Trees
pub mod Snapshots
pub mod Measures
pub mod Retained
pub mod Reservations
pub mod Claims
mod Tests
