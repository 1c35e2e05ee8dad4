-- ===== src/Broker/Streaming.antt =====
-- crates/tentaflake-broker/src/streaming.rs: the event stream between the provider and the client.
pub mod Sse
pub mod Frames
pub mod Deltas
pub mod Protocol
pub mod Endings
