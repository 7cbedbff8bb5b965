-- ===== src/Engine.antt =====
-- engine.rs: the engine over the log, the storage, the index and the change feed.
pub mod Operations
pub mod Opening
pub mod Durable
pub mod Kept
pub mod Documents
pub mod Commands
pub mod Recovery
pub mod Compaction
pub mod Examples
pub mod Queries
