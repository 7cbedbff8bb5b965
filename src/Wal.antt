-- ===== src/Wal.antt =====
-- wal.rs: the write-ahead log.
pub mod Records
pub mod Replay
pub mod Logged
pub mod Recovery
pub mod Ending
pub mod Committed
pub mod Logging
pub mod Marking
pub mod Flags
pub mod Examples
