-- ===== src/Shard.antt =====
-- shard.rs: which shard a document belongs to and which node owns a shard.
pub mod ShardMap
pub mod Allocator
pub mod Router
pub mod Routing
pub mod Documents
mod Examples
pub mod Queries
pub mod Merged
