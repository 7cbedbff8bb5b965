-- ===== src/Replication.antt =====
-- replication.rs: the change log, the feed that publishes to it and the follower that polls it.
pub mod Log
pub mod Feed
pub mod Stored
pub mod Following
pub mod Examples
