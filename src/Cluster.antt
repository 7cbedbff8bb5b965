-- ===== src/Cluster.antt =====
-- cluster.rs: the configuration of a cluster and a node of it.
pub mod Config
pub mod Node
pub mod Failover
pub mod Votes
pub mod Campaign
mod Examples
