-- ===== src/Raft.antt =====
-- raft.rs: leader election and log replication of one Raft node. `Types` holds the state and the
-- messages, `Log` the methods of `PersistentState`, `Node` and `Append` those of `RaftNode`.
pub mod Types
pub mod Log
pub mod Node
pub mod Append
pub mod Voting
pub mod Steps
pub mod Matching
pub mod Replication
pub mod Quorum
pub mod Commit
pub mod Applying
pub mod Saved
pub mod Elections
mod Examples
