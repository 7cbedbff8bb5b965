-- ===== src/DistTx.antt =====
-- dist_tx.rs: the coordinator of distributed transactions by two-phase commit.
pub mod Types
pub mod Coordinator
pub mod Votes
pub mod Changes
pub mod Invariant
pub mod Safety
pub mod Decisions
pub mod Answers
pub mod Local
mod Examples
