-- ===== src/Raft/Elections.antt =====
-- raft.rs: the vote traffic of a cluster. Nodes call for elections, answer any vote request, count
-- the answers that were sent to them, in any order and as often as they arrive, and otherwise do what
-- a node does. Messages may be lost, repeated and reordered; what a node holds survives.
pub mod Local
pub mod Counted
pub mod Invariant
pub mod Change
pub mod Preserved
pub mod Safety
