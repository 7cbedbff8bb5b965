-- ===== src/Query.antt =====
-- query.rs: the language of queries on documents.
pub mod Types
pub mod Operands
pub mod Parse
pub mod Cuts
pub mod Ending
pub mod Matches
pub mod Examples
