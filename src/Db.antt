-- ===== src/Db.antt =====
-- db.rs: the database of documents that is kept in one JSON file.
pub mod Types
pub mod Indexes
pub mod Operations
pub mod Listed
pub mod Entries
pub mod Invariant
pub mod Kept
pub mod Reached
pub mod Queries
pub mod Scanned
pub mod Recovery
pub mod Unrecovered
pub mod Search
pub mod Reads
pub mod Found
pub mod Calls
pub mod Replaced
pub mod Examples
pub mod Visible
pub mod Fitting
