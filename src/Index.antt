-- ===== src/Index.antt =====
-- index.rs: the inverted index.
pub mod Inverted
pub mod Contents
pub mod Search
mod Examples
