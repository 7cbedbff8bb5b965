-- ===== src/Storage.antt =====
-- storage.rs: the page storage of the main file.
pub mod Header
pub mod Pages
pub mod Durability
mod Examples
