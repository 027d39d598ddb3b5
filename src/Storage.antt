-- ===== src/Storage.antt =====
-- The partition log of crates/storage/src/lib.rs.
pub mod Types
pub mod Reader
pub mod Record
pub mod Files
pub mod Segment
pub mod Log
pub mod Read
pub mod Upkeep
