-- ===== src/Protocol/Replication.antt =====
-- The frames of the replication connection of crates/protocol/src/lib.rs.
pub mod Encode
pub mod Decode
pub mod Safety
pub mod RoundTrip
