-- ===== src/Tests.antt =====
-- Runs of the models of crates/protocol, crates/broker, crates/storage and crates/common at concrete
-- inputs, where the theorems with hypotheses apply.
pub mod Codec
pub mod Frames
pub mod Groups
pub mod Leadership
pub mod Placement
pub mod Memory
pub mod Storage
pub mod Membership
