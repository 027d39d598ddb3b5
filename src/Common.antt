-- ===== src/Common.antt =====
-- The configuration of the broker, crates/common.
pub mod Config
