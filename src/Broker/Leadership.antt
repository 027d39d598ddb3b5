-- ===== src/Broker/Leadership.antt =====
-- crates/broker/src/leadership.rs: who leads each partition, in which epoch.
pub mod Registry
pub mod Epochs
pub mod Runs
