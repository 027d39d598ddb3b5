-- ===== src/Broker.antt =====
-- crates/broker/src: the consumer groups, the leadership registry and the choice of replicas.
pub mod Host
pub mod Groups
pub mod Leadership
pub mod Placement
pub mod Replicas
pub mod Candidate
