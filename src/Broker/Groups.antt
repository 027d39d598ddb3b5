-- ===== src/Broker/Groups.antt =====
-- crates/broker/src/groups.rs: the consumer groups, their partitions and their offsets.
pub mod Group
pub mod Offsets
pub mod Coordinator
pub mod Joining
pub mod Assignment
pub mod Fencing
pub mod Evolution
pub mod Loops
pub mod Steps
pub mod Commit
pub mod Durable
pub mod Joined
