-- ===== src/Protocol.antt =====
-- crates/protocol/src/lib.rs: the wire types and the binary codec.
pub mod Types
pub mod Opcodes
pub mod Result
pub mod Reader
pub mod Writer
pub mod Externals
pub mod Frame
pub mod Primitives
pub mod Layout
pub mod Validate
pub mod Request
pub mod Safety
pub mod Response
pub mod Replication
