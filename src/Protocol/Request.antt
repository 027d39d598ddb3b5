-- ===== src/Protocol/Request.antt =====
-- Requests: `encode_request` and `decode_request` of crates/protocol/src/lib.rs.
pub mod Encode
pub mod EncodeGroup
pub mod Decode
pub mod DecodeGroup
pub mod RoundTrip
