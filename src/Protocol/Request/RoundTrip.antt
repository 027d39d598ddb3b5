-- ===== src/Protocol/Request/RoundTrip.antt =====
-- The encoders and decoders of `encode_request` and `decode_request`, one kind of request at a time.
pub mod Strings
pub mod Group
pub mod GroupFetch
pub mod Admin
pub mod Produce
pub mod Batch
pub mod BatchFrame
pub mod Total
