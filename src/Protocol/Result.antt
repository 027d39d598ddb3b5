-- ===== src/Protocol/Result.antt =====
-- `Result<_, ProtocolError>` of crates/protocol/src/lib.rs. `panic` is the outcome of a read of the
-- `bytes` crate past the end of a buffer.
use sevlamq.Prelude.{ℕ}

pub data ProtocolError : Type 0 where
  invalid_frame frame_too_large invalid_topic topic_too_large key_too_large : ProtocolError
  message_too_large fetch_too_large fetch_wait_too_long invalid_producer_id : ProtocolError
  invalid_batch_count batch_too_large invalid_compressed_batch : ProtocolError
  invalid_partition_count invalid_cluster_metadata : ProtocolError
  unknown_opcode invalid_ack_mode invalid_compression : ℕ → ProtocolError

pub data Result {ℓ} (A : Type ℓ) : Type ℓ where
  ok : A → Result A
  err : ProtocolError → Result A
  panic : Result A

module _ {ℓ κ} {A : Type ℓ} {B : Type κ} where
  abbrev pub bind : Result A → (A → Result B) → Result B
  bind (ok a) f = f a
  bind (err e) f = err e
  bind panic f = panic
