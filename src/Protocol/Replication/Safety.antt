-- ===== src/Protocol/Replication/Safety.antt =====
-- The decoders of the replication frames, read by read: none reads past the end of a frame.
use sevlamq.Prelude.{Bool, arith, false, if◌then◌else◌, ltb, true, ℕ, ◌==◌, ◌≢◌}
use sevlamq.Protocol.Opcodes
use sevlamq.Protocol.Types.{Bytes, max_message_size}
use sevlamq.Protocol.Result.{invalid_frame, message_too_large, panic}
use sevlamq.Protocol.Externals.{Externals}
use sevlamq.Protocol.Reader.{Reader, pure, raise, ◌>>◌}
use sevlamq.Protocol.Safety.{Safe, Safe-bind, Safe-ensure, Safe-get, Safe-pure, Safe-weaken}
use sevlamq.Protocol.Safety.Primitives.{
  Safe-empty, Safe-string_then, Safe-bytes, Safe-u16_len, Safe-u32_len, Safe-size,
}
use sevlamq.Protocol.Safety.Dispatch.{decode_frame_total}
use sevlamq.Protocol.Response.Safety.{Safe-guard_then, Safe-remaining}
use sevlamq.Protocol.Replication.Decode.{
  decode_replicate_body, decode_replicate_record, decode_replicate_ack_body, decode_replicate_ack,
}

Safe-require :
    {A : Type 0} (k : ℕ) (b : Bool) (m : Reader A)
    → Safe k m
    → Safe k ((if b then pure tt else raise invalid_frame) >> m)
Safe-require k true m s = record { run = s.run }
Safe-require k false m s = record { run = λ buffer h p. cc }

Safe-replicate_body : (x : Externals) → Safe 1 (decode_replicate_body x)
unfolding decode_replicate_body
Safe-replicate_body x = Safe-get 1 1 _ (omega arith) λ opcode.
    Safe-require 0 (opcode == Opcodes.replicate_record) _ (
      Safe-string_then _
        (λ topic. Safe-ensure 35 0 _ (
          Safe-get 4 35 _ (omega arith) λ partition. Safe-get 8 31 _ (omega arith) λ offset.
            Safe-get 8 23 _ (omega arith) λ timestamp_ms. Safe-get 1 15 _ (omega arith) λ durable.
              Safe-guard_then 14 (ltb 1 durable) invalid_frame _ (
                Safe-get 4 14 _ (omega arith) λ leader_id.
                  Safe-get 8 10 _ (omega arith) λ leader_epoch.
                    Safe-bind 2 _ _ (Safe-u16_len 2) λ key_len.
                      Safe-bind 0 _ _ (Safe-bytes 0 key_len) λ key.
                        Safe-bind 0 _ _ (Safe-u32_len 0) λ value_len.
                          Safe-bind 0 _ _ (Safe-size value_len max_message_size message_too_large)
                            λ _.
                              Safe-bind 0 _ _ (Safe-bytes 0 value_len)
                                λ value. Safe-bind 0 _ _ (Safe-empty 0) λ _. Safe-pure 0 _)))
        x.is_utf8)

Safe-replicate_ack : Safe 0 decode_replicate_ack_body
unfolding decode_replicate_ack_body
Safe-replicate_ack = Safe-remaining 13 _ _ (
    Safe-get 1 13 _ (omega arith) λ opcode. Safe-require 12 (opcode == Opcodes.replicate_ack) _ (
      Safe-get 4 12 _ (omega arith)
        λ partition. Safe-get 8 8 _ (omega arith) λ next_offset. Safe-pure 0 _))

-- Whatever bytes another broker sends, `decode_replicate_record` and `decode_replicate_ack` do not
-- read past the end of a frame.
pub decode_replicate_total :
    (x : Externals) (buffer : Bytes)
    → (decode_replicate_record x buffer ≢ panic) × (decode_replicate_ack buffer ≢ panic)
unfolding decode_replicate_record decode_replicate_ack
decode_replicate_total x buffer = (
  decode_frame_total (decode_replicate_body x) (Safe-replicate_body x) buffer,
  decode_frame_total decode_replicate_ack_body (Safe-weaken 0 1 _ (omega arith) Safe-replicate_ack)
      buffer,
)
