-- ===== src/Protocol/Safety/Produce.antt =====
-- The decoders of produce requests and batches, read by read.
use sevlamq.Prelude.{[], arith, is_empty, length, ltb, refl, suc, zero, ℕ, ◌==◌, ◌||◌, ◌≢◌}
use sevlamq.Protocol.Types.{
  Bytes, max_batch_messages, max_key_size, max_message_size, max_topic_name,
  max_uncompressed_batch_size,
}
use sevlamq.Protocol.Result.{
  Result, batch_too_large, bind, err, invalid_batch_count, invalid_compressed_batch, invalid_topic,
  key_too_large, message_too_large, ok, panic, topic_too_large,
}
use sevlamq.Protocol.Externals.{Externals}
use sevlamq.Protocol.Reader.{Reader}
use sevlamq.Protocol.Safety.{
  Safe, Safe-bind, Safe-check, Safe-ensure, Safe-get, Safe-if, Safe-lift, Safe-pure, Safe-raise,
}
use sevlamq.Protocol.Safety.Primitives.{
  Safe-bytes, Safe-bytes_then, Safe-empty, Safe-flag, Safe-guard, Safe-size, Safe-u16_len,
  Safe-u32_len, Safe-utf8,
}
use sevlamq.Protocol.Safety.Requests.{
  Safe-partition, Safe-producer, ack_from_code_total, compression_from_code_total,
  decompress_records_total, new_produce_batch_total, new_produce_total,
}
use sevlamq.Protocol.Request.Decode.{
  decode_batch_entry, decode_batch_records, decode_produce, decode_produce_batch, repeat, run_on,
}

module _ (x : Externals) where
  pub Safe-produce : Safe 0 (decode_produce x)
  unfolding decode_produce
  Safe-produce = Safe-bind 0 _ _ (Safe-u16_len 0) λ topic_len.
      Safe-bind 0 _ _ (Safe-size topic_len max_topic_name topic_too_large) λ _.
        Safe-bytes_then _
          (λ topic_bytes. Safe-bind 0 _ _ (Safe-utf8 0 x.is_utf8 invalid_topic topic_bytes) λ topic.
            Safe-bind 0 _ _ (Safe-guard (is_empty topic) invalid_topic) λ _.
              Safe-bind 0 _ _ (Safe-u16_len 0) λ key_len.
                Safe-bind 0 _ _ (Safe-size key_len max_key_size key_too_large) λ _.
                  Safe-bind 0 _ _ (Safe-bytes 0 key_len) λ key.
                    Safe-bind 0 _ _ (Safe-u32_len 0) λ payload_len.
                      Safe-bind 0 _ _ (Safe-size payload_len max_message_size message_too_large)
                        λ _. Safe-bind 0 _ _ (Safe-bytes 0 payload_len) λ payload.
                          Safe-ensure 1 0 _ (
                            Safe-get 1 1 _ (omega arith) λ code.
                              Safe-bind 0 _ _ (Safe-lift 0 _ (ack_from_code_total code)) λ ack_mode.
                                Safe-bind 0 _ _ (Safe-u16_len 0) λ producer_len.
                                  Safe-bind 0 _ _ (Safe-producer x producer_len) λ producer.
                                    Safe-partition x _ λ flag partition.
                                      Safe-bind 0 _ _ (Safe-flag flag) λ _.
                                        Safe-bind 0 _ _ (Safe-empty 0) λ _.
                                          Safe-bind 0 _ _
                                            (Safe-lift 0 _ (
                                              new_produce_total topic key payload ack_mode
                                                producer))
                                            λ request. Safe-pure 0 _))
          0 topic_len

Safe-entry : Safe 0 decode_batch_entry
unfolding decode_batch_entry
Safe-entry = Safe-bind 0 _ _ (Safe-u16_len 0) λ key_len.
    Safe-bind 0 _ _ (Safe-size key_len max_key_size key_too_large) λ _.
      Safe-bind 0 _ _ (Safe-bytes 0 key_len) λ key. Safe-bind 0 _ _ (Safe-u32_len 0) λ payload_len.
        Safe-bind 0 _ _ (Safe-size payload_len max_message_size message_too_large)
          λ _. Safe-bind 0 _ _ (Safe-bytes 0 payload_len) λ payload. Safe-pure 0 _

pub Safe-repeat :
    {A : Type 0} (count : ℕ) (item : Reader A) → Safe 0 item → Safe 0 (repeat count item)
unfolding repeat
Safe-repeat zero item s = Safe-pure 0 []
Safe-repeat (suc count) item s =
    Safe-bind 0 _ _ s λ a. Safe-bind 0 _ _ (Safe-repeat count item s) λ rest. Safe-pure 0 _

Safe-batch_records : Safe 0 decode_batch_records
unfolding decode_batch_records
Safe-batch_records = Safe-bind 0 _ _ (Safe-u32_len 0) λ count.
    Safe-bind 0 _ _ (Safe-guard (count == 0 || ltb max_batch_messages count) invalid_batch_count)
      λ _.
        Safe-bind 0 _ _ (Safe-repeat count decode_batch_entry Safe-entry)
          λ records. Safe-bind 0 _ _ (Safe-empty 0) λ _. Safe-pure 0 records

-- A decoder that is run on a buffer of its own.
run_on_total :
    {A : Type 0} (buffer : Bytes) (decoder : Reader A)
    → Safe 0 decoder
    → run_on buffer decoder ≢ panic
run_on_total {A} buffer decoder s = go (decoder buffer) (s.run buffer (omega arith))
  where
    go : (r : Result (A × Bytes)) → r ≢ panic → bind r (λ (a, rest). ok a) ≢ panic
    go (ok a) p = λ e. cc
    go (err error) p = λ e. cc
    go panic p = absurd (p refl)

module _ (x : Externals) where
  pub Safe-produce_batch : Safe 0 (decode_produce_batch x)
  unfolding decode_produce_batch
  Safe-produce_batch = Safe-bind 0 _ _ (Safe-u16_len 0) λ topic_len.
      Safe-bind 0 _ _ (Safe-size topic_len max_topic_name topic_too_large) λ _.
        Safe-bytes_then _
          (λ topic_bytes. Safe-bind 0 _ _ (Safe-utf8 0 x.is_utf8 invalid_topic topic_bytes) λ topic.
            Safe-ensure 10 0 _ (
              Safe-get 1 10 _ (omega arith) λ code.
                Safe-check 9 _ _ (ack_from_code_total code) λ ack_mode.
                  Safe-get 1 9 _ (omega arith) λ codec.
                    Safe-bind 8 _ _ (Safe-lift 8 _ (compression_from_code_total codec))
                      λ compression. Safe-bind 0 _ _ (Safe-u32_len 0) λ uncompressed_len.
                        Safe-bind 0 _ _
                          (Safe-guard (ltb max_uncompressed_batch_size uncompressed_len)
                            batch_too_large)
                          λ _. Safe-bind 0 _ _ (Safe-u32_len 0) λ encoded_len.
                            Safe-bind 0 _ _ (Safe-bytes 0 encoded_len) λ encoded.
                              Safe-partition x _ λ flag partition.
                                Safe-bind 0 _ _ (Safe-flag flag) λ _.
                                  Safe-bind 0 _ _ (Safe-empty 0) λ _.
                                    Safe-bind 0 _ _
                                      (Safe-lift 0 _
                                        (decompress_records_total x compression encoded))
                                      λ decoded.
                                        Safe-bind 0 _ _
                                          (Safe-if 0 (length decoded == uncompressed_len) _ _
                                            (Safe-pure 0 tt)
                                            (Safe-raise 0 invalid_compressed_batch))
                                          λ _.
                                            Safe-bind 0 _ _
                                              (Safe-lift 0 _ (
                                                run_on_total decoded decode_batch_records
                                                  Safe-batch_records))
                                              λ records.
                                                Safe-bind 0 _ _
                                                  (Safe-lift 0 _ (
                                                    new_produce_batch_total topic records ack_mode
                                                      compression))
                                                  λ request. Safe-pure 0 _))
          0 topic_len
