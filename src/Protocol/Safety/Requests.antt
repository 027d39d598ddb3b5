-- ===== src/Protocol/Safety/Requests.antt =====
-- The decoders of the other requests, read by read.
use sevlamq.Prelude.{List, Option, [], arith, length, none, some, ℕ, ◌+◌, ◌==◌, ◌∷◌, ◌≢◌}
use sevlamq.Protocol.Types.{
  AckMode, BatchRecord, Bytes, Compression, ProducerIdentity, max_topic_name, uncompressed, zstd,
}
use sevlamq.Protocol.Result.{
  invalid_partition_count, invalid_producer_id, invalid_topic, panic, topic_too_large,
}
use sevlamq.Protocol.Externals.{Externals}
use sevlamq.Protocol.Reader.{Reader, ensure_remaining, get_u32, get_u8, validate_size, ◌>>=◌, ◌>>◌}
use sevlamq.Protocol.Validate.{
  batch_size, new_fetch, new_produce, new_produce_batch, validate_identifier, validate_producer,
  validate_topic,
}
use sevlamq.Protocol.Safety.{Safe, Safe-bind, Safe-ensure, Safe-get, Safe-if, Safe-lift, Safe-pure}
use sevlamq.Protocol.Safety.Primitives.{
  Safe-bytes_then, Safe-empty, Safe-guard, Safe-size, Safe-string_then, Safe-u16_len, Safe-utf8,
}
use sevlamq.Protocol.Request.Decode.{
  ack_from_code, compression_from_code, decode_apply_leadership, decode_create_topic, decode_fetch,
  decode_producer, decode_promote_leader, decompress_records,
}

pub validate_topic_total : (topic : Bytes) → validate_topic topic ≢ panic
unfolding validate_topic validate_size
validate_topic_total topic = ground arith

pub validate_producer_total : (p : Option ProducerIdentity) → validate_producer p ≢ panic
unfolding validate_producer validate_identifier
validate_producer_total none = ground arith
validate_producer_total (some producer) = ground arith

pub new_produce_total :
    (topic key payload : Bytes) (ack : AckMode) (p : Option ProducerIdentity)
    → new_produce topic key payload ack p ≢ panic
unfolding new_produce validate_size
new_produce_total topic key payload ack p =
    ground (arith, validate_topic_total topic, validate_producer_total p)

batch_size_total : (records : List BatchRecord) (acc : ℕ) → batch_size records acc ≢ panic
unfolding batch_size validate_size
batch_size_total [] acc = ground arith
batch_size_total (entry ∷ rest) acc =
    ground (arith, batch_size_total rest (acc + (2 + length entry.key + 4 + length entry.payload)))

pub new_produce_batch_total :
    (topic : Bytes) (records : List BatchRecord) (ack : AckMode) (c : Compression)
    → new_produce_batch topic records ack c ≢ panic
unfolding new_produce_batch validate_size
new_produce_batch_total topic records ack c =
    ground (arith, validate_topic_total topic, batch_size_total records 4)

pub new_fetch_total :
    (topic : Bytes) (partition offset max_bytes max_wait_ms : ℕ)
    → new_fetch topic partition offset max_bytes max_wait_ms ≢ panic
unfolding new_fetch
new_fetch_total topic partition offset max_bytes max_wait_ms =
    ground (arith, validate_topic_total topic)

pub ack_from_code_total : (code : ℕ) → ack_from_code code ≢ panic
unfolding ack_from_code
ack_from_code_total code = ground arith

pub compression_from_code_total : (code : ℕ) → compression_from_code code ≢ panic
unfolding compression_from_code
compression_from_code_total code = ground arith

pub decompress_records_total :
    (x : Externals) (c : Compression) (encoded : Bytes) → decompress_records x c encoded ≢ panic
unfolding decompress_records
decompress_records_total x uncompressed encoded = ground arith
decompress_records_total x zstd encoded = ground arith

module _ (x : Externals) where
  pub Safe-create_topic : Safe 0 (decode_create_topic x)
  unfolding decode_create_topic
  Safe-create_topic =
      Safe-string_then _
        (λ topic. Safe-ensure 4 0 _ (
          Safe-get 4 4 _ (omega arith) λ partitions. Safe-bind 0 _ _ (Safe-empty 0) λ _.
            Safe-bind 0 _ _ (Safe-lift 0 _ (validate_topic_total topic)) λ _.
              Safe-bind 0 _ _ (Safe-guard (partitions == 0) invalid_partition_count)
                λ _. Safe-pure 0 _))
        x.is_utf8

  pub Safe-promote_leader : Safe 0 (decode_promote_leader x)
  unfolding decode_promote_leader
  Safe-promote_leader =
      Safe-string_then _
        (λ topic. Safe-ensure 8 0 _ (
          Safe-get 4 8 _ (omega arith) λ partition.
            Safe-get 4 4 _ (omega arith)
              λ leader_id. Safe-bind 0 _ _ (Safe-empty 0) λ _. Safe-pure 0 _))
        x.is_utf8

  pub Safe-apply_leadership : Safe 0 (decode_apply_leadership x)
  unfolding decode_apply_leadership
  Safe-apply_leadership =
      Safe-string_then _
        (λ topic. Safe-ensure 24 0 _ (
          Safe-get 4 24 _ (omega arith) λ partition. Safe-get 4 20 _ (omega arith) λ leader_id.
            Safe-get 8 16 _ (omega arith) λ epoch.
              Safe-get 8 8 _ (omega arith)
                λ high_watermark. Safe-bind 0 _ _ (Safe-empty 0) λ _. Safe-pure 0 _))
        x.is_utf8

  pub Safe-fetch : Safe 0 (decode_fetch x)
  unfolding decode_fetch
  Safe-fetch = Safe-bind 0 _ _ (Safe-u16_len 0) λ topic_len.
      Safe-bind 0 _ _ (Safe-size topic_len max_topic_name topic_too_large) λ _.
        Safe-bytes_then _
          (λ topic_bytes. Safe-bind 0 _ _ (Safe-utf8 0 x.is_utf8 invalid_topic topic_bytes) λ topic.
            Safe-ensure 20 0 _ (
              Safe-get 4 20 _ (omega arith) λ partition. Safe-get 8 16 _ (omega arith) λ offset.
                Safe-get 4 8 _ (omega arith) λ max_bytes.
                  Safe-get 4 4 _ (omega arith) λ max_wait_ms. Safe-bind 0 _ _ (Safe-empty 0) λ _.
                    Safe-lift 0 _ (new_fetch_total topic partition offset max_bytes max_wait_ms)))
          0 topic_len

  pub Safe-producer : (producer_len : ℕ) → Safe 0 (decode_producer x producer_len)
  unfolding decode_producer
  Safe-producer producer_len =
      Safe-if 0 (producer_len == 0) _ _
        (Safe-ensure 8 0 _ (Safe-get 8 8 _ (omega arith) λ _. Safe-pure 0 none))
        (Safe-bytes_then _
          (λ bytes.
            Safe-bind 0 _ _ (Safe-utf8 0 x.is_utf8 invalid_producer_id bytes)
              λ id. Safe-ensure 8 0 _ (Safe-get 8 8 _ (omega arith) λ sequence. Safe-pure 0 _))
          0 producer_len)

  -- The end of a produce request: the partition, and the checks on the whole.
  pub Safe-partition :
      {B : Type 0} (f : ℕ → ℕ → Reader B)
      → ((flag partition : ℕ) → Safe 0 (f flag partition))
      → Safe 0
          (ensure_remaining 5 >> (get_u8 >>= λ flag. get_u32 >>= λ partition. f flag partition))
  Safe-partition f s = Safe-ensure 5 0 _ (
      Safe-get 1 5 _ (omega arith)
        λ flag. Safe-get 4 4 _ (omega arith) λ partition. s flag partition)
