-- ===== src/Protocol/Request/Decode.antt =====
-- `decode_request` of crates/protocol/src/lib.rs and the decoders that it calls.
use sevlamq.Prelude.{
  ℕ, zero, suc, Option, none, some, List, [], ◌∷◌, ◌==◌, ◌||◌, length, ltb, is_empty, if◌then◌else◌,
}
use sevlamq.Protocol.Types.{
  Bytes, AckMode, leader, durable, Compression, uncompressed, zstd, ProducerIdentity,
  ProduceRequest, BatchRecord, ProduceBatchRequest, FetchRequest, CreateTopicRequest,
  PromoteLeaderRequest, ApplyLeadershipRequest, max_topic_name, max_key_size, max_message_size,
  max_batch_messages, max_uncompressed_batch_size,
}
use sevlamq.Protocol.Result.{
  Result, ok, err, bind, invalid_frame, invalid_ack_mode, invalid_compression, topic_too_large,
  key_too_large, message_too_large, invalid_topic, invalid_producer_id, invalid_batch_count,
  batch_too_large, invalid_partition_count, invalid_compressed_batch,
}
use sevlamq.Protocol.Externals.{Externals}
use sevlamq.Protocol.Validate.{validate_topic, new_produce, new_produce_batch, new_fetch}
use sevlamq.Protocol.Reader.{
  Reader, ◌>>=◌, ◌>>◌, pure, raise, lift, get_u8, get_u32, get_u64, ensure_remaining, ensure_empty,
  validate_size, read_u16_len, read_u32_len, read_bytes, from_utf8, decode_string,
}

unfoldable pub ack_from_code : ℕ → Result AckMode
ack_from_code code =
    if code == 1 then ok leader else if code == 2 then ok durable else err (invalid_ack_mode code)

unfoldable pub compression_from_code : ℕ → Result Compression
compression_from_code code =
    if code == 0
    then ok uncompressed
    else if code == 1
    then ok zstd
    else err (invalid_compression code)

-- `if found > 1 { return Err(InvalidFrame) }`
unfoldable pub flag_check : ℕ → Reader Unit
flag_check flag = if ltb 1 flag then raise invalid_frame else pure tt

-- `if has_partition == 1 { with_partition }`
abbrev pub partition_of : ℕ → ℕ → Option ℕ
partition_of flag partition = if flag == 1 then some partition else none

no_producer : Reader (Option ProducerIdentity)
no_producer = do ensure_remaining 8; _ ← get_u64; pure none

some_producer : Externals → ℕ → Reader (Option ProducerIdentity)
some_producer x producer_len = do
  bytes ← read_bytes producer_len
  id ← from_utf8 x.is_utf8 invalid_producer_id bytes
  ensure_remaining 8
  sequence ← get_u64
  pure (some (record { id = id; sequence = sequence }))

unfoldable pub decode_producer : Externals → ℕ → Reader (Option ProducerIdentity)
unfolding no_producer some_producer
decode_producer x producer_len =
    if producer_len == 0 then no_producer else some_producer x producer_len

unfoldable pub decode_produce : Externals → Reader ProduceRequest
decode_produce x = do
  topic_len ← read_u16_len
  lift (validate_size topic_len max_topic_name topic_too_large)
  topic_bytes ← read_bytes topic_len
  topic ← from_utf8 x.is_utf8 invalid_topic topic_bytes
  if is_empty topic then raise invalid_topic else pure tt
  key_len ← read_u16_len
  lift (validate_size key_len max_key_size key_too_large)
  key ← read_bytes key_len
  payload_len ← read_u32_len
  lift (validate_size payload_len max_message_size message_too_large)
  payload ← read_bytes payload_len
  ensure_remaining 1
  code ← get_u8
  ack_mode ← lift (ack_from_code code)
  producer_len ← read_u16_len
  producer ← decode_producer x producer_len
  ensure_remaining 5
  has_partition ← get_u8
  partition ← get_u32
  flag_check has_partition
  ensure_empty
  request ← lift (new_produce topic key payload ack_mode producer)
  pure (record request { partition = partition_of has_partition partition })

unfoldable pub decode_create_topic : Externals → Reader CreateTopicRequest
decode_create_topic x = do
  topic ← decode_string x.is_utf8
  ensure_remaining 4
  partitions ← get_u32
  ensure_empty
  lift (validate_topic topic)
  if partitions == 0 then raise invalid_partition_count else pure tt
  pure (record { topic = topic; partitions = partitions })

unfoldable pub decode_promote_leader : Externals → Reader PromoteLeaderRequest
decode_promote_leader x = do
  topic ← decode_string x.is_utf8
  ensure_remaining 8
  partition ← get_u32
  leader_id ← get_u32
  ensure_empty
  pure (record { topic = topic; partition = partition; leader_id = leader_id })

unfoldable pub decode_apply_leadership : Externals → Reader ApplyLeadershipRequest
decode_apply_leadership x = do
  topic ← decode_string x.is_utf8
  ensure_remaining 24
  partition ← get_u32
  leader_id ← get_u32
  leader_epoch ← get_u64
  high_watermark ← get_u64
  ensure_empty
  pure (record {
    topic = topic;
    leadership = record {
      partition = partition;
      leader_id = leader_id;
      leader_epoch = leader_epoch;
      high_watermark = high_watermark;
    };
  })

unfoldable pub decode_batch_entry : Reader BatchRecord
decode_batch_entry = do
  key_len ← read_u16_len
  lift (validate_size key_len max_key_size key_too_large)
  key ← read_bytes key_len
  payload_len ← read_u32_len
  lift (validate_size payload_len max_message_size message_too_large)
  payload ← read_bytes payload_len
  pure (record { key = key; payload = payload })

-- `for _ in 0..count`
unfoldable pub repeat : {A : Type 0} → ℕ → Reader A → Reader (List A)
repeat zero item = pure []
repeat (suc count) item = do a ← item; rest ← repeat count item; pure (a ∷ rest)

unfoldable pub decode_batch_records : Reader (List BatchRecord)
decode_batch_records = do
  count ← read_u32_len
  if count == 0 || ltb max_batch_messages count then raise invalid_batch_count else pure tt
  records ← repeat count decode_batch_entry
  ensure_empty
  pure records

unfoldable pub decompress_records : Externals → Compression → Bytes → Result Bytes
decompress_records x uncompressed encoded = ok encoded
decompress_records x zstd encoded = elim (x.decompress encoded max_uncompressed_batch_size) [
  | none ↦ err invalid_compressed_batch
  | some decoded ↦ ok decoded
]

-- A decoder run on a buffer of its own.
abbrev pub run_on : {A : Type 0} → Bytes → Reader A → Result A
run_on buffer decoder = bind (decoder buffer) λ (a, _). ok a

unfoldable pub decode_produce_batch : Externals → Reader ProduceBatchRequest
decode_produce_batch x = do
  topic_len ← read_u16_len
  lift (validate_size topic_len max_topic_name topic_too_large)
  topic_bytes ← read_bytes topic_len
  topic ← from_utf8 x.is_utf8 invalid_topic topic_bytes
  ensure_remaining 10
  code ← get_u8
  ack_mode ← lift (ack_from_code code)
  codec ← get_u8
  compression ← lift (compression_from_code codec)
  uncompressed_len ← read_u32_len
  if ltb max_uncompressed_batch_size uncompressed_len then raise batch_too_large else pure tt
  encoded_len ← read_u32_len
  encoded ← read_bytes encoded_len
  ensure_remaining 5
  has_partition ← get_u8
  partition ← get_u32
  flag_check has_partition
  ensure_empty
  decoded ← lift (decompress_records x compression encoded)
  if length decoded == uncompressed_len then pure tt else raise invalid_compressed_batch
  records ← lift (run_on decoded decode_batch_records)
  request ← lift (new_produce_batch topic records ack_mode compression)
  pure (record request { partition = partition_of has_partition partition })

unfoldable pub decode_fetch : Externals → Reader FetchRequest
decode_fetch x = do
  topic_len ← read_u16_len
  lift (validate_size topic_len max_topic_name topic_too_large)
  topic_bytes ← read_bytes topic_len
  topic ← from_utf8 x.is_utf8 invalid_topic topic_bytes
  ensure_remaining 20
  partition ← get_u32
  offset ← get_u64
  max_bytes ← get_u32
  max_wait_ms ← get_u32
  ensure_empty
  lift (new_fetch topic partition offset max_bytes max_wait_ms)
