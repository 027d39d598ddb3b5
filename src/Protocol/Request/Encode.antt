-- ===== src/Protocol/Request/Encode.antt =====
-- The encoders of the requests of crates/protocol/src/lib.rs that carry records or manage topics.
use sevlamq.Prelude.{
  ℕ, ◌+◌, ◌-◌, Option, none, some, Bool, true, false, List, [], ◌∷◌, length, ◌==◌, if◌then◌else◌,
}
use sevlamq.Protocol.Types.{
  Bytes, AckMode, leader, durable, Compression, uncompressed, zstd, ProducerIdentity,
  ProduceRequest, BatchRecord, ProduceBatchRequest, FetchRequest, CreateTopicRequest,
  max_frame_size, frame_header_size,
}
use sevlamq.Protocol.Result.{
  Result, ok, err, frame_too_large, topic_too_large, key_too_large, message_too_large,
  invalid_producer_id, invalid_batch_count, batch_too_large, invalid_partition_count,
  invalid_compressed_batch,
}
use sevlamq.Protocol.Opcodes
use sevlamq.Protocol.Reader.{validate_size}
use sevlamq.Protocol.Validate.{validate_topic}
use sevlamq.Protocol.Externals.{Externals}
use sevlamq.Protocol.Writer.{
  Writer, ◌>>=◌, ◌>>◌, lift, position, extend, put_u8, put_u16, put_u32, put_u64, try_from,
  set_frame_len, encode_string,
}

abbrev pub ack_code : AckMode → ℕ
ack_code leader = 1
ack_code durable = 2

abbrev pub compression_code : Compression → ℕ
compression_code uncompressed = 0
compression_code zstd = 1

-- `u8::from(option.is_some())` and `option.unwrap_or_default()`
abbrev pub is_some_code {ℓ} : {A : Type ℓ} → Option A → ℕ
is_some_code none = 0
is_some_code (some a) = 1

abbrev pub unwrap_or_default : Option ℕ → ℕ
unwrap_or_default none = 0
unwrap_or_default (some n) = n

abbrev pub producer_id_len : Option ProducerIdentity → ℕ
producer_id_len none = 0
producer_id_len (some producer) = length producer.id

unfoldable pub put_producer : Option ProducerIdentity → Writer Unit
put_producer none = put_u64 0
put_producer (some producer) = do extend producer.id; put_u64 producer.sequence

unfoldable pub encode_produce : ProduceRequest → Writer Unit
encode_produce request = do
  let producer_len = producer_id_len request.producer
  let frame_len =
      1
      + 2
      + length request.topic
      + 2
      + length request.key
      + 4
      + length request.payload
      + 1
      + 2
      + producer_len
      + 8
      + 5
  encoded_len ← lift (try_from 32 frame_len frame_too_large)
  put_u32 encoded_len
  put_u8 Opcodes.produce
  topic_len ← lift (try_from 16 (length request.topic) topic_too_large)
  put_u16 topic_len
  extend request.topic
  key_len ← lift (try_from 16 (length request.key) key_too_large)
  put_u16 key_len
  extend request.key
  payload_len ← lift (try_from 32 (length request.payload) message_too_large)
  put_u32 payload_len
  extend request.payload
  put_u8 (ack_code request.ack_mode)
  id_len ← lift (try_from 16 producer_len invalid_producer_id)
  put_u16 id_len
  put_producer request.producer
  put_u8 (is_some_code request.partition)
  put_u32 (unwrap_or_default request.partition)

unfoldable pub encode_strings : List Bytes → Writer Unit
encode_strings [] = lift (ok tt)
encode_strings (value ∷ rest) = do encode_string value; encode_strings rest

unfoldable pub encode_string_request : ℕ → List Bytes → Writer ℕ
encode_string_request opcode values = do
  start ← position
  put_u32 0
  put_u8 opcode
  encode_strings values
  set_frame_len start
  lift (ok start)

unfoldable pub encode_create_topic : CreateTopicRequest → Writer Unit
encode_create_topic request = do
  lift (validate_topic request.topic)
  lift (if request.partitions == 0 then err invalid_partition_count else ok tt)
  start ← encode_string_request Opcodes.create_topic (request.topic ∷ [])
  put_u32 request.partitions
  set_frame_len start

-- Only `APPLY_LEADERSHIP` carries the epoch and the high watermark.
put_epoch : Bool → ℕ → ℕ → Writer Unit
put_epoch true leader_epoch high_watermark = do put_u64 leader_epoch; put_u64 high_watermark
put_epoch false leader_epoch high_watermark = lift (ok tt)

unfoldable pub encode_leadership_request : ℕ → Bytes → ℕ → ℕ → ℕ → ℕ → Writer Unit
unfolding put_epoch
encode_leadership_request opcode topic partition leader_id leader_epoch high_watermark = do
  lift (validate_topic topic)
  start ← position
  put_u32 0
  put_u8 opcode
  encode_string topic
  put_u32 partition
  put_u32 leader_id
  put_epoch (opcode == Opcodes.apply_leadership) leader_epoch high_watermark
  set_frame_len start

unfoldable pub encode_batch_entries : List BatchRecord → Writer Unit
encode_batch_entries [] = lift (ok tt)
encode_batch_entries (entry ∷ rest) = do
  key_len ← lift (try_from 16 (length entry.key) key_too_large)
  put_u16 key_len
  extend entry.key
  payload_len ← lift (try_from 32 (length entry.payload) message_too_large)
  put_u32 payload_len
  extend entry.payload
  encode_batch_entries rest

-- The records of a batch are written to a buffer of their own.
unfoldable pub encode_batch_records : List BatchRecord → Writer Unit
encode_batch_records records = do
  count ← lift (try_from 32 (length records) invalid_batch_count)
  put_u32 count
  encode_batch_entries records

unfoldable pub compress_records : Externals → Compression → Bytes → Result Bytes
compress_records x uncompressed records = ok records
compress_records x zstd records = elim (x.compress records) [
  | none ↦ err invalid_compressed_batch
  | some b ↦ ok b
]

-- A fresh buffer, and what an encoder leaves in it.
abbrev in_new_buffer : Writer Unit → Writer Bytes
in_new_buffer m = do let (r, written) = m []; lift r; lift (ok written)

unfoldable pub encode_produce_batch : Externals → ProduceBatchRequest → Writer Unit
encode_produce_batch x request = do
  records ← in_new_buffer (encode_batch_records request.records)
  encoded ← lift (compress_records x request.compression records)
  start ← position
  put_u32 0
  put_u8 Opcodes.produce_batch
  topic_len ← lift (try_from 16 (length request.topic) topic_too_large)
  put_u16 topic_len
  extend request.topic
  put_u8 (ack_code request.ack_mode)
  put_u8 (compression_code request.compression)
  uncompressed_len ← lift (try_from 32 (length records) batch_too_large)
  put_u32 uncompressed_len
  encoded_len ← lift (try_from 32 (length encoded) frame_too_large)
  put_u32 encoded_len
  extend encoded
  put_u8 (is_some_code request.partition)
  put_u32 (unwrap_or_default request.partition)
  set_frame_len start
  end ← position
  lift (validate_size (end - start - frame_header_size) max_frame_size frame_too_large)

unfoldable pub encode_fetch : FetchRequest → Writer Unit
encode_fetch request = do
  let frame_len = 1 + 2 + length request.topic + 4 + 8 + 4 + 4
  encoded_len ← lift (try_from 32 frame_len frame_too_large)
  put_u32 encoded_len
  put_u8 Opcodes.fetch
  topic_len ← lift (try_from 16 (length request.topic) topic_too_large)
  put_u16 topic_len
  extend request.topic
  put_u32 request.partition
  put_u64 request.offset
  put_u32 request.max_bytes
  put_u32 request.max_wait_ms
