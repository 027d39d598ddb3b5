-- ===== src/Protocol/Replication/Encode.antt =====
-- `encode_replicate_record` and `encode_replicate_ack` of crates/protocol/src/lib.rs.
use sevlamq.Prelude.{Bool, Option, false, length, none, some, true, ℕ}
use sevlamq.Protocol.Opcodes
use sevlamq.Protocol.Types.{Bytes, ReplicateRecord, ReplicateAck, max_key_size, max_message_size}
use sevlamq.Protocol.Result.{key_too_large, message_too_large}
use sevlamq.Protocol.Validate.{validate_topic}
use sevlamq.Protocol.Response.Encode.{extend_key}
use sevlamq.Protocol.Reader.{validate_size}
use sevlamq.Protocol.Writer.{
  Writer, ◌>>=◌, ◌>>◌, lift, position, extend, put_u8, put_u16, put_u32, put_u64, try_from,
  set_frame_len, encode_string,
}

abbrev pub key_size : Option Bytes → ℕ
key_size none = 0
key_size (some key) = length key

-- `u8::from(bool)`
abbrev pub bool_code : Bool → ℕ
bool_code false = 0
bool_code true = 1

unfoldable pub encode_replicate_record : ReplicateRecord → Writer Unit
encode_replicate_record replicated = do
  lift (validate_topic replicated.topic)
  lift (validate_size (key_size replicated.key) max_key_size key_too_large)
  lift (validate_size (length replicated.value) max_message_size message_too_large)
  start ← position
  put_u32 0
  put_u8 Opcodes.replicate_record
  encode_string replicated.topic
  put_u32 replicated.partition
  put_u64 replicated.offset
  put_u64 replicated.timestamp_ms
  put_u8 (bool_code replicated.durable)
  put_u32 replicated.leader_id
  put_u64 replicated.leader_epoch
  key_len ← lift (try_from 16 (key_size replicated.key) key_too_large)
  put_u16 key_len
  extend_key replicated.key
  value_len ← lift (try_from 32 (length replicated.value) message_too_large)
  put_u32 value_len
  extend replicated.value
  set_frame_len start

unfoldable pub encode_replicate_ack : ReplicateAck → Writer Unit
encode_replicate_ack ack = do
  start ← position
  put_u32 0
  put_u8 Opcodes.replicate_ack
  put_u32 ack.partition
  put_u64 ack.next_offset
  set_frame_len start
