-- ===== src/Protocol/Replication/Decode.antt =====
-- `decode_replicate_record` and `decode_replicate_ack` of crates/protocol/src/lib.rs.
use sevlamq.Prelude.{Option, [], if◌then◌else◌, ltb, none, some, ◌==◌, ◌∷◌}
use sevlamq.Protocol.Opcodes
use sevlamq.Protocol.Types.{Bytes, ReplicateRecord, ReplicateAck, max_message_size}
use sevlamq.Protocol.Result.{Result, invalid_frame, message_too_large}
use sevlamq.Protocol.Externals.{Externals}
use sevlamq.Protocol.Frame.{decode_frame}
use sevlamq.Protocol.Response.Decode.{if_remaining}
use sevlamq.Protocol.Reader.{
  Reader, ◌>>=◌, ◌>>◌, pure, raise, lift, get_u8, get_u32, get_u64, ensure_remaining, ensure_empty,
  read_u16_len, read_u32_len, read_bytes, decode_string, validate_size,
}

-- An empty key is no key.
abbrev pub key_of : Bytes → Option Bytes
key_of [] = none
key_of (b ∷ key) = some (b ∷ key)

unfoldable pub decode_replicate_body : Externals → Reader ReplicateRecord
decode_replicate_body x = do
  opcode ← get_u8
  (if opcode == Opcodes.replicate_record then pure tt else raise invalid_frame)
  topic ← decode_string x.is_utf8
  ensure_remaining 35
  partition ← get_u32
  offset ← get_u64
  timestamp_ms ← get_u64
  durable ← get_u8
  (if ltb 1 durable then raise invalid_frame else pure tt)
  leader_id ← get_u32
  leader_epoch ← get_u64
  key_len ← read_u16_len
  key ← read_bytes key_len
  value_len ← read_u32_len
  lift (validate_size value_len max_message_size message_too_large)
  value ← read_bytes value_len
  ensure_empty
  pure (record {
    topic = topic;
    partition = partition;
    offset = offset;
    timestamp_ms = timestamp_ms;
    key = key_of key;
    value = value;
    durable = durable == 1;
    leader_id = leader_id;
    leader_epoch = leader_epoch;
  })

unfoldable pub decode_replicate_record : Externals → Bytes → Result (Option ReplicateRecord × Bytes)
decode_replicate_record x = decode_frame (decode_replicate_body x)

unfoldable pub decode_replicate_ack_body : Reader ReplicateAck
decode_replicate_ack_body = if_remaining 13 invalid_frame (do
  opcode ← get_u8
  (if opcode == Opcodes.replicate_ack then pure tt else raise invalid_frame)
  partition ← get_u32
  next_offset ← get_u64
  pure (record { partition = partition; next_offset = next_offset }))

unfoldable pub decode_replicate_ack : Bytes → Result (Option ReplicateAck × Bytes)
decode_replicate_ack = decode_frame decode_replicate_ack_body
