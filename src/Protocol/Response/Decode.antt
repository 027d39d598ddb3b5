-- ===== src/Protocol/Response/Decode.antt =====
-- `decode_response` of crates/protocol/src/lib.rs, and the decoders that it calls.
use sevlamq.Prelude.{
  true, false, Bool, List, Option, [], if◌then◌else◌, length, ltb, none, not, some, suc, zero, ℕ,
  ◌&&◌, ◌*◌, ◌-◌, ◌==◌, ◌^◌, ◌||◌, ◌∷◌,
}
use sevlamq.Protocol.Opcodes
use sevlamq.Protocol.Types.{
  Bytes, ProduceAck, FetchedRecord, TopicMetadata, ClusterMetadata, ClusterNode, max_batch_messages,
  max_cluster_nodes,
}
use sevlamq.Protocol.Result.{
  ok, panic, ProtocolError, Result, err, invalid_batch_count, invalid_cluster_metadata,
  invalid_frame, invalid_partition_count, unknown_opcode,
}
use sevlamq.Protocol.Externals.{Externals}
use sevlamq.Protocol.Frame.{decode_frame}
use sevlamq.Protocol.Reader.{
  Reader, ◌>>=◌, ◌>>◌, pure, raise, get_u8, get_u16, get_u32, get_u64, ensure_remaining,
  ensure_empty, read_u32_len, read_bytes, decode_string,
}
use sevlamq.Protocol.Request.Decode.{repeat}
use sevlamq.Protocol.Response.{
  FetchResponse, JoinGroupResponse, Response, cluster_metadata, committed_offset, error, fetch,
  group_ack, join_group, leadership_changed, partition_status, produce_ack, produce_batch_ack,
  topics,
}

-- A guard on all that is left of the frame.
abbrev pub if_remaining : {A : Type 0} → ℕ → ProtocolError → Reader A → Reader A
if_remaining n e m buffer = if length buffer == n then m buffer else err e

unfoldable pub decode_acks : ℕ → Reader (List ProduceAck)
decode_acks zero = pure []
decode_acks (suc count) = do
  partition ← get_u32
  offset ← get_u64
  rest ← decode_acks count
  pure (record { partition = partition; offset = offset } ∷ rest)

unfoldable pub decode_produce_ack : Reader Response
decode_produce_ack = if_remaining 12 invalid_frame (do
  partition ← get_u32
  offset ← get_u64
  pure (produce_ack (record { partition = partition; offset = offset })))

unfoldable pub decode_produce_batch_ack : Reader Response
decode_produce_batch_ack = do
  ensure_remaining 4
  count ← get_u32
  (if count == 0 || ltb max_batch_messages count then raise invalid_batch_count else pure tt)
  ensure_remaining (count * 12)
  acks ← decode_acks count
  ensure_empty
  pure (produce_batch_ack acks)

-- The length of a key as an `i32`: -1, a length, or an error.
unfoldable pub decode_fetched_key : ℕ → Reader (Option Bytes)
decode_fetched_key key_len =
    if key_len == 2 ^ 32 - 1
    then pure none
    else if ltb key_len (2 ^ 31)
    then (do key ← read_bytes key_len; pure (some key))
    else raise invalid_frame

unfoldable pub decode_fetched : Reader FetchedRecord
decode_fetched = do
  ensure_remaining 24
  offset ← get_u64
  timestamp_ms ← get_u64
  key_len ← get_u32
  value_len ← get_u32
  key ← decode_fetched_key key_len
  value ← read_bytes value_len
  pure (record { offset = offset; timestamp_ms = timestamp_ms; key = key; value = value })

unfoldable pub decode_fetch_response : Reader FetchResponse
decode_fetch_response = do
  ensure_remaining 4
  count ← get_u32
  records ← repeat count decode_fetched
  ensure_empty
  pure (record { records = records })

unfoldable pub decode_numbers : Reader ℕ → ℕ → Reader (List ℕ)
decode_numbers item zero = pure []
decode_numbers item (suc count) = do n ← item; rest ← decode_numbers item count; pure (n ∷ rest)

unfoldable pub decode_join_group : Reader JoinGroupResponse
decode_join_group = do
  ensure_remaining 12
  generation ← get_u64
  count ← get_u32
  ensure_remaining (count * 4)
  partitions ← decode_numbers get_u32 count
  ensure_empty
  pure (record { generation = generation; partitions = partitions })

abbrev pub then_some : ℕ → ℕ → Option ℕ
then_some found offset = if found == 1 then some offset else none

unfoldable pub decode_committed_offset : Reader Response
decode_committed_offset = do
  ensure_remaining 9
  found ← get_u8
  offset ← get_u64
  ensure_empty
  (if ltb 1 found then raise invalid_frame else pure tt)
  pure (committed_offset (then_some found offset))

unfoldable pub decode_topic : Externals → Reader TopicMetadata
decode_topic x = do
  topic ← decode_string x.is_utf8
  ensure_remaining 8
  partitions ← get_u32
  count ← read_u32_len
  (if (partitions == 0) || (not (count == 0) && not (count == partitions))
      then raise invalid_partition_count
      else pure tt)
  ensure_remaining (count * 4)
  leaders ← decode_numbers get_u32 count
  ensure_remaining (count * 8)
  leader_epochs ← decode_numbers get_u64 count
  ensure_remaining (count * 8)
  high_watermarks ← decode_numbers get_u64 count
  pure (record {
    topic = topic;
    partitions = partitions;
    leaders = leaders;
    leader_epochs = leader_epochs;
    high_watermarks = high_watermarks;
  })

-- `Vec::with_capacity`, which ends the program where no memory is found. The other decoders bound the
-- capacity by a constant, or by the bytes that are left.
abbrev pub with_capacity : Bool → Reader Unit
with_capacity true buffer = ok (tt, buffer)
with_capacity false buffer = panic

unfoldable pub decode_topics_response : Externals → Reader (List TopicMetadata)
decode_topics_response x = do
  ensure_remaining 4
  count ← read_u32_len
  with_capacity (x.reserves count)
  found ← repeat count (decode_topic x)
  ensure_empty
  pure found

unfoldable pub decode_node : Externals → Reader ClusterNode
decode_node x = do
  ensure_remaining 4
  id ← get_u32
  host ← decode_string x.is_utf8
  ensure_remaining 6
  port ← get_u16
  admin_port ← get_u16
  replication_port ← get_u16
  pure (record {
    id = id;
    host = host;
    port = port;
    admin_port = admin_port;
    replication_port = replication_port;
  })

unfoldable pub decode_cluster_metadata : Externals → Reader ClusterMetadata
decode_cluster_metadata x = do
  ensure_remaining 8
  responding_broker_id ← get_u32
  count ← read_u32_len
  (if count == 0 || ltb max_cluster_nodes count then raise invalid_cluster_metadata else pure tt)
  nodes ← repeat count (decode_node x)
  ensure_empty
  pure (record { responding_broker_id = responding_broker_id; nodes = nodes })

unfoldable pub decode_leadership_changed : ℕ → Reader Response
decode_leadership_changed opcode = if_remaining 24 (unknown_opcode opcode) (do
  partition ← get_u32
  leader_id ← get_u32
  leader_epoch ← get_u64
  high_watermark ← get_u64
  pure (
      leadership_changed (record {
        partition = partition;
        leader_id = leader_id;
        leader_epoch = leader_epoch;
        high_watermark = high_watermark;
      })))

unfoldable pub decode_partition_status_response : ℕ → Reader Response
decode_partition_status_response opcode =
    if_remaining 8 (unknown_opcode opcode)
      (do next_offset ← get_u64; pure (partition_status next_offset))

unfoldable pub decode_error : Externals → Reader Response
decode_error x = do message ← decode_string x.is_utf8; ensure_empty; pure (error message)

abbrev pub as_response : {A : Type 0} → (A → Response) → Reader A → Reader Response
as_response make decoder = do value ← decoder; pure (make value)

unfoldable pub decode_response_opcode : Externals → ℕ → Reader Response
decode_response_opcode x opcode =
    if opcode == Opcodes.produce_ack
    then decode_produce_ack
    else if opcode == Opcodes.produce_batch_ack
    then decode_produce_batch_ack
    else if opcode == Opcodes.fetch_response
    then as_response fetch decode_fetch_response
    else if opcode == Opcodes.join_group_response
    then as_response join_group decode_join_group
    else if opcode == Opcodes.group_ack
    then if_remaining 0 (unknown_opcode opcode) (pure group_ack)
    else if opcode == Opcodes.committed_offset_response
    then decode_committed_offset
    else if opcode == Opcodes.topics_response
    then as_response topics (decode_topics_response x)
    else if opcode == Opcodes.cluster_metadata_response
    then as_response cluster_metadata (decode_cluster_metadata x)
    else if opcode == Opcodes.leadership_changed
    then decode_leadership_changed opcode
    else if opcode == Opcodes.partition_status_response
    then decode_partition_status_response opcode
    else if opcode == Opcodes.error_response
    then decode_error x
    else raise (unknown_opcode opcode)

unfoldable pub decode_response_frame : Externals → Reader Response
decode_response_frame x = do opcode ← get_u8; decode_response_opcode x opcode

unfoldable pub decode_response : Externals → Bytes → Result (Option Response × Bytes)
decode_response x = decode_frame (decode_response_frame x)
