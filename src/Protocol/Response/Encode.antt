-- ===== src/Protocol/Response/Encode.antt =====
-- `encode_response` of crates/protocol/src/lib.rs, and the encoders that it calls.
use sevlamq.Prelude.{
  List, Option, [], if◌then◌else◌, length, ltb, none, not, some, take, ℕ, ◌&&◌, ◌*◌, ◌+◌, ◌-◌, ◌==◌,
  ◌^◌, ◌||◌, ◌∷◌,
}
use sevlamq.Protocol.Opcodes
use sevlamq.Protocol.Types.{
  Bytes, ProduceAck, FetchedRecord, TopicMetadata, ClusterMetadata, ClusterNode,
  PartitionLeadership, frame_header_size, max_frame_size, max_cluster_nodes,
}
use sevlamq.Protocol.Result.{
  Result, err, frame_too_large, invalid_batch_count, invalid_cluster_metadata,
  invalid_partition_count, key_too_large, message_too_large, ok,
}
use sevlamq.Protocol.Writer.{
  Writer, ◌>>=◌, ◌>>◌, lift, position, extend, put_u8, put_u16, put_u32, put_u64, try_from,
  set_frame_len, encode_string,
}
use sevlamq.Protocol.Request.Encode.{is_some_code, unwrap_or_default}
use sevlamq.Protocol.Response.{
  FetchResponse, JoinGroupResponse, Response, cluster_metadata, committed_offset, error, fetch,
  group_ack, join_group, leadership_changed, partition_status, produce_ack, produce_batch_ack,
  topics,
}

unfoldable pub put_all : {A : Type 0} → (A → Writer Unit) → List A → Writer Unit
put_all put [] = lift (ok tt)
put_all put (a ∷ rest) = do put a; put_all put rest

abbrev pub put_ack : ProduceAck → Writer Unit
put_ack ack = do put_u32 ack.partition; put_u64 ack.offset

unfoldable pub encode_produce_ack : ProduceAck → Writer Unit
encode_produce_ack ack = do
  put_u32 (1 + 4 + 8)
  put_u8 Opcodes.produce_ack
  put_u32 ack.partition
  put_u64 ack.offset

unfoldable pub encode_produce_batch_ack : List ProduceAck → Writer Unit
encode_produce_batch_ack acks = do
  start ← position
  put_u32 0
  put_u8 Opcodes.produce_batch_ack
  count ← lift (try_from 32 (length acks) invalid_batch_count)
  put_u32 count
  put_all put_ack acks
  set_frame_len start

-- The length of a key as an `i32`, or -1.
abbrev pub put_key_len : Option Bytes → Writer Unit
put_key_len none = put_u32 (2 ^ 32 - 1)
put_key_len (some key) = do key_len ← lift (try_from 31 (length key) key_too_large); put_u32 key_len

abbrev pub extend_key : Option Bytes → Writer Unit
extend_key none = lift (ok tt)
extend_key (some key) = extend key

unfoldable pub put_fetched : FetchedRecord → Writer Unit
put_fetched fetched = do
  put_u64 fetched.offset
  put_u64 fetched.timestamp_ms
  put_key_len fetched.key
  value_len ← lift (try_from 32 (length fetched.value) message_too_large)
  put_u32 value_len
  extend_key fetched.key
  extend fetched.value

-- Unlike the other encoders this one takes back what it wrote where the frame is too long.
unfoldable pub finish_or_truncate : ℕ → Writer Unit
finish_or_truncate start buffer =
    if ltb max_frame_size (length buffer - start - frame_header_size)
    then (err frame_too_large, take start buffer)
    else set_frame_len start buffer

unfoldable pub encode_fetch_response : FetchResponse → Writer Unit
encode_fetch_response response = do
  start ← position
  put_u32 0
  put_u8 Opcodes.fetch_response
  count ← lift (try_from 32 (length response.records) frame_too_large)
  put_u32 count
  put_all put_fetched response.records
  finish_or_truncate start

-- The length of the frame is a `u32`, which wraps around.
unfoldable pub encode_join_group : JoinGroupResponse → Writer Unit
encode_join_group response = do
  count ← lift (try_from 32 (length response.partitions) frame_too_large)
  put_u32 (1 + 8 + 4 + count * 4)
  put_u8 Opcodes.join_group_response
  put_u64 response.generation
  put_u32 count
  put_all put_u32 response.partitions

unfoldable pub encode_committed_offset : Option ℕ → Writer Unit
encode_committed_offset offset = do
  put_u32 (1 + 1 + 8)
  put_u8 Opcodes.committed_offset_response
  put_u8 (is_some_code offset)
  put_u64 (unwrap_or_default offset)

-- Each partition has a leader, an epoch and a high watermark, or none has.
unfoldable pub check_topic : TopicMetadata → Result (Unit {0})
check_topic topic =
    if (topic.partitions == 0)
      || ((not (length topic.leaders == 0) && not (length topic.leaders == topic.partitions))
          || (not (length topic.leader_epochs == length topic.leaders)
              || not (length topic.high_watermarks == length topic.leaders)))
    then err invalid_partition_count
    else ok tt

unfoldable pub put_topic : TopicMetadata → Writer Unit
put_topic topic = do
  lift (check_topic topic)
  encode_string topic.topic
  put_u32 topic.partitions
  count ← lift (try_from 32 (length topic.leaders) frame_too_large)
  put_u32 count
  put_all put_u32 topic.leaders
  put_all put_u64 topic.leader_epochs
  put_all put_u64 topic.high_watermarks

unfoldable pub encode_topics_response : List TopicMetadata → Writer Unit
encode_topics_response found = do
  start ← position
  put_u32 0
  put_u8 Opcodes.topics_response
  count ← lift (try_from 32 (length found) frame_too_large)
  put_u32 count
  put_all put_topic found
  set_frame_len start

unfoldable pub put_node : ClusterNode → Writer Unit
put_node node = do
  put_u32 node.id
  encode_string node.host
  put_u16 node.port
  put_u16 node.admin_port
  put_u16 node.replication_port

unfoldable pub encode_cluster_metadata : ClusterMetadata → Writer Unit
encode_cluster_metadata metadata = do
  lift (
      if (length metadata.nodes == 0) || ltb max_cluster_nodes (length metadata.nodes)
      then err invalid_cluster_metadata
      else ok tt)
  start ← position
  put_u32 0
  put_u8 Opcodes.cluster_metadata_response
  put_u32 metadata.responding_broker_id
  count ← lift (try_from 32 (length metadata.nodes) frame_too_large)
  put_u32 count
  put_all put_node metadata.nodes
  set_frame_len start

unfoldable pub encode_leadership_changed : PartitionLeadership → Writer Unit
encode_leadership_changed leadership = do
  put_u32 (1 + 4 + 4 + 8 + 8)
  put_u8 Opcodes.leadership_changed
  put_u32 leadership.partition
  put_u32 leadership.leader_id
  put_u64 leadership.leader_epoch
  put_u64 leadership.high_watermark

unfoldable pub encode_string_response : ℕ → Bytes → Writer Unit
encode_string_response opcode value = do
  start ← position
  put_u32 0
  put_u8 opcode
  encode_string value
  set_frame_len start

unfoldable pub encode_response : Response → Writer Unit
encode_response (produce_ack ack) = encode_produce_ack ack
encode_response (produce_batch_ack acks) = encode_produce_batch_ack acks
encode_response (fetch response) = encode_fetch_response response
encode_response (join_group response) = encode_join_group response
encode_response group_ack = do put_u32 1; put_u8 Opcodes.group_ack
encode_response (committed_offset offset) = encode_committed_offset offset
encode_response (topics found) = encode_topics_response found
encode_response (cluster_metadata metadata) = encode_cluster_metadata metadata
encode_response (leadership_changed leadership) = encode_leadership_changed leadership
encode_response (partition_status next_offset) = do
  put_u32 (1 + 8)
  put_u8 Opcodes.partition_status_response
  put_u64 next_offset
encode_response (error message) = encode_string_response Opcodes.error_response message
