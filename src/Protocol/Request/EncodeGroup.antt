-- ===== src/Protocol/Request/EncodeGroup.antt =====
-- `encode_request` of crates/protocol/src/lib.rs and the encoders of the group requests.
use sevlamq.Prelude.{ℕ, [], ◌∷◌}
use sevlamq.Protocol.Types.{
  Bytes, GroupMemberRequest, GroupGenerationRequest, CommitOffsetRequest,
  FetchCommittedOffsetRequest, GroupFetchRequest, Request,
}
use sevlamq.Protocol.Types.Request.{
  produce, produce_batch, fetch, join_group, heartbeat, leave_group, commit_offset,
  fetch_committed_offset, group_fetch, create_topic, list_topics, describe_topic, cluster_metadata,
  promote_leader, apply_leadership, partition_status,
}
use sevlamq.Protocol.Result.{ok}
use sevlamq.Protocol.Opcodes
use sevlamq.Protocol.Validate.{validate_topic, new_fetch}
use sevlamq.Protocol.Externals.{Externals}
use sevlamq.Protocol.Writer.{Writer, ◌>>=◌, ◌>>◌, lift, put_u8, put_u32, put_u64, set_frame_len}
use sevlamq.Protocol.Request.Encode.{
  encode_create_topic, encode_fetch, encode_leadership_request, encode_produce,
  encode_produce_batch, encode_string_request,
}

unfoldable pub encode_group_member : ℕ → GroupMemberRequest → Writer Unit
encode_group_member opcode request = do
  _ ← encode_string_request opcode (request.group ∷ request.topic ∷ request.member ∷ [])
  lift (ok tt)

unfoldable pub encode_group_generation : ℕ → GroupGenerationRequest → Writer Unit
encode_group_generation opcode request = do
  start ← encode_string_request opcode (request.group ∷ request.topic ∷ request.member ∷ [])
  put_u64 request.generation
  set_frame_len start

unfoldable pub encode_commit_offset : CommitOffsetRequest → Writer Unit
encode_commit_offset request = do
  start ←
      encode_string_request Opcodes.commit_offset
        (request.group ∷ request.topic ∷ request.member ∷ [])
  put_u64 request.generation
  put_u32 request.partition
  put_u64 request.offset
  set_frame_len start

unfoldable pub encode_fetch_committed : FetchCommittedOffsetRequest → Writer Unit
encode_fetch_committed request = do
  start ← encode_string_request Opcodes.fetch_committed_offset (request.group ∷ request.topic ∷ [])
  put_u32 request.partition
  set_frame_len start

unfoldable pub encode_group_fetch : GroupFetchRequest → Writer Unit
encode_group_fetch request = do
  _ ← lift (
      new_fetch request.topic request.partition request.offset request.max_bytes
        request.max_wait_ms)
  start ←
      encode_string_request Opcodes.group_fetch
        (request.group ∷ request.topic ∷ request.member ∷ [])
  put_u64 request.generation
  put_u32 request.partition
  put_u64 request.offset
  put_u32 request.max_bytes
  put_u32 request.max_wait_ms
  set_frame_len start

-- A request that is its opcode alone.
unfoldable pub encode_bare : ℕ → Writer Unit
encode_bare opcode = do put_u32 1; put_u8 opcode

unfoldable pub encode_describe_topic : Bytes → Writer Unit
encode_describe_topic topic = do
  lift (validate_topic topic)
  _ ← encode_string_request Opcodes.describe_topic (topic ∷ [])
  lift (ok tt)

unfoldable pub encode_partition_status : Bytes → ℕ → Writer Unit
encode_partition_status topic partition = do
  lift (validate_topic topic)
  start ← encode_string_request Opcodes.partition_status (topic ∷ [])
  put_u32 partition
  set_frame_len start

unfoldable pub encode_request : Externals → Request → Writer Unit
encode_request x (produce request) = encode_produce request
encode_request x (produce_batch request) = encode_produce_batch x request
encode_request x (fetch request) = encode_fetch request
encode_request x (join_group request) = encode_group_member Opcodes.join_group request
encode_request x (heartbeat request) = encode_group_generation Opcodes.heartbeat request
encode_request x (leave_group request) = encode_group_generation Opcodes.leave_group request
encode_request x (commit_offset request) = encode_commit_offset request
encode_request x (fetch_committed_offset request) = encode_fetch_committed request
encode_request x (group_fetch request) = encode_group_fetch request
encode_request x (create_topic request) = encode_create_topic request
encode_request x list_topics = encode_bare Opcodes.list_topics
encode_request x (describe_topic topic) = encode_describe_topic topic
encode_request x cluster_metadata = encode_bare Opcodes.cluster_metadata
encode_request x (promote_leader request) =
    encode_leadership_request Opcodes.promote_leader request.topic request.partition
      request.leader_id 0 0
encode_request x (apply_leadership request) =
    encode_leadership_request Opcodes.apply_leadership request.topic request.leadership.partition
      request.leadership.leader_id request.leadership.leader_epoch request.leadership.high_watermark
encode_request x (partition_status request) =
    encode_partition_status request.topic request.partition
