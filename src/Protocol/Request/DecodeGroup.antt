-- ===== src/Protocol/Request/DecodeGroup.antt =====
-- The decoders of the group requests, and the dispatch of `decode_request` on the opcode.
use sevlamq.Prelude.{ℕ, [], ◌==◌, Option, if◌then◌else◌}
use sevlamq.Protocol.Types.{
  Bytes, GroupMemberRequest, GroupGenerationRequest, CommitOffsetRequest,
  FetchCommittedOffsetRequest, GroupFetchRequest, PartitionStatusRequest, Request,
}
use sevlamq.Protocol.Types.Request.{
  produce, produce_batch, fetch, join_group, heartbeat, leave_group, commit_offset,
  fetch_committed_offset, group_fetch, create_topic, list_topics, describe_topic, cluster_metadata,
  promote_leader, apply_leadership, partition_status,
}
use sevlamq.Protocol.Result.{Result, ok, err, unknown_opcode}
use sevlamq.Protocol.Opcodes
use sevlamq.Protocol.Externals.{Externals}
use sevlamq.Protocol.Validate.{validate_topic, new_fetch}
use sevlamq.Protocol.Frame.{decode_frame}
use sevlamq.Protocol.Reader.{
  Reader, ◌>>=◌, ◌>>◌, pure, raise, lift, get_u8, get_u32, get_u64, ensure_remaining, ensure_empty,
  decode_string,
}
use sevlamq.Protocol.Request.Decode.{
  decode_produce, decode_produce_batch, decode_fetch, decode_create_topic, decode_promote_leader,
  decode_apply_leadership,
}

unfoldable pub decode_group_member : Externals → Reader GroupMemberRequest
decode_group_member x = do
  group ← decode_string x.is_utf8
  topic ← decode_string x.is_utf8
  member ← decode_string x.is_utf8
  ensure_empty
  pure (record { group = group; topic = topic; member = member })

unfoldable pub decode_group_generation : Externals → Reader GroupGenerationRequest
decode_group_generation x = do
  group ← decode_string x.is_utf8
  topic ← decode_string x.is_utf8
  member ← decode_string x.is_utf8
  ensure_remaining 8
  generation ← get_u64
  ensure_empty
  pure (record { group = group; topic = topic; member = member; generation = generation })

unfoldable pub decode_commit_offset : Externals → Reader CommitOffsetRequest
decode_commit_offset x = do
  group ← decode_string x.is_utf8
  topic ← decode_string x.is_utf8
  member ← decode_string x.is_utf8
  ensure_remaining 20
  generation ← get_u64
  partition ← get_u32
  offset ← get_u64
  ensure_empty
  pure (record {
    group = group;
    topic = topic;
    member = member;
    generation = generation;
    partition = partition;
    offset = offset;
  })

unfoldable pub decode_fetch_committed : Externals → Reader FetchCommittedOffsetRequest
decode_fetch_committed x = do
  group ← decode_string x.is_utf8
  topic ← decode_string x.is_utf8
  ensure_remaining 4
  partition ← get_u32
  ensure_empty
  pure (record { group = group; topic = topic; partition = partition })

unfoldable pub decode_group_fetch : Externals → Reader GroupFetchRequest
decode_group_fetch x = do
  group ← decode_string x.is_utf8
  topic ← decode_string x.is_utf8
  member ← decode_string x.is_utf8
  ensure_remaining 28
  generation ← get_u64
  partition ← get_u32
  offset ← get_u64
  max_bytes ← get_u32
  max_wait_ms ← get_u32
  ensure_empty
  _ ← lift (new_fetch topic partition offset max_bytes max_wait_ms)
  pure (record {
    group = group;
    topic = topic;
    member = member;
    generation = generation;
    partition = partition;
    offset = offset;
    max_bytes = max_bytes;
    max_wait_ms = max_wait_ms;
  })

unfoldable pub decode_describe_topic : Externals → Reader Bytes
decode_describe_topic x = do
  topic ← decode_string x.is_utf8
  ensure_empty
  lift (validate_topic topic)
  pure topic

unfoldable pub decode_partition_status : Externals → Reader PartitionStatusRequest
decode_partition_status x = do
  topic ← decode_string x.is_utf8
  ensure_remaining 4
  partition ← get_u32
  ensure_empty
  pure (record { topic = topic; partition = partition })

-- `OPCODE if !frame.has_remaining()`
abbrev pub bare : Request → ℕ → Reader Request
bare request opcode [] = ok (request, [])
bare request opcode frame = err (unknown_opcode opcode)

abbrev pub as_request : {A : Type 0} → (A → Request) → Reader A → Reader Request
as_request make decoder = do value ← decoder; pure (make value)

unfoldable pub decode_opcode : Externals → ℕ → Reader Request
decode_opcode x opcode =
    if opcode == Opcodes.produce
    then as_request produce (decode_produce x)
    else if opcode == Opcodes.produce_batch
    then as_request produce_batch (decode_produce_batch x)
    else if opcode == Opcodes.fetch
    then as_request fetch (decode_fetch x)
    else if opcode == Opcodes.join_group
    then as_request join_group (decode_group_member x)
    else if opcode == Opcodes.heartbeat
    then as_request heartbeat (decode_group_generation x)
    else if opcode == Opcodes.leave_group
    then as_request leave_group (decode_group_generation x)
    else if opcode == Opcodes.commit_offset
    then as_request commit_offset (decode_commit_offset x)
    else if opcode == Opcodes.fetch_committed_offset
    then as_request fetch_committed_offset (decode_fetch_committed x)
    else if opcode == Opcodes.group_fetch
    then as_request group_fetch (decode_group_fetch x)
    else if opcode == Opcodes.create_topic
    then as_request create_topic (decode_create_topic x)
    else if opcode == Opcodes.list_topics
    then bare list_topics opcode
    else if opcode == Opcodes.describe_topic
    then as_request describe_topic (decode_describe_topic x)
    else if opcode == Opcodes.cluster_metadata
    then bare cluster_metadata opcode
    else if opcode == Opcodes.promote_leader
    then as_request promote_leader (decode_promote_leader x)
    else if opcode == Opcodes.apply_leadership
    then as_request apply_leadership (decode_apply_leadership x)
    else if opcode == Opcodes.partition_status
    then as_request partition_status (decode_partition_status x)
    else raise (unknown_opcode opcode)

unfoldable pub decode_request_frame : Externals → Reader Request
decode_request_frame x = do opcode ← get_u8; decode_opcode x opcode

unfoldable pub decode_request : Externals → Bytes → Result (Option Request × Bytes)
decode_request x = decode_frame (decode_request_frame x)
