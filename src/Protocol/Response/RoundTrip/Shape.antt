-- ===== src/Protocol/Response/RoundTrip/Shape.antt =====
-- The opcode and the fields of every response of crates/protocol/src/lib.rs.
use sevlamq.Prelude.{
  true, ◌≡◌, All, List, Option, [], all, length, none, some, ℕ, ◌<◌, ◌^◌, ◌∷◌, ◌≤◌,
}
use sevlamq.Protocol.Opcodes
use sevlamq.Protocol.Types.{Bytes, max_frame_size, max_batch_messages, max_cluster_nodes}
use sevlamq.Protocol.Writer.{be}
use sevlamq.Protocol.Externals.{Externals}
use sevlamq.Protocol.Layout.{IsString, IsU32, IsU64, string_field, total}
use sevlamq.Protocol.Response.{
  Response, cluster_metadata, committed_offset, error, fetch, group_ack, join_group,
  leadership_changed, partition_status, produce_ack, produce_batch_ack, topics,
}
use sevlamq.Protocol.Response.RoundTrip.{IsAck, ack_fields, fields_of, numbers}
use sevlamq.Protocol.Response.RoundTrip.Items.{IsFetched, IsNode, fetched_fields, node_fields}
use sevlamq.Protocol.Response.RoundTrip.Topics.{IsTopic, topic_fields}
use sevlamq.Protocol.Request.Encode.{is_some_code, unwrap_or_default}

-- The opcode of a response.
abbrev pub response_opcode : Response → ℕ
response_opcode (produce_ack ack) = Opcodes.produce_ack
response_opcode (produce_batch_ack acks) = Opcodes.produce_batch_ack
response_opcode (fetch response) = Opcodes.fetch_response
response_opcode (join_group response) = Opcodes.join_group_response
response_opcode group_ack = Opcodes.group_ack
response_opcode (committed_offset offset) = Opcodes.committed_offset_response
response_opcode (topics found) = Opcodes.topics_response
response_opcode (cluster_metadata metadata) = Opcodes.cluster_metadata_response
response_opcode (leadership_changed leadership) = Opcodes.leadership_changed
response_opcode (partition_status next_offset) = Opcodes.partition_status_response
response_opcode (error message) = Opcodes.error_response

-- The fields that follow the opcode.
abbrev pub response_fields : Response → List Bytes
response_fields (produce_ack ack) = ack_fields ack
response_fields (produce_batch_ack acks) = be 4 (length acks) ∷ fields_of ack_fields acks
response_fields (fetch response) =
    be 4 (length response.records) ∷ fields_of fetched_fields response.records
response_fields (join_group response) =
    be 8 response.generation ∷ be 4 (length response.partitions) ∷ numbers 4 response.partitions
response_fields group_ack = []
response_fields (committed_offset offset) =
    be 1 (is_some_code offset) ∷ be 8 (unwrap_or_default offset) ∷ []
response_fields (topics found) = be 4 (length found) ∷ fields_of topic_fields found
response_fields (cluster_metadata metadata) =
    be 4 metadata.responding_broker_id
    ∷ be 4 (length metadata.nodes)
    ∷ fields_of node_fields metadata.nodes
response_fields (leadership_changed l) =
    be 4 l.partition ∷ be 4 l.leader_id ∷ be 8 l.leader_epoch ∷ be 8 l.high_watermark ∷ []
response_fields (partition_status next_offset) = be 8 next_offset ∷ []
response_fields (error message) = string_field message ∷ []

abbrev pub IsOffset : Option ℕ → Type 0
IsOffset none = Unit {0}
IsOffset (some offset) = IsU64 offset

abbrev IsNumbers : ℕ → List ℕ → Type 0
IsNumbers width all = All (λ n. n < 256 ^ width) all × (length all < 2 ^ 32)

-- A response that both sides accept: numbers in the range of their types, UTF-8 strings shorter than
-- 2^16 bytes, 1 to 1000 acknowledgements of a batch, 1 to 1024 nodes, topics with partitions and a
-- leader, an epoch and a high watermark for all of them or none, no more topics than memory can be
-- reserved for.
abbrev pub HasParts : Externals → Response → Type 0
HasParts x (produce_ack ack) = IsAck ack
HasParts x (produce_batch_ack acks) =
    All IsAck acks × (0 < length acks) × (length acks ≤ max_batch_messages)
HasParts x (fetch response) = All IsFetched response.records × (length response.records < 2 ^ 32)
HasParts x (join_group response) = IsU64 response.generation × IsNumbers 4 response.partitions
HasParts x group_ack = Unit {0}
HasParts x (committed_offset offset) = IsOffset offset
HasParts x (topics found) =
    All (IsTopic x) found × (length found < 2 ^ 32) × (x.reserves (length found) ≡ true)
HasParts x (cluster_metadata metadata) =
    IsU32 metadata.responding_broker_id
    × All (IsNode x) metadata.nodes
    × (0 < length metadata.nodes)
    × (length metadata.nodes ≤ max_cluster_nodes)
HasParts x (leadership_changed l) =
    IsU32 l.partition × IsU32 l.leader_id × IsU64 l.leader_epoch × IsU64 l.high_watermark
HasParts x (partition_status next_offset) = IsU64 next_offset
HasParts x (error message) = IsString x message

-- The frame is not longer than a frame may be.
abbrev pub IsResponse : Externals → Response → Type 0
IsResponse x r = HasParts x r × (total (response_fields r) < max_frame_size)

abbrev pub body_fields : Response → List Bytes
body_fields r = be 1 (response_opcode r) ∷ response_fields r
