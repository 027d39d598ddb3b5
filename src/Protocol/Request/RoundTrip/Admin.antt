-- ===== src/Protocol/Request/RoundTrip/Admin.antt =====
-- The requests on topics and on leadership.
use sevlamq.Protocol.Opcodes
use sevlamq.Prelude.{List, [], append-nil, append_assoc, arith, lt→==_false, ℕ, ◌++◌, ◌<◌, ◌∷◌, ◌≡◌}
use sevlamq.Protocol.Types.{
  ApplyLeadershipRequest, Bytes, CreateTopicRequest, PartitionLeadership, PartitionStatusRequest,
  PromoteLeaderRequest,
}
use sevlamq.Protocol.Result.{ok}
use sevlamq.Protocol.Externals.{Externals}
use sevlamq.Protocol.Reader.{ensure_empty}
use sevlamq.Protocol.Writer.{be, extend}
use sevlamq.Protocol.Primitives.{
  ensure_remaining-append, ensure_remaining-le, get_uint-be, length-be,
}
use sevlamq.Protocol.Validate.{validate_topic}
use sevlamq.Protocol.Layout.{
  IsString, IsU32, IsU64, concat, decode_string-field, encode_string-extends, frame, length-concat,
  length-string_field, set_frame_len-written, total,
}
use sevlamq.Protocol.Request.Encode.{encode_create_topic, encode_leadership_request}
use sevlamq.Protocol.Request.EncodeGroup.{
  encode_bare, encode_describe_topic, encode_partition_status,
}
use sevlamq.Protocol.Request.Decode.{
  decode_apply_leadership, decode_create_topic, decode_promote_leader,
}
use sevlamq.Protocol.Request.DecodeGroup.{decode_describe_topic, decode_partition_status}
use sevlamq.Protocol.Request.RoundTrip.Strings.{
  encode_string_request-frame, request_fields, set_frame_len-request, string_fields,
}

-- A topic name that `validate_topic` accepts.
abbrev pub IsTopic : Externals → Bytes → Type 0
IsTopic x topic = IsString x topic × (validate_topic topic ≡ ok tt)

module _ (x : Externals) (r : CreateTopicRequest) (h : IsTopic x r.topic)
    (pos : 0 < r.partitions) where
  pub encode_create_topic-frame :
      (buffer : Bytes)
      → encode_create_topic r buffer ≡ (
        ok tt,
        buffer
            ++ frame (
                concat
                  (request_fields Opcodes.create_topic (r.topic ∷ []) (be 4 r.partitions ∷ []))),
      )
  unfolding encode_create_topic extend
  encode_create_topic-frame buffer = rw (
    h.1,
    lt→==_false r.partitions 0 pos,
    encode_string_request-frame Opcodes.create_topic (r.topic ∷ []) buffer (omega arith),
    set_frame_len-request Opcodes.create_topic (r.topic ∷ []) (be 4 r.partitions ∷ []) buffer
        (omega (arith, length-be 4 r.partitions)),
  )

  pub decode_create_topic-body :
      IsU32 r.partitions
      → decode_create_topic x (concat (string_fields (r.topic ∷ []) ++ be 4 r.partitions ∷ []))
        ≡ ok (r, [])
  unfolding decode_create_topic ensure_empty
  decode_create_topic-body hp = rw (
    decode_string-field x r.topic _ h.0,
    ensure_remaining-append 4 (be 4 r.partitions) [] (omega (arith, length-be 4 r.partitions)),
    get_uint-be 4 r.partitions [] hp,
    h.1,
    lt→==_false r.partitions 0 pos,
  )

module _ (x : Externals) (topic : Bytes) (h : IsTopic x topic) where
  pub encode_describe_topic-frame :
      (buffer : Bytes)
      → encode_describe_topic topic buffer
        ≡ (ok tt, buffer ++ frame (concat (request_fields Opcodes.describe_topic (topic ∷ []) [])))
  unfolding encode_describe_topic
  encode_describe_topic-frame buffer =
      rw (h.1, encode_string_request-frame Opcodes.describe_topic (topic ∷ []) buffer (omega arith))

  pub decode_describe_topic-body :
      decode_describe_topic x (concat (string_fields (topic ∷ []))) ≡ ok (topic, [])
  unfolding decode_describe_topic ensure_empty
  decode_describe_topic-body = rw (decode_string-field x topic _ h.0, h.1)

module _ (x : Externals) (r : PartitionStatusRequest) (h : IsTopic x r.topic) where
  pub encode_partition_status-frame :
      (buffer : Bytes)
      → encode_partition_status r.topic r.partition buffer ≡ (
        ok tt,
        buffer
            ++ frame (
                concat
                  (request_fields Opcodes.partition_status (r.topic ∷ []) (be 4 r.partition ∷ []))),
      )
  unfolding encode_partition_status extend
  encode_partition_status-frame buffer = rw (
    h.1,
    encode_string_request-frame Opcodes.partition_status (r.topic ∷ []) buffer (omega arith),
    set_frame_len-request Opcodes.partition_status (r.topic ∷ []) (be 4 r.partition ∷ []) buffer
        (omega (arith, length-be 4 r.partition)),
  )

  pub decode_partition_status-body :
      IsU32 r.partition
      → decode_partition_status x (concat (string_fields (r.topic ∷ []) ++ be 4 r.partition ∷ []))
        ≡ ok (r, [])
  unfolding decode_partition_status ensure_empty
  decode_partition_status-body hp = rw (
    decode_string-field x r.topic _ h.0,
    ensure_remaining-append 4 (be 4 r.partition) [] (omega (arith, length-be 4 r.partition)),
    get_uint-be 4 r.partition [] hp,
  )

module _ (x : Externals) (r : PromoteLeaderRequest) (h : IsTopic x r.topic) where
  abbrev pub promote_rest : List Bytes
  promote_rest = be 4 r.partition ∷ be 4 r.leader_id ∷ []

  pub encode_promote_leader-frame :
      (buffer : Bytes)
      → encode_leadership_request Opcodes.promote_leader r.topic r.partition r.leader_id 0 0 buffer
        ≡ (
          ok tt,
          buffer
              ++ frame (concat (request_fields Opcodes.promote_leader (r.topic ∷ []) promote_rest)),
        )
  unfolding encode_leadership_request extend
  encode_promote_leader-frame buffer = rw (
    h.1,
    encode_string-extends r.topic (buffer ++ be 4 0 ++ be 1 Opcodes.promote_leader) h.0.0,
    set_frame_len-written 0 buffer
        (request_fields Opcodes.promote_leader (r.topic ∷ []) promote_rest)
        (omega (
          arith,
          length-be 1 Opcodes.promote_leader,
          length-string_field r.topic,
          length-be 4 r.partition,
          length-be 4 r.leader_id,
        )),
  )

  pub decode_promote_leader-body :
      IsU32 r.partition
      → IsU32 r.leader_id
      → decode_promote_leader x (concat (string_fields (r.topic ∷ []) ++ promote_rest)) ≡ ok (r, [])
  unfolding decode_promote_leader ensure_empty
  decode_promote_leader-body hp hl = rw (
    decode_string-field x r.topic _ h.0,
    ensure_remaining-le 8 (concat promote_rest) (
        omega
          (arith, length-concat promote_rest, length-be 4 r.partition, length-be 4 r.leader_id)),
    get_uint-be 4 r.partition _ hp,
    get_uint-be 4 r.leader_id _ hl,
  )

module _ (x : Externals) (r : ApplyLeadershipRequest) (h : IsTopic x r.topic) where
  abbrev entry : PartitionLeadership
  entry = r.leadership

  abbrev pub apply_rest : List Bytes
  apply_rest =
      be 4 entry.partition
      ∷ be 4 entry.leader_id
      ∷ be 8 entry.leader_epoch
      ∷ be 8 entry.high_watermark
      ∷ []

  pub total-apply_rest : total apply_rest ≡ 24
  total-apply_rest = omega (
    arith,
    length-be 4 entry.partition,
    length-be 4 entry.leader_id,
    length-be 8 entry.leader_epoch,
    length-be 8 entry.high_watermark,
  )

  pub encode_apply_leadership-frame :
      (buffer : Bytes)
      → encode_leadership_request Opcodes.apply_leadership r.topic entry.partition entry.leader_id
          entry.leader_epoch entry.high_watermark buffer
        ≡ (
          ok tt,
          buffer
              ++ frame (concat (request_fields Opcodes.apply_leadership (r.topic ∷ []) apply_rest)),
        )
  unfolding encode_leadership_request extend
  encode_apply_leadership-frame buffer = rw (
    h.1,
    encode_string-extends r.topic (buffer ++ be 4 0 ++ be 1 Opcodes.apply_leadership) h.0.0,
    set_frame_len-written 0 buffer
        (request_fields Opcodes.apply_leadership (r.topic ∷ []) apply_rest)
        (omega (
          arith,
          length-be 1 Opcodes.apply_leadership,
          length-string_field r.topic,
          total-apply_rest,
        )),
  )

  pub decode_apply_leadership-body :
      IsU32 entry.partition
      → IsU32 entry.leader_id
      → IsU64 entry.leader_epoch
      → IsU64 entry.high_watermark
      → decode_apply_leadership x (concat (string_fields (r.topic ∷ []) ++ apply_rest)) ≡ ok (r, [])
  unfolding decode_apply_leadership ensure_empty
  decode_apply_leadership-body hp hl he hw = rw (
    decode_string-field x r.topic _ h.0,
    ensure_remaining-le 24 (concat apply_rest)
        (omega (arith, length-concat apply_rest, total-apply_rest)),
    get_uint-be 4 entry.partition _ hp,
    get_uint-be 4 entry.leader_id _ hl,
    get_uint-be 8 entry.leader_epoch _ he,
    get_uint-be 8 entry.high_watermark _ hw,
  )

-- A request that is its opcode alone.
pub encode_bare-frame :
    (opcode : ℕ) (buffer : Bytes)
    → encode_bare opcode buffer ≡ (ok tt, buffer ++ frame (concat (request_fields opcode [] [])))
unfolding encode_bare extend frame
encode_bare-frame opcode buffer = rw (append_assoc, append-nil (be 1 opcode), length-be 1 opcode)
