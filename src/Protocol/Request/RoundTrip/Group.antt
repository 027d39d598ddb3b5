-- ===== src/Protocol/Request/RoundTrip/Group.antt =====
-- The requests of the group coordinator: what each encoder writes, and what its decoder reads.
use sevlamq.Prelude.{List, [], arith, ℕ, ◌++◌, ◌<◌, ◌^◌, ◌∷◌, ◌≡◌}
use sevlamq.Protocol.Opcodes
use sevlamq.Protocol.Types.{Bytes, CommitOffsetRequest, GroupGenerationRequest, GroupMemberRequest}
use sevlamq.Protocol.Result.{ok}
use sevlamq.Protocol.Externals.{Externals}
use sevlamq.Protocol.Reader.{ensure_empty}
use sevlamq.Protocol.Writer.{be, extend}
use sevlamq.Protocol.Primitives.{
  ensure_remaining-append, ensure_remaining-le, get_uint-be, length-be,
}
use sevlamq.Protocol.Layout.{
  IsString, IsU32, IsU64, concat, decode_string-field, frame, length-concat, total,
}
use sevlamq.Protocol.Request.EncodeGroup.{
  encode_commit_offset, encode_group_generation, encode_group_member,
}
use sevlamq.Protocol.Request.DecodeGroup.{
  decode_commit_offset, decode_group_generation, decode_group_member,
}
use sevlamq.Protocol.Request.RoundTrip.Strings.{
  IsRequest, encode_string_request-frame, request_fields, set_frame_len-request, string_fields,
}

-- The three names of a group request.
abbrev pub IsMember : Externals → Bytes → Bytes → Bytes → Type 0
IsMember x group topic member = IsString x group × IsString x topic × IsString x member

abbrev pub member : Bytes → Bytes → Bytes → List Bytes
member group topic name = group ∷ topic ∷ name ∷ []

pub member-IsRequest :
    (x : Externals) (group topic name : Bytes) (rest : List Bytes)
    → IsMember x group topic name
    → total rest < 2 ^ 16
    → IsRequest (member group topic name) rest
member-IsRequest x group topic name rest h small = omega arith

module _ (x : Externals) (r : GroupMemberRequest) (h : IsMember x r.group r.topic r.member) where
  pub encode_group_member-frame :
      (opcode : ℕ) (buffer : Bytes)
      → encode_group_member opcode r buffer ≡ (
        ok tt,
        buffer ++ frame (concat (request_fields opcode (member r.group r.topic r.member) [])),
      )
  unfolding encode_group_member
  encode_group_member-frame opcode buffer = rw (
      encode_string_request-frame opcode (member r.group r.topic r.member) buffer
        (member-IsRequest x r.group r.topic r.member [] h (omega arith)))

  pub decode_group_member-body :
      decode_group_member x (concat (string_fields (member r.group r.topic r.member))) ≡ ok (r, [])
  unfolding decode_group_member ensure_empty
  decode_group_member-body = rw (
    decode_string-field x r.group _ h.0,
    decode_string-field x r.topic _ h.1,
    decode_string-field x r.member _ h.2,
  )

module _ (x : Externals) (r : GroupGenerationRequest)
    (h : IsMember x r.group r.topic r.member) where
  abbrev pub generation_rest : List Bytes
  generation_rest = be 8 r.generation ∷ []

  pub encode_group_generation-frame :
      (opcode : ℕ) (buffer : Bytes)
      → encode_group_generation opcode r buffer ≡ (
        ok tt,
        buffer
            ++ frame
                (concat (request_fields opcode (member r.group r.topic r.member) generation_rest)),
      )
  unfolding encode_group_generation extend
  encode_group_generation-frame opcode buffer = rw (
    encode_string_request-frame opcode (member r.group r.topic r.member) buffer
        (member-IsRequest x r.group r.topic r.member [] h (omega arith)),
    set_frame_len-request opcode (member r.group r.topic r.member) generation_rest buffer (
        member-IsRequest x r.group r.topic r.member generation_rest h
          (omega (arith, length-be 8 r.generation))),
  )

  pub decode_group_generation-body :
      IsU64 r.generation
      → decode_group_generation x
          (concat (string_fields (member r.group r.topic r.member) ++ generation_rest))
        ≡ ok (r, [])
  unfolding decode_group_generation ensure_empty
  decode_group_generation-body hn = rw (
    decode_string-field x r.group _ h.0,
    decode_string-field x r.topic _ h.1,
    decode_string-field x r.member _ h.2,
    ensure_remaining-append 8 (be 8 r.generation) [] (omega (arith, length-be 8 r.generation)),
    get_uint-be 8 r.generation [] hn,
  )

module _ (x : Externals) (r : CommitOffsetRequest) (h : IsMember x r.group r.topic r.member) where
  abbrev pub commit_rest : List Bytes
  commit_rest = be 8 r.generation ∷ be 4 r.partition ∷ be 8 r.offset ∷ []

  pub total-commit_rest : total commit_rest ≡ 20
  total-commit_rest =
      omega (arith, length-be 8 r.generation, length-be 4 r.partition, length-be 8 r.offset)

  pub encode_commit_offset-frame :
      (buffer : Bytes)
      → encode_commit_offset r buffer ≡ (
        ok tt,
        buffer
            ++ frame (
                concat (
                  request_fields Opcodes.commit_offset
                    (member r.group r.topic r.member)
                    commit_rest)),
      )
  unfolding encode_commit_offset extend
  encode_commit_offset-frame buffer = rw (
    encode_string_request-frame Opcodes.commit_offset (member r.group r.topic r.member) buffer
        (member-IsRequest x r.group r.topic r.member [] h (omega arith)),
    set_frame_len-request Opcodes.commit_offset (member r.group r.topic r.member) commit_rest buffer
        (member-IsRequest x r.group r.topic r.member commit_rest h
          (omega (arith, total-commit_rest))),
  )

  pub decode_commit_offset-body :
      IsU64 r.generation
      → IsU32 r.partition
      → IsU64 r.offset
      → decode_commit_offset x
          (concat (string_fields (member r.group r.topic r.member) ++ commit_rest))
        ≡ ok (r, [])
  unfolding decode_commit_offset ensure_empty
  decode_commit_offset-body hg hp ho = rw (
    decode_string-field x r.group _ h.0,
    decode_string-field x r.topic _ h.1,
    decode_string-field x r.member _ h.2,
    ensure_remaining-le 20 (concat commit_rest)
        (omega (arith, length-concat commit_rest, total-commit_rest)),
    get_uint-be 8 r.generation _ hg,
    get_uint-be 4 r.partition _ hp,
    get_uint-be 8 r.offset _ ho,
  )
