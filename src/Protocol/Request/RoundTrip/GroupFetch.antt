-- ===== src/Protocol/Request/RoundTrip/GroupFetch.antt =====
-- Fetches: `FETCH`, `GROUP_FETCH` and `FETCH_COMMITTED_OFFSET`.
use sevlamq.Protocol.Opcodes
use sevlamq.Prelude.{
  List, [], ap, arith, length, le→ltb_false, lt→ltb, true, ℕ, ◌++◌, ◌+◌, ◌^◌, ◌∷◌, ◌≡◌, ◌≤◌,
}
use sevlamq.Protocol.Types.{
  Bytes, FetchCommittedOffsetRequest, FetchRequest, GroupFetchRequest, max_fetch_bytes,
  max_fetch_wait_ms, max_topic_name,
}
use sevlamq.Protocol.Result.{Result, ok}
use sevlamq.Protocol.Externals.{Externals}
use sevlamq.Protocol.Reader.{ensure_empty, from_utf8, validate_size}
use sevlamq.Protocol.Writer.{be, extend, try_from}
use sevlamq.Protocol.Primitives.{
  ensure_remaining-append, ensure_remaining-le, get_uint-be, length-be, read_bytes-append,
  read_len-be_two,
}
use sevlamq.Protocol.Validate.{new_fetch, validate_topic}
use sevlamq.Protocol.Layout.{
  IsString, IsU32, IsU64, concat, decode_string-field, frame, length-concat, total, written-concat,
}
use sevlamq.Protocol.Request.Encode.{encode_fetch}
use sevlamq.Protocol.Request.EncodeGroup.{encode_fetch_committed, encode_group_fetch}
use sevlamq.Protocol.Request.Decode.{decode_fetch}
use sevlamq.Protocol.Request.DecodeGroup.{decode_fetch_committed, decode_group_fetch}
use sevlamq.Protocol.Request.RoundTrip.Strings.{
  encode_string_request-frame, request_fields, set_frame_len-request, string_fields,
}
use sevlamq.Protocol.Request.RoundTrip.Group.{IsMember, member, member-IsRequest}

module _ (x : Externals) (r : FetchCommittedOffsetRequest) (hg : IsString x r.group)
    (ht : IsString x r.topic) where
  abbrev pub names : List Bytes
  names = r.group ∷ r.topic ∷ []

  pub encode_fetch_committed-frame :
      (buffer : Bytes)
      → encode_fetch_committed r buffer ≡ (
        ok tt,
        buffer
            ++ frame (
                concat
                  (request_fields Opcodes.fetch_committed_offset names (be 4 r.partition ∷ []))),
      )
  unfolding encode_fetch_committed extend
  encode_fetch_committed-frame buffer = rw (
    encode_string_request-frame Opcodes.fetch_committed_offset names buffer (omega arith),
    set_frame_len-request Opcodes.fetch_committed_offset names (be 4 r.partition ∷ []) buffer
        (omega (arith, length-be 4 r.partition)),
  )

  pub decode_fetch_committed-body :
      IsU32 r.partition
      → decode_fetch_committed x (concat (string_fields names ++ be 4 r.partition ∷ []))
        ≡ ok (r, [])
  unfolding decode_fetch_committed ensure_empty
  decode_fetch_committed-body hp = rw (
    decode_string-field x r.group _ hg,
    decode_string-field x r.topic _ ht,
    ensure_remaining-append 4 (be 4 r.partition) [] (omega (arith, length-be 4 r.partition)),
    get_uint-be 4 r.partition [] hp,
  )

module _ (x : Externals) (r : GroupFetchRequest) (h : IsMember x r.group r.topic r.member)
    (request : FetchRequest)
    (valid : new_fetch r.topic r.partition r.offset r.max_bytes r.max_wait_ms ≡ ok request) where
  abbrev pub fetch_rest : List Bytes
  fetch_rest =
      be 8 r.generation
      ∷ be 4 r.partition
      ∷ be 8 r.offset
      ∷ be 4 r.max_bytes
      ∷ be 4 r.max_wait_ms
      ∷ []

  pub total-fetch_rest : total fetch_rest ≡ 28
  total-fetch_rest = omega (
    arith,
    length-be 8 r.generation,
    length-be 4 r.partition,
    length-be 8 r.offset,
    length-be 4 r.max_bytes,
    length-be 4 r.max_wait_ms,
  )

  pub encode_group_fetch-frame :
      (buffer : Bytes)
      → encode_group_fetch r buffer ≡ (
        ok tt,
        buffer
            ++ frame (
                concat (
                  request_fields Opcodes.group_fetch (member r.group r.topic r.member) fetch_rest)),
      )
  unfolding encode_group_fetch extend
  encode_group_fetch-frame buffer = rw (
    valid,
    encode_string_request-frame Opcodes.group_fetch (member r.group r.topic r.member) buffer
        (member-IsRequest x r.group r.topic r.member [] h (omega arith)),
    set_frame_len-request Opcodes.group_fetch (member r.group r.topic r.member) fetch_rest buffer (
        member-IsRequest x r.group r.topic r.member fetch_rest h (omega (arith, total-fetch_rest))),
  )

  pub decode_group_fetch-body :
      IsU64 r.generation
      → IsU32 r.partition
      → IsU64 r.offset
      → IsU32 r.max_bytes
      → IsU32 r.max_wait_ms
      → decode_group_fetch x
          (concat (string_fields (member r.group r.topic r.member) ++ fetch_rest))
        ≡ ok (r, [])
  unfolding decode_group_fetch ensure_empty
  decode_group_fetch-body hg hp ho hb hw = rw (
    decode_string-field x r.group _ h.0,
    decode_string-field x r.topic _ h.1,
    decode_string-field x r.member _ h.2,
    ensure_remaining-le 28 (concat fetch_rest)
        (omega (arith, length-concat fetch_rest, total-fetch_rest)),
    get_uint-be 8 r.generation _ hg,
    get_uint-be 4 r.partition _ hp,
    get_uint-be 8 r.offset _ ho,
    get_uint-be 4 r.max_bytes _ hb,
    get_uint-be 4 r.max_wait_ms _ hw,
    valid,
  )

pub new_fetch-bounds :
    (topic : Bytes) (partition offset max_bytes max_wait_ms : ℕ) {r : FetchRequest}
    → new_fetch topic partition offset max_bytes max_wait_ms ≡ ok r
    → (length topic ≤ max_topic_name)
      × (max_bytes ≤ max_fetch_bytes)
      × (max_wait_ms ≤ max_fetch_wait_ms)
unfolding new_fetch validate_topic validate_size
new_fetch-bounds topic partition offset max_bytes max_wait_ms h = ground arith

module _ (x : Externals) (r : FetchRequest)
    (valid : new_fetch r.topic r.partition r.offset r.max_bytes r.max_wait_ms ≡ ok r)
    (u : x.is_utf8 r.topic ≡ true) where
  abbrev pub numbers : List Bytes
  numbers = be 4 r.partition ∷ be 8 r.offset ∷ be 4 r.max_bytes ∷ be 4 r.max_wait_ms ∷ []

  abbrev pub fetch_fields : List Bytes
  fetch_fields = be 1 Opcodes.fetch ∷ be 2 (length r.topic) ∷ r.topic ∷ numbers

  pub total-numbers : total numbers ≡ 20
  total-numbers = omega (
    arith,
    length-be 4 r.partition,
    length-be 8 r.offset,
    length-be 4 r.max_bytes,
    length-be 4 r.max_wait_ms,
  )

  pub topic_bound : length r.topic ≤ 249
  topic_bound = (new_fetch-bounds r.topic r.partition r.offset r.max_bytes r.max_wait_ms valid).0

  fetch_size : length (concat fetch_fields) ≡ 1 + 2 + length r.topic + 4 + 8 + 4 + 4
  fetch_size = omega (
    arith,
    length-concat fetch_fields,
    total-numbers,
    length-be 1 Opcodes.fetch,
    length-be 2 (length r.topic),
  )

  pub encode_fetch-frame :
      (buffer : Bytes) → encode_fetch r buffer ≡ (ok tt, buffer ++ frame (concat fetch_fields))
  unfolding encode_fetch extend try_from frame
  encode_fetch-frame buffer =
      rw
        (
          lt→ltb (1 + 2 + length r.topic + 4 + 8 + 4 + 4) (2 ^ 32) (omega (arith, topic_bound)),
          lt→ltb (length r.topic) (2 ^ 16) (omega (arith, topic_bound)),
          fetch_size,
        )
        (ap {B = Result Unit × Bytes} (λ bytes. (ok tt, bytes))
          (written-concat buffer (be 4 (1 + 2 + length r.topic + 4 + 8 + 4 + 4) ∷ fetch_fields)))

  pub decode_fetch-body :
      IsU32 r.partition
      → IsU64 r.offset
      → IsU32 r.max_bytes
      → IsU32 r.max_wait_ms
      → decode_fetch x (concat (be 2 (length r.topic) ∷ r.topic ∷ numbers)) ≡ ok (r, [])
  unfolding decode_fetch ensure_empty validate_size from_utf8
  decode_fetch-body hp ho hb hw = rw (
    read_len-be_two (length r.topic) _ (omega (arith, topic_bound)),
    le→ltb_false max_topic_name (length r.topic) topic_bound,
    read_bytes-append r.topic _,
    u,
    ensure_remaining-le 20 (concat numbers) (omega (arith, length-concat numbers, total-numbers)),
    get_uint-be 4 r.partition _ hp,
    get_uint-be 8 r.offset _ ho,
    get_uint-be 4 r.max_bytes _ hb,
    get_uint-be 4 r.max_wait_ms _ hw,
    valid,
  )
