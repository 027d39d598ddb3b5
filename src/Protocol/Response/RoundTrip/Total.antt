-- ===== src/Protocol/Response/RoundTrip/Total.antt =====
-- The round trip of `encode_response` and `decode_response`, over every kind of response.
use sevlamq.Prelude.{[], arith, length, some, ◌++◌, ◌+◌, ◌<◌, ◌≡◌}
use sevlamq.Protocol.Types.{Bytes}
use sevlamq.Protocol.Result.{ok}
use sevlamq.Protocol.Externals.{Externals}
use sevlamq.Protocol.Layout.{concat, decode_frame-frame, frame, length-concat, total}
use sevlamq.Protocol.Primitives.{get_uint-be, length-be}
use sevlamq.Protocol.Response.{
  Response, cluster_metadata, committed_offset, error, fetch, group_ack, join_group,
  leadership_changed, partition_status, produce_ack, produce_batch_ack, topics,
}
use sevlamq.Protocol.Response.Encode.{encode_response}
use sevlamq.Protocol.Response.Decode.{decode_response, decode_response_frame}
use sevlamq.Protocol.Response.RoundTrip.Shape.{
  IsResponse, body_fields, response_fields, response_opcode,
}
use sevlamq.Protocol.Response.RoundTrip.Encoded.{encode_response-frame}
use sevlamq.Protocol.Response.RoundTrip.Decoded.{decode_response_opcode-fields}

opcode_bound : (r : Response) → response_opcode r < 256
opcode_bound (produce_ack ack) = omega arith
opcode_bound (produce_batch_ack acks) = omega arith
opcode_bound (fetch response) = omega arith
opcode_bound (join_group response) = omega arith
opcode_bound group_ack = omega arith
opcode_bound (committed_offset offset) = omega arith
opcode_bound (topics found) = omega arith
opcode_bound (cluster_metadata metadata) = omega arith
opcode_bound (leadership_changed l) = omega arith
opcode_bound (partition_status next_offset) = omega arith
opcode_bound (error message) = omega arith

-- A response that fits a frame and meets `HasParts` (numbers in the range of their types, UTF-8 strings
-- shorter than 2^16 bytes, 1 to 1000 acknowledgements of a batch, 1 to 1024 nodes, topics with
-- partitions and a leader, an epoch and a high watermark for all of them or none, and no more topics
-- than memory can be reserved for) is written by `encode_response` with no error behind what the
-- buffer had, and `decode_response` reads that very response from those bytes and leaves what
-- follows them.
pub decode_response-encode_response :
    (x : Externals) (r : Response) (buffer rest : Bytes)
    → IsResponse x r
    → (bytes : Bytes) × (encode_response r buffer ≡ (ok tt, buffer ++ bytes))
      × (decode_response x (bytes ++ rest) ≡ ok (some r, rest))
unfolding decode_response decode_response_frame
decode_response-encode_response x r buffer rest h = (
  frame (concat (body_fields r)),
  encode_response-frame x r buffer h,
  decode_frame-frame (decode_response_frame x) (concat (body_fields r)) rest [] r
      (omega (arith, size)) (omega (arith, size, h.1))
      (rw (get_uint-be 1 (response_opcode r) (concat (response_fields r)) (opcode_bound r))
        (decode_response_opcode-fields x r h)),
)
  where
    size : length (concat (body_fields r)) ≡ 1 + total (response_fields r)
    size = omega (arith, length-concat (body_fields r), length-be 1 (response_opcode r))
