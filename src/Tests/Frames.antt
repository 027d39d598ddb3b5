-- ===== src/Tests/Frames.antt =====
-- The responses and the replication frames of crates/protocol/src/lib.rs at concrete inputs.
use sevlamq.Prelude.{
  ltb, subst, [], arith, is_identifier_byte, none, refl, some, starts_with_underscores, true, ◌++◌,
  ◌∷◌, ◌≡◌, ◌≢◌,
}
use sevlamq.Protocol.Response.Decode.{decode_response}
use sevlamq.Protocol.Response.NoPanic.{HasRoom, decode_response_total}
use sevlamq.Protocol.Replication.Encode.{encode_replicate_record}
use sevlamq.Protocol.Replication.Decode.{decode_replicate_ack, decode_replicate_record}
use sevlamq.Protocol.Replication.Safety.{decode_replicate_total}
use sevlamq.Protocol.Replication.RoundTrip.{
  IsReplicated, decode_replicate_record-encode_replicate_record,
}
use sevlamq.Protocol.Response.{Response, fetch}
use sevlamq.Protocol.Response.Encode.{encode_response}
use sevlamq.Protocol.Response.RoundTrip.Total.{decode_response-encode_response}
use sevlamq.Protocol.Opcodes
use sevlamq.Protocol.Frame.{take_frame, take_frame_of_len}
use sevlamq.Protocol.Reader.{get_be}
use sevlamq.Tests.Codec.{stored}
use sevlamq.Protocol.Types.{Bytes, ReplicateRecord}
use sevlamq.Protocol.Writer.{be}
use sevlamq.Protocol.Result.{ok, panic}
use sevlamq.Protocol.Validate.{validate_topic}
use sevlamq.Protocol.Reader.{validate_size}

-- A topics response that is cut off behind the number of topics.
abbrev short_topics : Bytes
short_topics = 0 ∷ 0 ∷ 0 ∷ 5 ∷ Opcodes.topics_response ∷ 0 ∷ 0 ∷ 1 ∷ 0 ∷ []

short_topics-HasRoom :
    (body rest : Bytes) → take_frame short_topics ≡ ok (some body, rest) → HasRoom stored body
unfolding take_frame take_frame_of_len get_be
short_topics-HasRoom body rest taken count fields left named read =
    subst (λ n. ltb n 4096 ≡ true) (named_count taken named read) refl
  where
    named_count :
        take_frame short_topics ≡ ok (some body, rest)
        → body ≡ Opcodes.topics_response ∷ fields
        → get_be 4 fields ≡ some (count, left)
        → 256 ≡ count
    named_count taken named read = cc

decode_response_total_example : decode_response stored short_topics ≢ panic
decode_response_total_example = decode_response_total stored short_topics short_topics-HasRoom

decode_replicate_total_example :
    (decode_replicate_record stored (0 ∷ 0 ∷ 0 ∷ 1 ∷ 9 ∷ []) ≢ panic)
    × (decode_replicate_ack (0 ∷ 0 ∷ 0 ∷ 1 ∷ 9 ∷ []) ≢ panic)
decode_replicate_total_example = decode_replicate_total stored (0 ∷ 0 ∷ 0 ∷ 1 ∷ 9 ∷ [])

abbrev replicated : ReplicateRecord
replicated = record {
  topic = b't' ∷ [];
  partition = 2;
  offset = 9;
  timestamp_ms = 5;
  key = some (b'k' ∷ []);
  value = b'v' ∷ [];
  durable = true;
  leader_id = 1;
  leader_epoch = 4;
}

replicated-IsReplicated : IsReplicated stored replicated
unfolding validate_topic is_identifier_byte validate_size starts_with_underscores
replicated-IsReplicated = record {
  topic = refl;
  utf8 = refl;
  partition = omega arith;
  offset = omega arith;
  timestamp = omega arith;
  leader = omega arith;
  epoch = omega arith;
  key = omega arith;
  key_fits = omega arith;
  value_fits = omega arith;
}

decode_replicate_record-encode_replicate_record_example :
    (bytes : Bytes) × (encode_replicate_record replicated (7 ∷ []) ≡ (ok tt, (7 ∷ []) ++ bytes))
    × (decode_replicate_record stored (bytes ++ (9 ∷ [])) ≡ ok (some replicated, 9 ∷ []))
decode_replicate_record-encode_replicate_record_example =
    decode_replicate_record-encode_replicate_record stored replicated (7 ∷ []) (9 ∷ [])
      replicated-IsReplicated

-- A record with a key and one without.
abbrev fetched : Response
fetched = fetch (record {
  records =
      record { offset = 3; timestamp_ms = 5; key = some (b'k' ∷ []); value = b'v' ∷ [] }
      ∷ record { offset = 4; timestamp_ms = 6; key = none; value = [] }
      ∷ [];
})

decode_response-encode_response_example :
    (bytes : Bytes) × (encode_response fetched (7 ∷ []) ≡ (ok tt, (7 ∷ []) ++ bytes))
    × (decode_response stored (bytes ++ (9 ∷ [])) ≡ ok (some fetched, 9 ∷ []))
unfolding be
decode_response-encode_response_example =
    decode_response-encode_response stored fetched (7 ∷ []) (9 ∷ []) (
      (
        (
          (omega arith, omega arith, omega arith, omega arith),
          ((omega arith, omega arith, tt, omega arith), tt),
        ),
        omega arith,
      ),
      omega arith,
    )
