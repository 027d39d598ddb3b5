-- ===== src/Protocol/Request/RoundTrip/Total.antt =====
-- The round trip of `encode_request` and `decode_request`, over every kind of request.
use sevlamq.Protocol.Opcodes
use sevlamq.Prelude.{List, [], arith, length, refl, some, true, ℕ, ◌++◌, ◌+◌, ◌<◌, ◌^◌, ◌∷◌, ◌≡◌}
use sevlamq.Protocol.Types.{
  Bytes, FetchRequest, ProduceBatchRequest, Request, apply_leadership, cluster_metadata,
  commit_offset, create_topic, describe_topic, fetch, fetch_committed_offset, group_fetch,
  heartbeat, join_group, leave_group, list_topics, max_frame_size, partition_status, produce,
  produce_batch, promote_leader,
}
use sevlamq.Protocol.Result.{ok}
use sevlamq.Protocol.Externals.{Externals, IsLossless}
use sevlamq.Protocol.Writer.{be}
use sevlamq.Protocol.Primitives.{get_uint-be, length-be}
use sevlamq.Protocol.Validate.{new_fetch}
use sevlamq.Protocol.Layout.{
  IsString, IsU32, IsU64, concat, decode_frame-frame, frame, length-concat, length-string_field,
  total,
}
use sevlamq.Protocol.Request.Encode.{compress_records}
use sevlamq.Protocol.Request.EncodeGroup.{encode_request}
use sevlamq.Protocol.Request.DecodeGroup.{decode_opcode, decode_request, decode_request_frame}
use sevlamq.Protocol.Request.RoundTrip.Strings.{string_fields}
use sevlamq.Protocol.Request.RoundTrip.Group.{
  IsMember, commit_rest, decode_commit_offset-body, decode_group_generation-body,
  decode_group_member-body, encode_commit_offset-frame, encode_group_generation-frame,
  encode_group_member-frame, generation_rest, member, total-commit_rest,
}
use sevlamq.Protocol.Request.RoundTrip.GroupFetch.{
  decode_fetch-body, decode_fetch_committed-body, decode_group_fetch-body, encode_fetch-frame,
  encode_fetch_committed-frame, encode_group_fetch-frame, fetch_rest, new_fetch-bounds, numbers,
  topic_bound, total-fetch_rest, total-numbers,
}
use sevlamq.Protocol.Request.RoundTrip.Admin.{
  IsTopic, apply_rest, decode_apply_leadership-body, decode_create_topic-body,
  decode_describe_topic-body, decode_partition_status-body, decode_promote_leader-body,
  encode_apply_leadership-frame, encode_bare-frame, encode_create_topic-frame,
  encode_describe_topic-frame, encode_partition_status-frame, encode_promote_leader-frame,
  promote_rest, total-apply_rest,
}
use sevlamq.Protocol.Request.RoundTrip.Produce.{
  IsPartition, IsProduce, produce_bounds, IsProducer, body_fields, decode_produce-body,
  encode_produce-frame, produce_fields, produce_size, producer_bound,
}
use sevlamq.Protocol.Request.RoundTrip.Batch.{IsBatch, batch_bounds, batch_bytes}
use sevlamq.Protocol.Request.RoundTrip.BatchFrame.{
  batch_body, decode_produce_batch-body, encode_produce_batch-frame, packed_bound,
  total-batch_fields,
}

abbrev HasPacked : Externals → ProduceBatchRequest → Type 0
HasPacked x r =
    (packed : Bytes) × (compress_records x r.compression (batch_bytes r.records) ≡ ok packed)

-- A request within the limits of the protocol: numbers in the range of their types, strings that are
-- UTF-8 and shorter than 2^16 bytes, topics and sizes that the validators accept, a number of
-- partitions above 0 where a topic is created, and a batch that compresses.
abbrev pub IsWire : Externals → Request → Type 0
IsWire x (produce r) =
    IsProduce r × (x.is_utf8 r.topic ≡ true) × IsProducer x r.producer × IsPartition r.partition
IsWire x (produce_batch r) =
    IsBatch r × (x.is_utf8 r.topic ≡ true) × IsPartition r.partition × HasPacked x r
IsWire x (fetch r) =
    (new_fetch r.topic r.partition r.offset r.max_bytes r.max_wait_ms ≡ ok r)
    × (x.is_utf8 r.topic ≡ true)
    × IsU32 r.partition
    × IsU64 r.offset
IsWire x (join_group r) = IsMember x r.group r.topic r.member
IsWire x (heartbeat r) = IsMember x r.group r.topic r.member × IsU64 r.generation
IsWire x (leave_group r) = IsMember x r.group r.topic r.member × IsU64 r.generation
IsWire x (commit_offset r) =
    IsMember x r.group r.topic r.member × IsU64 r.generation × IsU32 r.partition × IsU64 r.offset
IsWire x (fetch_committed_offset r) = IsString x r.group × IsString x r.topic × IsU32 r.partition
IsWire x (group_fetch r) =
    IsMember x r.group r.topic r.member
    × IsU64 r.generation
    × IsU32 r.partition
    × IsU64 r.offset
    × ((f : FetchRequest) × (new_fetch r.topic r.partition r.offset r.max_bytes r.max_wait_ms
          ≡ ok f))
IsWire x (create_topic r) = IsTopic x r.topic × (0 < r.partitions) × IsU32 r.partitions
IsWire x list_topics = Unit
IsWire x (describe_topic topic) = IsTopic x topic
IsWire x cluster_metadata = Unit
IsWire x (promote_leader r) = IsTopic x r.topic × IsU32 r.partition × IsU32 r.leader_id
IsWire x (apply_leadership r) =
    IsTopic x r.topic
    × IsU32 r.leadership.partition
    × IsU32 r.leadership.leader_id
    × IsU64 r.leadership.leader_epoch
    × IsU64 r.leadership.high_watermark
IsWire x (partition_status r) = IsTopic x r.topic × IsU32 r.partition

-- The encoder appends some bytes, from which the decoder reads the request back.
abbrev pub RoundTrips : Externals → Request → Bytes → Bytes → Type 0
RoundTrips x r buffer rest =
    (bytes : Bytes) × (encode_request x r buffer ≡ (ok tt, buffer ++ bytes))
    × (decode_request x (bytes ++ rest) ≡ ok (some r, rest))

module _ (x : Externals) (r : Request) (buffer rest : Bytes) (opcode : ℕ) (fields : List Bytes)
    (small : opcode < 256) (size : total fields < max_frame_size) where
  decode_request-frame :
      decode_opcode x opcode (concat fields) ≡ ok (r, [])
      → decode_request x (frame (concat (be 1 opcode ∷ fields)) ++ rest) ≡ ok (some r, rest)
  unfolding decode_request
  decode_request-frame e =
      decode_frame-frame (decode_request_frame x) (concat (be 1 opcode ∷ fields)) rest [] r
        (omega (arith, body_length)) (omega (arith, body_length))
        (unfold decode_request_frame in rw (get_uint-be 1 opcode (concat fields) small) e)
    where
      body_length : length (concat (be 1 opcode ∷ fields)) ≡ 1 + total fields
      body_length = omega (arith, length-concat (be 1 opcode ∷ fields), length-be 1 opcode)

  round_trip :
      encode_request x r buffer ≡ (ok tt, buffer ++ frame (concat (be 1 opcode ∷ fields)))
      → decode_opcode x opcode (concat fields) ≡ ok (r, [])
      → RoundTrips x r buffer rest
  round_trip e d = (frame (concat (be 1 opcode ∷ fields)), e, decode_request-frame d)

module _ (x : Externals) (lossless : IsLossless x) where
  abbrev names : Bytes → Bytes → Bytes → List Bytes → List Bytes
  names group topic name rest = string_fields (member group topic name) ++ rest

  names_size :
      (opcode : ℕ) (group topic name : Bytes) (rest : List Bytes)
      → IsMember x group topic name
      → total rest < 2 ^ 16
      → total (names group topic name rest) < max_frame_size
  names_size opcode group topic name rest h small =
      omega (arith, length-string_field group, length-string_field topic, length-string_field name)

  -- A request that meets `IsWire` (numbers in the range of their types, UTF-8 strings shorter than
  -- 2^16 bytes, topics and sizes that the validators accept, more than 0 partitions to create, a
  -- batch that compresses) is written by `encode_request` with no error behind what the buffer had,
  -- and `decode_request` reads that very request from those bytes and leaves what follows them,
  -- provided that zstd is lossless.
  pub decode_request-encode_request :
      (r : Request) (buffer rest : Bytes) → IsWire x r → RoundTrips x r buffer rest
  unfolding encode_request decode_opcode
  decode_request-encode_request (produce r) buffer rest (valid, u, hp, hn) =
      round_trip x (produce r) buffer rest Opcodes.produce (body_fields r) (omega arith)
        (let s = produce_bounds r valid in
          omega (
            arith,
            producer_bound r.producer s.producer_bound,
            produce_size r,
            length-concat (produce_fields r),
          ))
        (encode_produce-frame r buffer valid) (rw (decode_produce-body x r valid u hp hn))
  decode_request-encode_request (produce_batch r) buffer rest (valid, u, hn, (packed, e)) =
      round_trip x (produce_batch r) buffer rest Opcodes.produce_batch (batch_body r packed)
        (omega arith)
        (let s = batch_bounds r valid in
          omega (
            arith,
            packed_bound x lossless r packed valid e,
            total-batch_fields r packed,
            s.topic_bound,
          ))
        (encode_produce_batch-frame x lossless r packed valid e buffer)
        (rw (decode_produce_batch-body x lossless r packed valid e u hn))
  decode_request-encode_request (fetch r) buffer rest (valid, u, hp, ho) =
      round_trip x (fetch r) buffer rest Opcodes.fetch
        (be 2 (length r.topic) ∷ r.topic ∷ numbers x r valid u) (omega arith)
        (omega
          (arith, topic_bound x r valid u, total-numbers x r valid u, length-be 2 (length r.topic)))
        (encode_fetch-frame x r valid u buffer)
        (let b = new_fetch-bounds r.topic r.partition r.offset r.max_bytes r.max_wait_ms valid in
          rw (decode_fetch-body x r valid u hp ho (omega arith) (omega arith)))
  decode_request-encode_request (join_group r) buffer rest h =
      round_trip x (join_group r) buffer rest Opcodes.join_group
        (string_fields (member r.group r.topic r.member) ++ []) (omega arith)
        (names_size Opcodes.join_group r.group r.topic r.member [] h (omega arith))
        (encode_group_member-frame x r h Opcodes.join_group buffer)
        (rw (decode_group_member-body x r h))
  decode_request-encode_request (heartbeat r) buffer rest (h, hg) =
      round_trip x (heartbeat r) buffer rest Opcodes.heartbeat
        (names r.group r.topic r.member (generation_rest x r h)) (omega arith)
        (names_size Opcodes.heartbeat r.group r.topic r.member (generation_rest x r h) h
          (omega (arith, length-be 8 r.generation)))
        (encode_group_generation-frame x r h Opcodes.heartbeat buffer)
        (rw (decode_group_generation-body x r h hg))
  decode_request-encode_request (leave_group r) buffer rest (h, hg) =
      round_trip x (leave_group r) buffer rest Opcodes.leave_group
        (names r.group r.topic r.member (generation_rest x r h)) (omega arith)
        (names_size Opcodes.leave_group r.group r.topic r.member (generation_rest x r h) h
          (omega (arith, length-be 8 r.generation)))
        (encode_group_generation-frame x r h Opcodes.leave_group buffer)
        (rw (decode_group_generation-body x r h hg))
  decode_request-encode_request (commit_offset r) buffer rest (h, hg, hp, ho) =
      round_trip x (commit_offset r) buffer rest Opcodes.commit_offset
        (names r.group r.topic r.member (commit_rest x r h)) (omega arith)
        (names_size Opcodes.commit_offset r.group r.topic r.member (commit_rest x r h) h
          (omega (arith, total-commit_rest x r h)))
        (encode_commit_offset-frame x r h buffer) (rw (decode_commit_offset-body x r h hg hp ho))
  decode_request-encode_request (fetch_committed_offset r) buffer rest (hg, ht, hp) =
      round_trip x (fetch_committed_offset r) buffer rest Opcodes.fetch_committed_offset
        (string_fields (r.group ∷ r.topic ∷ []) ++ be 4 r.partition ∷ []) (omega arith)
        (omega (
          arith,
          length-string_field r.group,
          length-string_field r.topic,
          length-be 4 r.partition,
        ))
        (encode_fetch_committed-frame x r hg ht buffer)
        (rw (decode_fetch_committed-body x r hg ht hp))
  decode_request-encode_request (group_fetch r) buffer rest (h, hg, hp, ho, (f, valid)) =
      round_trip x (group_fetch r) buffer rest Opcodes.group_fetch
        (names r.group r.topic r.member (fetch_rest x r h f valid)) (omega arith)
        (names_size Opcodes.group_fetch r.group r.topic r.member (fetch_rest x r h f valid) h
          (omega (arith, total-fetch_rest x r h f valid)))
        (encode_group_fetch-frame x r h f valid buffer)
        (let b = new_fetch-bounds r.topic r.partition r.offset r.max_bytes r.max_wait_ms valid in
          rw (decode_group_fetch-body x r h f valid hg hp ho (omega arith) (omega arith)))
  decode_request-encode_request (create_topic r) buffer rest (h, pos, hp) =
      round_trip x (create_topic r) buffer rest Opcodes.create_topic
        (string_fields (r.topic ∷ []) ++ be 4 r.partitions ∷ []) (omega arith)
        (omega (arith, length-string_field r.topic, length-be 4 r.partitions))
        (encode_create_topic-frame x r h pos buffer) (rw (decode_create_topic-body x r h pos hp))
  decode_request-encode_request list_topics buffer rest h =
      round_trip x list_topics buffer rest Opcodes.list_topics [] (omega arith) (omega arith)
        (encode_bare-frame Opcodes.list_topics buffer) refl
  decode_request-encode_request (describe_topic topic) buffer rest h =
      round_trip x (describe_topic topic) buffer rest Opcodes.describe_topic
        (string_fields (topic ∷ []) ++ []) (omega arith) (omega (arith, length-string_field topic))
        (encode_describe_topic-frame x topic h buffer) (rw (decode_describe_topic-body x topic h))
  decode_request-encode_request cluster_metadata buffer rest h =
      round_trip x cluster_metadata buffer rest Opcodes.cluster_metadata [] (omega arith)
        (omega arith) (encode_bare-frame Opcodes.cluster_metadata buffer) refl
  decode_request-encode_request (promote_leader r) buffer rest (h, hp, hl) =
      round_trip x (promote_leader r) buffer rest Opcodes.promote_leader
        (string_fields (r.topic ∷ []) ++ promote_rest x r h) (omega arith)
        (omega
          (arith, length-string_field r.topic, length-be 4 r.partition, length-be 4 r.leader_id))
        (encode_promote_leader-frame x r h buffer) (rw (decode_promote_leader-body x r h hp hl))
  decode_request-encode_request (apply_leadership r) buffer rest (h, hp, hl, he, hw) =
      round_trip x (apply_leadership r) buffer rest Opcodes.apply_leadership
        (string_fields (r.topic ∷ []) ++ apply_rest x r h) (omega arith)
        (omega (arith, length-string_field r.topic, total-apply_rest x r h))
        (encode_apply_leadership-frame x r h buffer)
        (rw (decode_apply_leadership-body x r h hp hl he hw))
  decode_request-encode_request (partition_status r) buffer rest (h, hp) =
      round_trip x (partition_status r) buffer rest Opcodes.partition_status
        (string_fields (r.topic ∷ []) ++ be 4 r.partition ∷ []) (omega arith)
        (omega (arith, length-string_field r.topic, length-be 4 r.partition))
        (encode_partition_status-frame x r h buffer) (rw (decode_partition_status-body x r h hp))
