-- ===== src/Protocol/Response/RoundTrip/Encoded.antt =====
-- What `encode_response` of crates/protocol/src/lib.rs writes.
use sevlamq.Prelude.{
  List, ap, arith, length, le→ltb_false, lt→==_false, lt→ltb, refl, ℕ, ◌*◌, ◌++◌, ◌+◌, ◌^◌, ◌≡◌,
}
use sevlamq.Protocol.Opcodes
use sevlamq.Protocol.Types.{Bytes, max_cluster_nodes}
use sevlamq.Protocol.Result.{Result, ok}
use sevlamq.Protocol.Writer.{be, extend, try_from}
use sevlamq.Protocol.Externals.{Externals}
use sevlamq.Protocol.Layout.{
  concat, encode_string-extends, frame, set_frame_len-written, total, written,
}
use sevlamq.Protocol.Primitives.{length-be}
use sevlamq.Protocol.Response.{
  Response, cluster_metadata, committed_offset, error, fetch, group_ack, join_group,
  leadership_changed, partition_status, produce_ack, produce_batch_ack, topics,
}
use sevlamq.Protocol.Response.Encode.{
  encode_cluster_metadata, encode_committed_offset, encode_fetch_response, encode_join_group,
  encode_leadership_changed, encode_produce_ack, encode_produce_batch_ack, encode_response,
  encode_string_response, encode_topics_response, put_ack, put_fetched, put_node, put_topic,
}
use sevlamq.Protocol.Response.RoundTrip.{
  IsAck, ack_fields, finish-written, put_all-numbers, put_all-written, total-numbers, written-frame,
}
use sevlamq.Protocol.Response.RoundTrip.Items.{
  IsFetched, IsNode, fetched_fields, node_fields, put_fetched-written, put_node-written,
}
use sevlamq.Protocol.Response.RoundTrip.Topics.{IsTopic, put_topic-written, topic_fields}
use sevlamq.Protocol.Request.Encode.{is_some_code, unwrap_or_default}
use sevlamq.Protocol.Response.RoundTrip.Shape.{IsResponse, body_fields}

framed :
    (n : ℕ) (buffer : Bytes) (fields : List Bytes)
    → total fields ≡ n
    → ◌≡◌ {A = Result (Unit {0}) × Bytes}
        (ok tt, written (buffer ++ be 4 n) fields)
        (ok tt, buffer ++ frame (concat fields))
framed n buffer fields e = ap (λ b. (ok tt, b)) (written-frame n buffer fields e)

module _ (x : Externals) where
  pub encode_response-frame :
      (r : Response) (buffer : Bytes)
      → IsResponse x r
      → encode_response r buffer ≡ (ok tt, buffer ++ frame (concat (body_fields r)))
  unfolding encode_response encode_produce_ack encode_produce_batch_ack encode_fetch_response
      encode_join_group encode_committed_offset encode_topics_response encode_cluster_metadata
      encode_leadership_changed encode_string_response extend try_from
  encode_response-frame (produce_ack ack) buffer h =
      framed 13 buffer (body_fields (produce_ack ack)) (
        omega (
          arith,
          length-be 1 Opcodes.produce_ack,
          length-be 4 ack.partition,
          length-be 8 ack.offset,
        ))
  encode_response-frame (produce_batch_ack acks) buffer ((h, pos, few), small) =
      rw
        (
          lt→ltb (length acks) (2 ^ 32) (omega arith),
          put_all-written put_ack ack_fields IsAck (λ a b k. refl) acks _ h,
        )
        (set_frame_len-written 0 buffer (body_fields (produce_batch_ack acks))
          (omega (arith, length-be 1 Opcodes.produce_batch_ack)))
  encode_response-frame (fetch response) buffer ((h, few), small) =
      rw
        (
          lt→ltb (length response.records) (2 ^ 32) few,
          put_all-written put_fetched fetched_fields IsFetched put_fetched-written response.records
              _ h,
        )
        (finish-written 0 buffer (body_fields (fetch response))
          (omega (arith, length-be 1 Opcodes.fetch_response)))
  encode_response-frame (join_group response) buffer ((hg, (h, few)), small) =
      rw (lt→ltb (length response.partitions) (2 ^ 32) few, put_all-numbers 4 response.partitions)
        (framed (1 + 8 + 4 + length response.partitions * 4) buffer
          (body_fields (join_group response))
          (omega (
            arith,
            length-be 1 Opcodes.join_group_response,
            length-be 8 response.generation,
            length-be 4 (length response.partitions),
            total-numbers 4 response.partitions,
          )))
  encode_response-frame group_ack buffer h =
      framed 1 buffer (body_fields group_ack) (omega (arith, length-be 1 Opcodes.group_ack))
  encode_response-frame (committed_offset offset) buffer h =
      framed 10 buffer (body_fields (committed_offset offset)) (
        omega (
          arith,
          length-be 1 Opcodes.committed_offset_response,
          length-be 1 (is_some_code offset),
          length-be 8 (unwrap_or_default offset),
        ))
  encode_response-frame (topics found) buffer ((h, few, room), small) =
      rw
        (
          lt→ltb (length found) (2 ^ 32) few,
          put_all-written put_topic topic_fields (IsTopic x) (put_topic-written x) found _ h,
        )
        (set_frame_len-written 0 buffer (body_fields (topics found))
          (omega (arith, length-be 1 Opcodes.topics_response)))
  encode_response-frame (cluster_metadata metadata) buffer ((hb, h, pos, few), small) =
      rw
        (
          lt→==_false (length metadata.nodes) 0 pos,
          le→ltb_false max_cluster_nodes (length metadata.nodes) few,
          lt→ltb (length metadata.nodes) (2 ^ 32) (omega arith),
          put_all-written put_node node_fields (IsNode x) (put_node-written x) metadata.nodes _ h,
        )
        (set_frame_len-written 0 buffer (body_fields (cluster_metadata metadata))
          (omega (arith, length-be 1 Opcodes.cluster_metadata_response)))
  encode_response-frame (leadership_changed l) buffer h =
      framed 25 buffer (body_fields (leadership_changed l)) (
        omega (
          arith,
          length-be 1 Opcodes.leadership_changed,
          length-be 4 l.partition,
          length-be 4 l.leader_id,
          length-be 8 l.leader_epoch,
          length-be 8 l.high_watermark,
        ))
  encode_response-frame (partition_status next_offset) buffer h =
      framed 9 buffer (body_fields (partition_status next_offset))
        (omega (arith, length-be 1 Opcodes.partition_status_response, length-be 8 next_offset))
  encode_response-frame (error message) buffer (h, small) =
      rw (encode_string-extends message _ h.0) (
        set_frame_len-written 0 buffer (body_fields (error message))
          (omega (arith, length-be 1 Opcodes.error_response)))
