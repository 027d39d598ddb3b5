-- ===== src/Protocol/Response/Safety.antt =====
-- The decoders of the responses, read by read: none reads past the end of a frame.
use sevlamq.Prelude.{
  ◌*◌, Bool, Bool-cases, [], arith, false, if◌then◌else◌, inl, inr, length, ltb, suc, true, zero, ℕ,
  ◌*◌, ◌-◌, ◌==◌, ◌^◌, ◌||◌,
}
use sevlamq.Protocol.Opcodes
use sevlamq.Protocol.Types.{max_batch_messages}
use sevlamq.Protocol.Result.{
  ProtocolError, invalid_batch_count, invalid_cluster_metadata, invalid_frame,
  invalid_partition_count, unknown_opcode,
}
use sevlamq.Protocol.Externals.{Externals}
use sevlamq.Protocol.Reader.{Reader, pure, raise, ◌>>◌, get_u32, get_u64}
use sevlamq.Protocol.Safety.{
  Safe, Safe-bind, Safe-ensure, Safe-get, Safe-if, Safe-pure, Safe-raise, Safe-weaken,
}
use sevlamq.Protocol.Safety.Primitives.{
  Safe-empty, Safe-string_then, Safe-bytes, Safe-guard, Safe-u32_len,
}
use sevlamq.Protocol.Safety.Produce.{Safe-repeat}
use sevlamq.Protocol.Response.Decode.{
  as_response, decode_acks, decode_cluster_metadata, decode_committed_offset, decode_error,
  decode_fetch_response, decode_fetched, decode_fetched_key, decode_join_group,
  decode_leadership_changed, decode_node, decode_numbers, decode_partition_status_response,
  decode_produce_ack, decode_produce_batch_ack, decode_response_frame, decode_response_opcode,
  decode_topic, decode_topics_response, if_remaining,
}
use sevlamq.Protocol.Response.{Response, cluster_metadata, fetch, group_ack, join_group, topics}

module _ {A : Type 0} where
  pub Safe-remaining :
      (n : ℕ) (e : ProtocolError) (m : Reader A) → Safe n m → Safe 0 (if_remaining n e m)
  Safe-remaining n e m s = record {
    run = λ buffer h. elim (Bool-cases (length buffer == n)) [
      | inl same ↦ rw same (s.run buffer (ground arith))
      | inr other ↦ rw other (λ p. cc)
    ];
  }

  pub Safe-guard_then :
      (k : ℕ) (b : Bool) (e : ProtocolError) (m : Reader A)
      → Safe k m
      → Safe k ((if b then raise e else pure tt) >> m)
  Safe-guard_then k true e m s = record { run = λ buffer h p. cc }
  Safe-guard_then k false e m s = record { run = s.run }

Safe-acks : (count : ℕ) → Safe (count * 12) (decode_acks count)
unfolding decode_acks
Safe-acks zero = Safe-pure _ []
Safe-acks (suc count) = Safe-get 4 (suc count * 12) _ (omega arith) λ partition.
    Safe-get 8 (suc count * 12 - 4) _ (omega arith) λ offset.
      Safe-bind _ _ _ (Safe-weaken (count * 12) _ _ (omega arith) (Safe-acks count))
        λ rest. Safe-pure 0 _

-- As many numbers as there is room for.
Safe-u32s : (count : ℕ) → Safe (count * 4) (decode_numbers get_u32 count)
unfolding decode_numbers
Safe-u32s zero = Safe-pure _ []
Safe-u32s (suc count) = Safe-get 4 (suc count * 4) _ (omega arith) λ n.
    Safe-bind _ _ _ (Safe-weaken (count * 4) _ _ (omega arith) (Safe-u32s count))
      λ rest. Safe-pure 0 _

Safe-u64s : (count : ℕ) → Safe (count * 8) (decode_numbers get_u64 count)
unfolding decode_numbers
Safe-u64s zero = Safe-pure _ []
Safe-u64s (suc count) = Safe-get 8 (suc count * 8) _ (omega arith) λ n.
    Safe-bind _ _ _ (Safe-weaken (count * 8) _ _ (omega arith) (Safe-u64s count))
      λ rest. Safe-pure 0 _

Safe-produce_ack : Safe 0 decode_produce_ack
unfolding decode_produce_ack
Safe-produce_ack = Safe-remaining 12 _ _ (
    Safe-get 4 12 _ (omega arith) λ partition. Safe-get 8 8 _ (omega arith) λ offset. Safe-pure 0 _)

Safe-produce_batch_ack : Safe 0 decode_produce_batch_ack
unfolding decode_produce_batch_ack
Safe-produce_batch_ack = Safe-ensure 4 0 _ (
    Safe-get 4 4 _ (omega arith) λ count.
      Safe-bind 0 _ _ (Safe-guard (count == 0 || ltb max_batch_messages count) invalid_batch_count)
        λ _. Safe-ensure (count * 12) 0 _ (
          Safe-bind (count * 12) _ _ (Safe-acks count)
            λ acks. Safe-bind 0 _ _ (Safe-empty 0) λ _. Safe-pure 0 _))

Safe-fetched_key : (key_len : ℕ) → Safe 0 (decode_fetched_key key_len)
unfolding decode_fetched_key
Safe-fetched_key key_len = Safe-if 0 (key_len == 2 ^ 32 - 1) _ _ (Safe-pure 0 _) (
    Safe-if 0 (ltb key_len (2 ^ 31)) _ _
      (Safe-bind 0 _ _ (Safe-bytes 0 key_len) λ key. Safe-pure 0 _) (Safe-raise 0 invalid_frame))

Safe-fetched : Safe 0 decode_fetched
unfolding decode_fetched
Safe-fetched = Safe-ensure 24 0 _ (
    Safe-get 8 24 _ (omega arith) λ offset. Safe-get 8 16 _ (omega arith) λ timestamp_ms.
      Safe-get 4 8 _ (omega arith) λ key_len. Safe-get 4 4 _ (omega arith) λ value_len.
        Safe-bind 0 _ _ (Safe-fetched_key key_len)
          λ key. Safe-bind 0 _ _ (Safe-bytes 0 value_len) λ value. Safe-pure 0 _)

Safe-fetch_response : Safe 0 decode_fetch_response
unfolding decode_fetch_response
Safe-fetch_response = Safe-ensure 4 0 _ (
    Safe-get 4 4 _ (omega arith) λ count.
      Safe-bind 0 _ _ (Safe-repeat count decode_fetched Safe-fetched)
        λ records. Safe-bind 0 _ _ (Safe-empty 0) λ _. Safe-pure 0 _)

Safe-join_group : Safe 0 decode_join_group
unfolding decode_join_group
Safe-join_group = Safe-ensure 12 0 _ (
    Safe-get 8 12 _ (omega arith) λ generation. Safe-get 4 4 _ (omega arith) λ count.
      Safe-ensure (count * 4) 0 _ (
        Safe-bind (count * 4) _ _ (Safe-u32s count)
          λ partitions. Safe-bind 0 _ _ (Safe-empty 0) λ _. Safe-pure 0 _))

Safe-committed_offset : Safe 0 decode_committed_offset
unfolding decode_committed_offset
Safe-committed_offset = Safe-ensure 9 0 _ (
    Safe-get 1 9 _ (omega arith) λ found. Safe-get 8 8 _ (omega arith) λ offset.
      Safe-bind 0 _ _ (Safe-empty 0)
        λ _. Safe-guard_then 0 (ltb 1 found) invalid_frame _ (Safe-pure 0 _))

module _ (x : Externals) where
  Safe-topic : Safe 0 (decode_topic x)
  unfolding decode_topic
  Safe-topic =
      Safe-string_then _
        (λ topic. Safe-ensure 8 0 _ (
          Safe-get 4 8 _ (omega arith) λ partitions. Safe-bind _ _ _ (Safe-u32_len _) λ count.
            Safe-guard_then 0 _ invalid_partition_count _ (
              Safe-ensure (count * 4) 0 _ (
                Safe-bind (count * 4) _ _ (Safe-u32s count) λ leaders. Safe-ensure (count * 8) 0 _ (
                  Safe-bind (count * 8) _ _ (Safe-u64s count) λ leader_epochs.
                    Safe-ensure (count * 8) 0 _ (
                      Safe-bind (count * 8) _ _ (Safe-u64s count)
                        λ high_watermarks. Safe-pure 0 _))))))
        x.is_utf8

  Safe-node : Safe 0 (decode_node x)
  unfolding decode_node
  Safe-node = Safe-ensure 4 0 _ (
      Safe-get 4 4 _ (omega arith) λ id.
        Safe-string_then _
          (λ host. Safe-ensure 6 0 _ (
            Safe-get 2 6 _ (omega arith) λ port.
              Safe-get 2 4 _ (omega arith)
                λ admin_port. Safe-get 2 2 _ (omega arith) λ replication_port. Safe-pure 0 _))
          x.is_utf8)

  Safe-cluster_metadata : Safe 0 (decode_cluster_metadata x)
  unfolding decode_cluster_metadata
  Safe-cluster_metadata = Safe-ensure 8 0 _ (
      Safe-get 4 8 _ (omega arith) λ responding_broker_id. Safe-bind _ _ _ (Safe-u32_len _) λ count.
        Safe-guard_then 0 _ invalid_cluster_metadata _ (
          Safe-bind 0 _ _ (Safe-repeat count (decode_node x) Safe-node)
            λ nodes. Safe-bind 0 _ _ (Safe-empty 0) λ _. Safe-pure 0 _))

  Safe-error : Safe 0 (decode_error x)
  unfolding decode_error
  Safe-error =
      Safe-string_then _ (λ message. Safe-bind 0 _ _ (Safe-empty 0) λ _. Safe-pure 0 _) x.is_utf8

-- A program whose allocator never fails.
abbrev pub roomy : Externals → Externals
roomy x = record x { reserves = λ count. true }

Safe-topics : (x : Externals) → Safe 0 (decode_topics_response (roomy x))
unfolding decode_topics_response
Safe-topics x = Safe-ensure 4 0 _ (
    Safe-bind 4 _ _ (Safe-u32_len 4) λ count.
      Safe-bind 0 _ _ (Safe-repeat count (decode_topic (roomy x)) (Safe-topic (roomy x)))
        λ found. Safe-bind 0 _ _ (Safe-empty 0) λ _. Safe-pure 0 _)

Safe-leadership_changed : (opcode : ℕ) → Safe 0 (decode_leadership_changed opcode)
unfolding decode_leadership_changed
Safe-leadership_changed opcode = Safe-remaining 24 _ _ (
    Safe-get 4 24 _ (omega arith) λ partition. Safe-get 4 20 _ (omega arith) λ leader_id.
      Safe-get 8 16 _ (omega arith)
        λ leader_epoch. Safe-get 8 8 _ (omega arith) λ high_watermark. Safe-pure 0 _)

Safe-partition_status : (opcode : ℕ) → Safe 0 (decode_partition_status_response opcode)
unfolding decode_partition_status_response
Safe-partition_status opcode =
    Safe-remaining 8 _ _ (Safe-get 8 8 _ (omega arith) λ next_offset. Safe-pure 0 _)

Safe-as_response :
    {A : Type 0} (make : A → Response) (decoder : Reader A)
    → Safe 0 decoder
    → Safe 0 (as_response make decoder)
Safe-as_response make decoder s = Safe-bind 0 _ _ s λ value. Safe-pure 0 (make value)

Safe-response : (x : Externals) (opcode : ℕ) → Safe 0 (decode_response_opcode (roomy x) opcode)
unfolding decode_response_opcode
Safe-response x opcode = Safe-if 0 (opcode == Opcodes.produce_ack) _ _ Safe-produce_ack (
    Safe-if 0 (opcode == Opcodes.produce_batch_ack) _ _ Safe-produce_batch_ack (
      Safe-if 0 (opcode == Opcodes.fetch_response) _ _
        (Safe-as_response fetch _ Safe-fetch_response)
        (Safe-if 0 (opcode == Opcodes.join_group_response) _ _
          (Safe-as_response join_group _ Safe-join_group)
          (Safe-if 0 (opcode == Opcodes.group_ack) _ _
            (Safe-remaining 0 _ _ (Safe-pure 0 group_ack))
            (Safe-if 0 (opcode == Opcodes.committed_offset_response) _ _ Safe-committed_offset (
              Safe-if 0 (opcode == Opcodes.topics_response) _ _
                (Safe-as_response topics _ (Safe-topics x))
                (Safe-if 0 (opcode == Opcodes.cluster_metadata_response) _ _
                  (Safe-as_response cluster_metadata _ (Safe-cluster_metadata (roomy x)))
                  (Safe-if 0 (opcode == Opcodes.leadership_changed) _ _
                    (Safe-leadership_changed opcode)
                    (Safe-if 0 (opcode == Opcodes.partition_status_response) _ _
                      (Safe-partition_status opcode)
                      (Safe-if 0 (opcode == Opcodes.error_response) _ _ (Safe-error (roomy x))
                        (Safe-raise 0 (unknown_opcode opcode))))))))))))

pub Safe-response_frame : (x : Externals) → Safe 1 (decode_response_frame (roomy x))
unfolding decode_response_frame
Safe-response_frame x = Safe-get 1 1 _ (omega arith) λ opcode. Safe-response x opcode
