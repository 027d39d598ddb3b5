-- ===== src/Protocol/Response/RoundTrip/Decoded.antt =====
-- What `decode_response` of crates/protocol/src/lib.rs reads from the fields of a response.
use sevlamq.Prelude.{
  ==_iff, All, List, Option, [], all, append-nil, arith, length, le→ltb_false, lt→==_false, none,
  refl, some, subst, true, ℕ, ◌*◌, ◌++◌, ◌<◌, ◌==◌, ◌^◌, ◌∙◌, ◌≡◌, ◌≤◌,
}
use sevlamq.Protocol.Request.Decode.{repeat}
use sevlamq.Protocol.Types.{Bytes, max_batch_messages, max_cluster_nodes}
use sevlamq.Protocol.Result.{ok}
use sevlamq.Protocol.Reader.{Reader, ensure_empty, get_uint}
use sevlamq.Protocol.Externals.{Externals}
use sevlamq.Protocol.Layout.{
  concat, decode_string-field, ensure_remaining-concat, length-concat, total,
}
use sevlamq.Protocol.Primitives.{get_uint-be, length-be, read_len-be_four}
use sevlamq.Protocol.Response.{
  Response, cluster_metadata, committed_offset, error, fetch, group_ack, join_group,
  leadership_changed, partition_status, produce_ack, produce_batch_ack, topics,
}
use sevlamq.Protocol.Response.Decode.{
  decode_cluster_metadata, decode_committed_offset, decode_error, decode_fetch_response,
  decode_fetched, decode_join_group, decode_leadership_changed, decode_node, decode_numbers,
  decode_partition_status_response, decode_produce_ack, decode_produce_batch_ack,
  decode_response_opcode, decode_topic, decode_topics_response, then_some,
}
use sevlamq.Protocol.Response.RoundTrip.{
  ack_fields, decode_acks-fields, decode_numbers-numbers, fields_of, numbers, repeat-fields,
  total-acks, total-numbers,
}
use sevlamq.Protocol.Response.RoundTrip.Items.{
  IsFetched, IsNode, decode_fetched-fields, decode_node-fields, fetched_fields, node_fields,
}
use sevlamq.Protocol.Response.RoundTrip.Topics.{IsTopic, decode_topic-fields, topic_fields}
use sevlamq.Protocol.Request.Encode.{is_some_code, unwrap_or_default}
use sevlamq.Protocol.Response.RoundTrip.Shape.{
  IsOffset, IsResponse, response_fields, response_opcode,
}

remaining : (n : ℕ) (fields : List Bytes) → total fields ≡ n → (length (concat fields) == n) ≡ true
remaining n fields e = (==_iff (length (concat fields)) n).1 (length-concat fields ∙ e)

repeat_end :
    {A : Type 0} (item : Reader A) (fields : A → List Bytes) (P : A → Type 0)
    → ((a : A) (rest : Bytes) → P a → item (concat (fields a) ++ rest) ≡ ok (a, rest))
    → (all : List A) → All P all
    → repeat (length all) item (concat (fields_of fields all)) ≡ ok (all, [])
repeat_end item fields P each all h =
    subst (λ b. repeat (length all) item b ≡ ok (all, []))
      (append-nil (concat (fields_of fields all))) (repeat-fields item fields P each all [] h)

numbers_end :
    (width : ℕ) (all : List ℕ)
    → All (λ n. n < 256 ^ width) all
    → decode_numbers (get_uint width) (length all) (concat (numbers width all)) ≡ ok (all, [])
numbers_end width all h =
    subst (λ b. decode_numbers (get_uint width) (length all) b ≡ ok (all, []))
      (append-nil (concat (numbers width all))) (decode_numbers-numbers width all [] h)

is_some_code_bound : (offset : Option ℕ) → is_some_code offset ≤ 1
is_some_code_bound none = omega arith
is_some_code_bound (some n) = omega arith

then_some-code :
    (offset : Option ℕ) → then_some (is_some_code offset) (unwrap_or_default offset) ≡ offset
then_some-code none = refl
then_some-code (some n) = refl

unwrap_bound : (offset : Option ℕ) → IsOffset offset → unwrap_or_default offset < 2 ^ 64
unwrap_bound none h = omega arith
unwrap_bound (some n) h = h

module _ (x : Externals) where
  pub decode_response_opcode-fields :
      (r : Response)
      → IsResponse x r
      → decode_response_opcode x (response_opcode r) (concat (response_fields r)) ≡ ok (r, [])
  unfolding decode_response_opcode decode_produce_ack decode_produce_batch_ack decode_fetch_response
      decode_join_group decode_committed_offset decode_topics_response decode_cluster_metadata
      decode_leadership_changed decode_partition_status_response decode_error ensure_empty
  decode_response_opcode-fields (produce_ack ack) ((hp, ho), small) = rw (
    remaining 12 (ack_fields ack)
        (omega (arith, length-be 4 ack.partition, length-be 8 ack.offset)),
    get_uint-be 4 ack.partition _ hp,
    get_uint-be 8 ack.offset _ ho,
  )
  decode_response_opcode-fields (produce_batch_ack acks) ((h, pos, few), small) = rw (
    ensure_remaining-concat 4 (response_fields (produce_batch_ack acks))
        (omega (arith, length-be 4 (length acks))),
    get_uint-be 4 (length acks) _ (omega arith),
    lt→==_false (length acks) 0 pos,
    le→ltb_false max_batch_messages (length acks) few,
    ensure_remaining-concat (length acks * 12) (fields_of ack_fields acks)
        (omega (arith, total-acks acks)),
    decode_acks-fields acks h,
  )
  decode_response_opcode-fields (fetch response) ((h, few), small) = rw (
    ensure_remaining-concat 4 (response_fields (fetch response))
        (omega (arith, length-be 4 (length response.records))),
    get_uint-be 4 (length response.records) _ few,
    repeat_end decode_fetched fetched_fields IsFetched decode_fetched-fields response.records h,
  )
  decode_response_opcode-fields (join_group response) ((hg, (h, few)), small) = rw (
    ensure_remaining-concat 12 (response_fields (join_group response))
        (omega (arith, length-be 8 response.generation, length-be 4 (length response.partitions))),
    get_uint-be 8 response.generation _ hg,
    get_uint-be 4 (length response.partitions) _ few,
    ensure_remaining-concat (length response.partitions * 4) (numbers 4 response.partitions)
        (omega (arith, total-numbers 4 response.partitions)),
    numbers_end 4 response.partitions h,
  )
  decode_response_opcode-fields group_ack h = refl
  decode_response_opcode-fields (committed_offset offset) (h, small) = rw (
    ensure_remaining-concat 9 (response_fields (committed_offset offset))
        (omega (arith, length-be 1 (is_some_code offset), length-be 8 (unwrap_or_default offset))),
    get_uint-be 1 (is_some_code offset) _ (omega (arith, is_some_code_bound offset)),
    get_uint-be 8 (unwrap_or_default offset) _ (unwrap_bound offset h),
    le→ltb_false 1 (is_some_code offset) (is_some_code_bound offset),
    then_some-code offset,
  )
  decode_response_opcode-fields (topics found) ((h, few, room), small) = rw (
    ensure_remaining-concat 4 (response_fields (topics found))
        (omega (arith, length-be 4 (length found))),
    read_len-be_four (length found) _ few,
    room,
    repeat_end (decode_topic x) topic_fields (IsTopic x) (decode_topic-fields x) found h,
  )
  decode_response_opcode-fields (cluster_metadata metadata) ((hb, h, pos, few), small) = rw (
    ensure_remaining-concat 8 (response_fields (cluster_metadata metadata)) (
        omega
          (arith, length-be 4 metadata.responding_broker_id, length-be 4 (length metadata.nodes))),
    get_uint-be 4 metadata.responding_broker_id _ hb,
    read_len-be_four (length metadata.nodes) _ (omega arith),
    lt→==_false (length metadata.nodes) 0 pos,
    le→ltb_false max_cluster_nodes (length metadata.nodes) few,
    repeat_end (decode_node x) node_fields (IsNode x) (decode_node-fields x) metadata.nodes h,
  )
  decode_response_opcode-fields (leadership_changed l) ((hp, hl, he, hw), small) = rw (
    remaining 24 (response_fields (leadership_changed l)) (
        omega (
          arith,
          length-be 4 l.partition,
          length-be 4 l.leader_id,
          length-be 8 l.leader_epoch,
          length-be 8 l.high_watermark,
        )),
    get_uint-be 4 l.partition _ hp,
    get_uint-be 4 l.leader_id _ hl,
    get_uint-be 8 l.leader_epoch _ he,
    get_uint-be 8 l.high_watermark _ hw,
  )
  decode_response_opcode-fields (partition_status next_offset) (h, small) = rw (
    remaining 8 (response_fields (partition_status next_offset))
        (omega (arith, length-be 8 next_offset)),
    get_uint-be 8 next_offset _ h,
  )
  decode_response_opcode-fields (error message) (h, small) = rw (decode_string-field x message [] h)
