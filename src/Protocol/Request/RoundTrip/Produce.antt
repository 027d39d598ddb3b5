-- ===== src/Protocol/Request/RoundTrip/Produce.antt =====
-- Single produce requests.
use sevlamq.Protocol.Opcodes
use sevlamq.Prelude.{
  List, Option, [], ap, append-nil, append_assoc, arith, false, is_empty, length, le→ltb_false,
  lt→==_false, lt→ltb, none, refl, some, sym, true, ℕ, ◌++◌, ◌+◌, ◌<◌, ◌^◌, ◌∙◌, ◌∷◌, ◌≡◌, ◌≤◌,
}
use sevlamq.Protocol.Types.{
  AckMode, Bytes, ProduceRequest, ProducerIdentity, durable, leader, max_key_size, max_message_size,
  max_topic_name,
}
use sevlamq.Protocol.Result.{Result, ok}
use sevlamq.Protocol.Externals.{Externals}
use sevlamq.Protocol.Reader.{ensure_empty, from_utf8, validate_size}
use sevlamq.Protocol.Writer.{be, extend, try_from}
use sevlamq.Protocol.Primitives.{
  ensure_remaining-append, ensure_remaining-le, get_uint-be, length-be, read_bytes-append,
  read_len-be_four, read_len-be_two,
}
use sevlamq.Protocol.Validate.{new_produce, validate_identifier, validate_producer, validate_topic}
use sevlamq.Protocol.Layout.{
  IsU32, IsU64, concat, concat-append, frame, length-concat, total, total-append, written,
  written-append, written-concat,
}
use sevlamq.Protocol.Request.Encode.{
  ack_code, encode_produce, is_some_code, producer_id_len, put_producer, unwrap_or_default,
}
use sevlamq.Protocol.Request.Decode.{
  ack_from_code, decode_produce, decode_producer, flag_check, partition_of,
}

-- What `ProduceRequest::new` returns for these fields; `with_partition` may then set the partition.
abbrev pub IsProduce : ProduceRequest → Type 0
IsProduce r =
    new_produce r.topic r.key r.payload r.ack_mode r.producer ≡ ok (record r { partition = none })

abbrev pub IsProducer : Externals → Option ProducerIdentity → Type 0
IsProducer x none = Unit
IsProducer x (some producer) = (x.is_utf8 producer.id ≡ true) × IsU64 producer.sequence

abbrev pub IsPartition : Option ℕ → Type 0
IsPartition none = Unit
IsPartition (some n) = IsU32 n

abbrev pub ShortProducer : Option ProducerIdentity → Type 0
ShortProducer none = Unit {0}
ShortProducer (some producer) = (0 < length producer.id) × (length producer.id ≤ 249)

-- What the checks of `ProduceRequest::new` say of the sizes.
pub record Sizes (r : ProduceRequest) : Type 0 where
  pub topic_pos : 0 < length r.topic
  pub topic_bound : length r.topic ≤ max_topic_name
  pub key_bound : length r.key ≤ max_key_size
  pub payload_bound : length r.payload ≤ max_message_size
  pub producer_bound : ShortProducer r.producer

pub topic_sizes :
    (topic : Bytes) → validate_topic topic ≡ ok tt → (0 < length topic) × (length topic ≤ 249)
unfolding validate_topic validate_size
topic_sizes [] h = ground arith
topic_sizes (b ∷ topic) h = ground arith

new_produce-topic :
    (topic key payload : Bytes) (ack : AckMode) (p : Option ProducerIdentity) {r : ProduceRequest}
    → new_produce topic key payload ack p ≡ ok r
    → (validate_topic topic ≡ ok tt)
      × (length key ≤ max_key_size)
      × (length payload ≤ max_message_size)
      × (validate_producer p ≡ ok tt)
unfolding new_produce validate_size
new_produce-topic topic key payload ack p h = ground arith

validate_identifier-sizes :
    (value : Bytes)
    → validate_identifier value ≡ ok tt
    → (0 < length value) × (length value ≤ max_topic_name)
unfolding validate_identifier
validate_identifier-sizes [] h = cc
validate_identifier-sizes (b ∷ value) h = ground arith

producer_sizes : (p : Option ProducerIdentity) → validate_producer p ≡ ok tt → ShortProducer p
unfolding validate_producer
producer_sizes none h = tt
producer_sizes (some producer) h = validate_identifier-sizes producer.id h

pub produce_bounds : (r : ProduceRequest) → IsProduce r → Sizes r
produce_bounds r h = record {
  topic_pos = (topic_sizes r.topic checks.0).0;
  topic_bound = (topic_sizes r.topic checks.0).1;
  key_bound = checks.1;
  payload_bound = checks.2;
  producer_bound = producer_sizes r.producer checks.3;
}
  where
    checks :
        (validate_topic r.topic ≡ ok tt)
        × (length r.key ≤ max_key_size)
        × (length r.payload ≤ max_message_size)
        × (validate_producer r.producer ≡ ok tt)
    checks = new_produce-topic r.topic r.key r.payload r.ack_mode r.producer h

abbrev pub producer_fields : Option ProducerIdentity → List Bytes
producer_fields none = be 8 0 ∷ []
producer_fields (some producer) = producer.id ∷ be 8 producer.sequence ∷ []

abbrev pub partition_fields : Option ℕ → List Bytes
partition_fields partition = be 1 (is_some_code partition) ∷ be 4 (unwrap_or_default partition) ∷ []

put_producer-written :
    (p : Option ProducerIdentity) (buffer : Bytes)
    → put_producer p buffer ≡ (ok tt, written buffer (producer_fields p))
unfolding put_producer extend
put_producer-written none buffer = refl
put_producer-written (some producer) buffer = refl

total-producer_fields :
    (p : Option ProducerIdentity) → total (producer_fields p) ≡ producer_id_len p + 8
total-producer_fields none = omega (arith, length-be 8 0)
total-producer_fields (some producer) = omega (arith, length-be 8 producer.sequence)

pub producer_bound : (p : Option ProducerIdentity) → ShortProducer p → producer_id_len p ≤ 249
producer_bound none h = omega arith
producer_bound (some producer) h = h.1

module _ (r : ProduceRequest) where
  abbrev pub tail_fields : List Bytes
  tail_fields = producer_fields r.producer ++ partition_fields r.partition

  abbrev pub body_fields : List Bytes
  body_fields =
      be 2 (length r.topic)
      ∷ r.topic
      ∷ be 2 (length r.key)
      ∷ r.key
      ∷ be 4 (length r.payload)
      ∷ r.payload
      ∷ be 1 (ack_code r.ack_mode)
      ∷ be 2 (producer_id_len r.producer)
      ∷ tail_fields

  abbrev pub produce_fields : List Bytes
  produce_fields = be 1 Opcodes.produce ∷ body_fields

  abbrev pub frame_len : ℕ
  frame_len =
      1
      + 2
      + length r.topic
      + 2
      + length r.key
      + 4
      + length r.payload
      + 1
      + 2
      + producer_id_len r.producer
      + 8
      + 5

  total-tail_fields : total tail_fields ≡ producer_id_len r.producer + 8 + 5
  total-tail_fields = omega (
    arith,
    total-append (producer_fields r.producer) (partition_fields r.partition),
    total-producer_fields r.producer,
    length-be 1 (is_some_code r.partition),
    length-be 4 (unwrap_or_default r.partition),
  )

  pub produce_size : length (concat produce_fields) ≡ frame_len
  produce_size = omega (
    arith,
    length-concat produce_fields,
    total-tail_fields,
    length-be 1 Opcodes.produce,
    length-be 2 (length r.topic),
    length-be 2 (length r.key),
    length-be 4 (length r.payload),
    length-be 1 (ack_code r.ack_mode),
    length-be 2 (producer_id_len r.producer),
  )

  pub encode_produce-frame :
      (buffer : Bytes)
      → IsProduce r
      → encode_produce r buffer ≡ (ok tt, buffer ++ frame (concat produce_fields))
  unfolding encode_produce extend try_from frame
  encode_produce-frame buffer h =
      let s = produce_bounds r h in
      let small = producer_bound r.producer s.producer_bound in
      rw
        (
          lt→ltb frame_len (2 ^ 32) (omega arith),
          lt→ltb (length r.topic) (2 ^ 16) (omega arith),
          lt→ltb (length r.key) (2 ^ 16) (omega arith),
          lt→ltb (length r.payload) (2 ^ 32) (omega arith),
          lt→ltb (producer_id_len r.producer) (2 ^ 16) (omega arith),
          put_producer-written r.producer _,
          produce_size,
        )
        (ap {B = Result Unit × Bytes} (λ bytes. (ok tt, bytes))
          (sym (
              written-append (written buffer front) (producer_fields r.producer)
                (partition_fields r.partition))
            ∙ written-concat buffer (be 4 frame_len ∷ produce_fields)))
    where
      front : List Bytes
      front =
          be 4 frame_len
          ∷ be 1 Opcodes.produce
          ∷ be 2 (length r.topic)
          ∷ r.topic
          ∷ be 2 (length r.key)
          ∷ r.key
          ∷ be 4 (length r.payload)
          ∷ r.payload
          ∷ be 1 (ack_code r.ack_mode)
          ∷ be 2 (producer_id_len r.producer)
          ∷ []

pub ack_from_code-code : (ack_mode : AckMode) → ack_from_code (ack_code ack_mode) ≡ ok ack_mode
unfolding ack_from_code
ack_from_code-code leader = refl
ack_from_code-code durable = refl

pub ack_code_small : (ack_mode : AckMode) → ack_code ack_mode < 256
ack_code_small leader = omega arith
ack_code_small durable = omega arith

-- The flag and the number read back, whether there is a partition or not.
pub partition_of-codes : (p : Option ℕ) → partition_of (is_some_code p) (unwrap_or_default p) ≡ p
partition_of-codes none = refl
partition_of-codes (some n) = refl

pub total-partition_fields : (p : Option ℕ) → total (partition_fields p) ≡ 5
total-partition_fields p =
    omega (arith, length-be 1 (is_some_code p), length-be 4 (unwrap_or_default p))

is_empty_pos : (value : Bytes) → 0 < length value → is_empty value ≡ false
is_empty_pos [] h = absurd (omega arith)
is_empty_pos (b ∷ value) h = refl

pub partition_codes_small :
    (p : Option ℕ) → IsPartition p → (is_some_code p ≤ 1) × (unwrap_or_default p < 2 ^ 32)
partition_codes_small none h = omega arith
partition_codes_small (some n) h = omega arith

decode_producer-fields :
    (x : Externals) (p : Option ProducerIdentity) (rest : Bytes)
    → ShortProducer p
    → IsProducer x p
    → decode_producer x (producer_id_len p) (concat (producer_fields p) ++ rest) ≡ ok (p, rest)
unfolding decode_producer from_utf8
decode_producer-fields x none rest short h = rw (
  append_assoc,
  ensure_remaining-append 8 (be 8 0) ([] ++ rest) (omega (arith, length-be 8 0)),
  get_uint-be 8 0 ([] ++ rest) (omega arith),
)
decode_producer-fields x (some producer) rest short h = rw (
  lt→==_false (length producer.id) 0 short.0,
  append_assoc,
  read_bytes-append producer.id (be 8 producer.sequence ++ [] ++ rest),
  h.0,
  append-nil (be 8 producer.sequence),
  ensure_remaining-append 8 (be 8 producer.sequence) rest
      (omega (arith, length-be 8 producer.sequence)),
  get_uint-be 8 producer.sequence rest h.1,
)

module _ (x : Externals) (r : ProduceRequest) (valid : IsProduce r) (u : x.is_utf8 r.topic ≡ true)
    (hp : IsProducer x r.producer) (hn : IsPartition r.partition) where
  pub decode_produce-body : decode_produce x (concat (body_fields r)) ≡ ok (r, [])
  unfolding decode_produce ensure_empty validate_size from_utf8 flag_check
  decode_produce-body =
      let s = produce_bounds r valid in
      let small = producer_bound r.producer s.producer_bound in
      let codes = partition_codes_small r.partition hn in
      rw (
        concat-append (producer_fields r.producer) (partition_fields r.partition),
        read_len-be_two (length r.topic) _ (omega arith),
        le→ltb_false max_topic_name (length r.topic) s.topic_bound,
        read_bytes-append r.topic _,
        u,
        is_empty_pos r.topic s.topic_pos,
        read_len-be_two (length r.key) _ (omega arith),
        le→ltb_false max_key_size (length r.key) s.key_bound,
        read_bytes-append r.key _,
        read_len-be_four (length r.payload) _ (omega arith),
        le→ltb_false max_message_size (length r.payload) s.payload_bound,
        read_bytes-append r.payload _,
        ensure_remaining-append 1 (be 1 (ack_code r.ack_mode)) _
            (omega (arith, length-be 1 (ack_code r.ack_mode))),
        get_uint-be 1 (ack_code r.ack_mode) _ (ack_code_small r.ack_mode),
        ack_from_code-code r.ack_mode,
        read_len-be_two (producer_id_len r.producer) _ (omega arith),
        decode_producer-fields x r.producer _ s.producer_bound hp,
        ensure_remaining-le 5 (concat (partition_fields r.partition)) (
            omega (
              arith,
              length-concat (partition_fields r.partition),
              total-partition_fields r.partition,
            )),
        get_uint-be 1 (is_some_code r.partition) _ (omega arith),
        get_uint-be 4 (unwrap_or_default r.partition) _ codes.1,
        le→ltb_false 1 (is_some_code r.partition) codes.0,
        valid,
        partition_of-codes r.partition,
      )
