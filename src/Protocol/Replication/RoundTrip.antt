-- ===== src/Protocol/Replication/RoundTrip.antt =====
-- What `encode_replicate_record` and `encode_replicate_ack` of crates/protocol/src/lib.rs write, and
-- what their decoders read from it.
use sevlamq.Prelude.{
  Bool, List, Option, [], append-nil, arith, false, length, le→ltb_false, lt→ltb, none, refl, some,
  true, ◌++◌, ◌+◌, ◌<◌, ◌==◌, ◌^◌, ◌∷◌, ◌≡◌, ◌≤◌,
}
use sevlamq.Protocol.Opcodes
use sevlamq.Protocol.Types.{Bytes, ReplicateRecord, max_frame_size, max_key_size, max_message_size}
use sevlamq.Protocol.Result.{ok}
use sevlamq.Protocol.Externals.{Externals}
use sevlamq.Protocol.Validate.{validate_topic}
use sevlamq.Protocol.Reader.{ensure_empty, validate_size}
use sevlamq.Protocol.Writer.{be, extend, try_from}
use sevlamq.Protocol.Primitives.{
  ensure_remaining-le, get_uint-be, length-be, read_bytes-append, read_len-be_two, read_len-be_four,
}
use sevlamq.Protocol.Layout.{
  IsU32, IsU64, concat, decode_frame-frame, decode_string-field, encode_string-extends, frame,
  length-concat, length-string_field, set_frame_len-written, string_field, total,
}
use sevlamq.Protocol.Request.RoundTrip.Produce.{topic_sizes}
use sevlamq.Protocol.Response.Encode.{extend_key}
use sevlamq.Protocol.Replication.Encode.{bool_code, encode_replicate_record, key_size}
use sevlamq.Protocol.Replication.Decode.{decode_replicate_body, decode_replicate_record, key_of}

abbrev pub key_bytes : Option Bytes → Bytes
key_bytes none = []
key_bytes (some key) = key

-- A key that is there is not empty: an empty one is read back as none.
abbrev pub IsKey : Option Bytes → Type 0
IsKey none = Unit {0}
IsKey (some key) = 0 < length key

pub record IsReplicated (x : Externals) (r : ReplicateRecord) : Type 0 where
  pub topic : validate_topic r.topic ≡ ok tt
  pub utf8 : x.is_utf8 r.topic ≡ true
  pub partition : IsU32 r.partition
  pub offset : IsU64 r.offset
  pub timestamp : IsU64 r.timestamp_ms
  pub leader : IsU32 r.leader_id
  pub epoch : IsU64 r.leader_epoch
  pub key : IsKey r.key
  pub key_fits : key_size r.key ≤ max_key_size
  pub value_fits : length r.value ≤ max_message_size

key_size-bytes : (key : Option Bytes) → key_size key ≡ length (key_bytes key)
key_size-bytes none = refl
key_size-bytes (some key) = refl

pub extend_key-extends :
    (key : Option Bytes) (buffer : Bytes) → extend_key key buffer ≡ (ok tt, buffer ++ key_bytes key)
unfolding extend
extend_key-extends none buffer = rw append-nil refl
extend_key-extends (some key) buffer = refl

key_of-bytes : (key : Option Bytes) → IsKey key → key_of (key_bytes key) ≡ key
key_of-bytes none h = refl
key_of-bytes (some []) h = absurd (omega arith)
key_of-bytes (some (b ∷ key)) h = refl

bool_code_bound : (b : Bool) → bool_code b < 2
bool_code_bound true = omega arith
bool_code_bound false = omega arith

bool_code-back : (b : Bool) → (bool_code b == 1) ≡ b
bool_code-back true = refl
bool_code-back false = refl

module _ (x : Externals) (r : ReplicateRecord) (h : IsReplicated x r) where
  abbrev value_fields : List Bytes
  value_fields = be 2 (key_size r.key) ∷ key_bytes r.key ∷ be 4 (length r.value) ∷ r.value ∷ []

  abbrev number_fields : List Bytes
  number_fields =
      be 4 r.partition
      ∷ be 8 r.offset
      ∷ be 8 r.timestamp_ms
      ∷ be 1 (bool_code r.durable)
      ∷ be 4 r.leader_id
      ∷ be 8 r.leader_epoch
      ∷ value_fields

  abbrev replicated_fields : List Bytes
  replicated_fields = be 1 Opcodes.replicate_record ∷ string_field r.topic ∷ number_fields

  total-number_fields : total number_fields ≡ 39 + key_size r.key + length r.value
  total-number_fields = omega (
    arith,
    length-be 4 r.partition,
    length-be 8 r.offset,
    length-be 8 r.timestamp_ms,
    length-be 1 (bool_code r.durable),
    length-be 4 r.leader_id,
    length-be 8 r.leader_epoch,
    length-be 2 (key_size r.key),
    length-be 4 (length r.value),
    key_size-bytes r.key,
  )

  total-replicated_fields :
      (total replicated_fields ≤ max_frame_size) × (0 < total replicated_fields)
  total-replicated_fields = omega (
    arith,
    total-number_fields,
    length-be 1 Opcodes.replicate_record,
    length-string_field r.topic,
    (topic_sizes r.topic h.topic).1,
    h.key_fits,
    h.value_fits,
  )

  encode_replicate_record-frame :
      (buffer : Bytes)
      → encode_replicate_record r buffer ≡ (ok tt, buffer ++ frame (concat replicated_fields))
  unfolding encode_replicate_record extend validate_size try_from
  encode_replicate_record-frame buffer = rw (
    h.topic,
    le→ltb_false max_key_size (key_size r.key) h.key_fits,
    le→ltb_false max_message_size (length r.value) h.value_fits,
    encode_string-extends r.topic (buffer ++ be 4 0 ++ be 1 Opcodes.replicate_record)
        (omega (arith, (topic_sizes r.topic h.topic).1)),
    lt→ltb (key_size r.key) (2 ^ 16) (omega (arith, h.key_fits)),
    extend_key-extends r.key,
    lt→ltb (length r.value) (2 ^ 32) (omega (arith, h.value_fits)),
    set_frame_len-written 0 buffer replicated_fields (omega (arith, total-replicated_fields)),
  )

  decode_replicate_body-fields : decode_replicate_body x (concat replicated_fields) ≡ ok (r, [])
  unfolding decode_replicate_body ensure_empty validate_size
  decode_replicate_body-fields = rw (
    get_uint-be 1 Opcodes.replicate_record _ (omega arith),
    decode_string-field x r.topic _ (omega (arith, (topic_sizes r.topic h.topic).1), h.utf8),
    ensure_remaining-le 35 (concat number_fields)
        (omega (arith, length-concat number_fields, total-number_fields)),
    get_uint-be 4 r.partition _ h.partition,
    get_uint-be 8 r.offset _ h.offset,
    get_uint-be 8 r.timestamp_ms _ h.timestamp,
    get_uint-be 1 (bool_code r.durable) _ (omega (arith, bool_code_bound r.durable)),
    le→ltb_false 1 (bool_code r.durable) (omega (arith, bool_code_bound r.durable)),
    get_uint-be 4 r.leader_id _ h.leader,
    get_uint-be 8 r.leader_epoch _ h.epoch,
    read_len-be_two (key_size r.key) _ (omega (arith, h.key_fits)),
    key_size-bytes r.key,
    read_bytes-append (key_bytes r.key) _,
    read_len-be_four (length r.value) _ (omega (arith, h.value_fits)),
    le→ltb_false max_message_size (length r.value) h.value_fits,
    read_bytes-append r.value [],
    key_of-bytes r.key h.key,
    bool_code-back r.durable,
  )

-- A record whose topic, key and value the limits allow, whose numbers are in the range of their types
-- and whose key is absent or not empty is sent in a frame with no error, and the follower reads that
-- record back from the bytes and leaves what follows them.
pub decode_replicate_record-encode_replicate_record :
    (x : Externals) (r : ReplicateRecord) (buffer rest : Bytes)
    → IsReplicated x r
    → (bytes : Bytes) × (encode_replicate_record r buffer ≡ (ok tt, buffer ++ bytes))
      × (decode_replicate_record x (bytes ++ rest) ≡ ok (some r, rest))
unfolding decode_replicate_record
decode_replicate_record-encode_replicate_record x r buffer rest h = (
  frame (concat (replicated_fields x r h)),
  encode_replicate_record-frame x r h buffer,
  decode_frame-frame (decode_replicate_body x) (concat (replicated_fields x r h)) rest [] r
      (omega (arith, size, total-replicated_fields x r h))
      (omega (arith, size, total-replicated_fields x r h)) (decode_replicate_body-fields x r h),
)
  where
    size : length (concat (replicated_fields x r h)) ≡ total (replicated_fields x r h)
    size = length-concat (replicated_fields x r h)
