-- ===== src/Protocol/Request/RoundTrip/Batch.antt =====
-- Batched produce requests: the records, their compression, and the frame around them.
use sevlamq.Prelude.{
  All, List, [], arith, false, is_empty, length, le→ltb_false, lt→ltb, none, refl, ℕ, ◌++◌, ◌+◌,
  ◌<◌, ◌^◌, ◌∷◌, ◌≡◌, ◌≤◌,
}
use sevlamq.Protocol.Types.{
  AckMode, BatchRecord, Bytes, Compression, ProduceBatchRequest, max_batch_messages, max_key_size,
  max_message_size, max_topic_name, max_uncompressed_batch_size,
}
use sevlamq.Protocol.Result.{ok}
use sevlamq.Protocol.Reader.{validate_size}
use sevlamq.Protocol.Writer.{be, extend, try_from}
use sevlamq.Protocol.Primitives.{length-be, read_bytes-append, read_len-be_four, read_len-be_two}
use sevlamq.Protocol.Validate.{batch_size, new_produce_batch, validate_topic}
use sevlamq.Protocol.Layout.{concat, length-concat, total, written}
use sevlamq.Protocol.Request.Encode.{encode_batch_entries}
use sevlamq.Protocol.Request.Decode.{decode_batch_entry, repeat}
use sevlamq.Protocol.Request.RoundTrip.Produce.{topic_sizes}

-- What `ProduceBatchRequest::new` returns; `with_partition` may then set the partition.
abbrev pub IsBatch : ProduceBatchRequest → Type 0
IsBatch r =
    new_produce_batch r.topic r.records r.ack_mode r.compression
    ≡ ok (record r { partition = none })

abbrev pub entry_fields : List BatchRecord → List Bytes
entry_fields [] = []
entry_fields (entry ∷ rest) =
    be 2 (length entry.key)
    ∷ entry.key
    ∷ be 4 (length entry.payload)
    ∷ entry.payload
    ∷ entry_fields rest

-- The uncompressed records of a batch.
abbrev pub batch_bytes : List BatchRecord → Bytes
batch_bytes records = concat (be 4 (length records) ∷ entry_fields records)

abbrev pub HasSizes : BatchRecord → Type 0
HasSizes entry = (length entry.key ≤ max_key_size) × (length entry.payload ≤ max_message_size)

batch_size-total :
    (records : List BatchRecord) (acc n : ℕ)
    → batch_size records acc ≡ ok n
    → (n ≡ acc + total (entry_fields records)) × All HasSizes records
unfolding batch_size validate_size
batch_size-total [] acc n h = (ground arith, tt)
batch_size-total (entry ∷ rest) acc n h = ground (
  arith,
  batch_size-total rest (acc + (2 + length entry.key + 4 + length entry.payload)) n,
  length-be 2 (length entry.key),
  length-be 4 (length entry.payload),
)

pub encode_batch_entries-written :
    (records : List BatchRecord) (buffer : Bytes)
    → All HasSizes records
    → encode_batch_entries records buffer ≡ (ok tt, written buffer (entry_fields records))
unfolding encode_batch_entries extend try_from
encode_batch_entries-written [] buffer h = refl
encode_batch_entries-written (entry ∷ rest) buffer h =
    rw
      (
        lt→ltb (length entry.key) (2 ^ 16) (omega arith),
        lt→ltb (length entry.payload) (2 ^ 32) (omega arith),
      )
      (encode_batch_entries-written rest
        (written buffer
          (be 2 (length entry.key) ∷ entry.key ∷ be 4 (length entry.payload) ∷ entry.payload ∷ []))
        h.1)

decode_batch_entry-fields :
    (entry : BatchRecord) (rest : Bytes)
    → HasSizes entry
    → decode_batch_entry (
        be 2 (length entry.key)
        ++ (entry.key ++ (be 4 (length entry.payload) ++ (entry.payload ++ rest))))
      ≡ ok (entry, rest)
unfolding decode_batch_entry validate_size
decode_batch_entry-fields entry rest h = rw (
  read_len-be_two (length entry.key) _ (omega arith),
  le→ltb_false max_key_size (length entry.key) h.0,
  read_bytes-append entry.key _,
  read_len-be_four (length entry.payload) _ (omega arith),
  le→ltb_false max_message_size (length entry.payload) h.1,
  read_bytes-append entry.payload _,
)

pub repeat-entries :
    (records : List BatchRecord)
    → All HasSizes records
    → repeat (length records) decode_batch_entry (concat (entry_fields records)) ≡ ok (records, [])
unfolding repeat
repeat-entries [] h = refl
repeat-entries (entry ∷ rest) h =
    rw (decode_batch_entry-fields entry (concat (entry_fields rest)) h.0, repeat-entries rest h.1)

-- What the checks of `ProduceBatchRequest::new` say of the sizes.
pub record Sizes (topic : Bytes) (records : List BatchRecord) : Type 0 where
  pub topic_bound : length topic ≤ max_topic_name
  pub count_pos : 0 < length records
  pub count_bound : length records ≤ max_batch_messages
  pub entries : All HasSizes records
  pub bytes_bound : 4 + total (entry_fields records) ≤ max_uncompressed_batch_size

new_produce_batch-checks :
    (topic : Bytes) (records : List BatchRecord) (ack : AckMode) (c : Compression)
    {r : ProduceBatchRequest}
    → new_produce_batch topic records ack c ≡ ok r
    → (validate_topic topic ≡ ok tt)
      × (is_empty records ≡ false)
      × (length records ≤ max_batch_messages)
      × ((n : ℕ) × (batch_size records 4 ≡ ok n) × (n ≤ max_uncompressed_batch_size))
unfolding new_produce_batch validate_size
new_produce_batch-checks topic records ack c h = ground arith

is_empty-false : (records : List BatchRecord) → is_empty records ≡ false → 0 < length records
is_empty-false [] h = cc
is_empty-false (entry ∷ rest) h = omega arith

pub batch_bounds : (r : ProduceBatchRequest) → IsBatch r → Sizes r.topic r.records
batch_bounds r h =
    let (topic, some_records, few, (n, size, fits)) =
      new_produce_batch-checks r.topic r.records r.ack_mode r.compression h in
    let (exact, entries) = batch_size-total r.records 4 n size in
    record {
      topic_bound = (topic_sizes r.topic topic).1;
      count_pos = is_empty-false r.records some_records;
      count_bound = few;
      entries = entries;
      bytes_bound = omega arith;
    }

pub length-batch_bytes :
    (records : List BatchRecord) → length (batch_bytes records) ≡ 4 + total (entry_fields records)
length-batch_bytes records = omega (
  arith,
  length-be 4 (length records),
  length-concat (be 4 (length records) ∷ entry_fields records),
)
