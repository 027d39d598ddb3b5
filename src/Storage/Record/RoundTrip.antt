-- ===== src/Storage/Record/RoundTrip.antt =====
-- `decode_record` of crates/storage/src/lib.rs on what `encode_record` writes.
use sevlamq.Prelude.{
  ==_iff, Option, [], append-nil, append_assoc, arith, drop, drop-append, length, length-append,
  le→ltb_false, lt→==_false_left, lt→ltb, none, refl, some, subst, take, take-append, true, ℕ, ◌++◌,
  ◌+◌, ◌<◌, ◌^◌, ◌≡◌, ◌≤◌,
}
use sevlamq.Protocol.Types.{Bytes}
use sevlamq.Protocol.Writer.{be}
use sevlamq.Protocol.Primitives.{get_be-be, length-be}
use sevlamq.Storage.Reader.{get, ensure, read_bytes, ensure_empty}
use sevlamq.Storage.Types.{
  Checks, ProducerIdentity, Record, StoredRecord, crc_size, max_record_size, min_record_size, ok,
  record_version,
}
use sevlamq.Storage.Record.{
  absent, body_len, bytes_of, check_crc, decode_body, decode_encoded, decode_key, decode_of_len,
  decode_producer_id, decode_producer_len, decode_record, encode_body, encode_record, field_len,
  id_of, len_or_absent, sequence_of, signed_len, with_sequence,
}
use sevlamq.Storage.Record.Encoded.{
  encode_record-ok, length-be_append, length-encode_body, record_bytes,
}

pub get-be : (w n : ℕ) (rest : Bytes) → n < 256 ^ w → get w (be w n ++ rest) ≡ ok (n, rest)
unfolding get
get-be w n rest h = rw (get_be-be w n rest h)

pub ensure-le : (n : ℕ) (buffer : Bytes) → n ≤ length buffer → ensure n buffer ≡ ok (tt, buffer)
unfolding ensure
ensure-le n buffer h = rw (le→ltb_false (length buffer) n h)

-- A guard on fields of known sizes at the front.
ensure-two :
    (n a b u v : ℕ) (rest : Bytes)
    → n ≤ a + b
    → ensure n (be a u ++ (be b v ++ rest)) ≡ ok (tt, be a u ++ (be b v ++ rest))
ensure-two n a b u v rest h = ensure-le n (be a u ++ (be b v ++ rest)) (
    omega (
      arith,
      length-append (be a u) (be b v ++ rest),
      length-append (be b v) rest,
      length-be a u,
      length-be b v,
    ))

read_bytes-append :
    (bytes rest : Bytes) → read_bytes (length bytes) (bytes ++ rest) ≡ ok (bytes, rest)
unfolding read_bytes
read_bytes-append bytes rest = rw (
  le→ltb_false (length (bytes ++ rest)) (length bytes) (omega (arith, length-append bytes rest)),
  take-append bytes rest,
  drop-append bytes rest,
)

read_bytes-all : (bytes : Bytes) → read_bytes (length bytes) bytes ≡ ok (bytes, [])
read_bytes-all bytes =
    subst (λ whole. read_bytes (length bytes) whole ≡ ok (bytes, [])) (append-nil bytes)
      (read_bytes-append bytes [])

-- A field whose length fits an `i32`.
abbrev pub IsField : Option Bytes → Type 0
IsField none = Unit {0}
IsField (some bytes) = length bytes < 2 ^ 31

abbrev len_of : Option Bytes → Option ℕ
len_of none = none
len_of (some bytes) = some (length bytes)

len_or_absent_bound : (field : Option Bytes) → IsField field → len_or_absent field < 2 ^ 32
len_or_absent_bound none h = omega arith
len_or_absent_bound (some bytes) h = omega arith

signed_len-len :
    (field : Option Bytes) (buffer : Bytes)
    → IsField field
    → signed_len (len_or_absent field) buffer ≡ ok (len_of field, buffer)
signed_len-len none buffer h = refl
signed_len-len (some bytes) buffer h =
    rw (lt→==_false_left (length bytes) absent (omega arith), lt→ltb (length bytes) (2 ^ 31) h)

-- A producer that the program can hold.
abbrev pub IsIdentity : Checks → Option ProducerIdentity → Type 0
IsIdentity x none = Unit {0}
IsIdentity x (some producer) =
    (length producer.id < 2 ^ 31) × (producer.sequence < 2 ^ 64) × (x.is_utf8 producer.id ≡ true)

IsField-id : (x : Checks) (p : Option ProducerIdentity) → IsIdentity x p → IsField (id_of p)
IsField-id x none h = tt
IsField-id x (some producer) h = h.0

sequence_bound :
    (x : Checks) (p : Option ProducerIdentity) → IsIdentity x p → sequence_of p < 2 ^ 64
sequence_bound x none h = omega arith
sequence_bound x (some producer) h = h.1

abbrev head_of : Option ProducerIdentity → Option (ℕ × ℕ)
head_of p = with_sequence (sequence_of p) (len_of (id_of p))

decode_producer_len-head :
    (x : Checks) (p : Option ProducerIdentity) (rest : Bytes)
    → IsIdentity x p
    → decode_producer_len record_version
        (be 4 (len_or_absent (id_of p)) ++ (be 8 (sequence_of p) ++ rest))
      ≡ ok (head_of p, rest)
unfolding decode_producer_len
decode_producer_len-head x p rest h = rw (
  ensure-two 12 4 8 (len_or_absent (id_of p)) (sequence_of p) rest (omega arith),
  get-be 4 (len_or_absent (id_of p)) (be 8 (sequence_of p) ++ rest)
      (len_or_absent_bound (id_of p) (IsField-id x p h)),
  get-be 8 (sequence_of p) rest (sequence_bound x p h),
  signed_len-len (id_of p) rest (IsField-id x p h),
)

decode_producer_id-bytes :
    (x : Checks) (p : Option ProducerIdentity) (rest : Bytes)
    → IsIdentity x p
    → decode_producer_id x (head_of p) (bytes_of (id_of p) ++ rest) ≡ ok (p, rest)
unfolding decode_producer_id
decode_producer_id-bytes x none rest h = refl
decode_producer_id-bytes x (some producer) rest (h, s, u) =
    rw (read_bytes-append producer.id rest, u)

decode_key-bytes :
    (key : Option Bytes) (rest : Bytes)
    → decode_key (len_of key) (bytes_of key ++ rest) ≡ ok (key, rest)
unfolding decode_key
decode_key-bytes none rest = refl
decode_key-bytes (some bytes) rest = rw (read_bytes-append bytes rest)

-- A record that the program can hold, with its offset.
pub record IsRecord (x : Checks) (r : Record) (offset : ℕ) : Type 0 where
  pub identity : IsIdentity x r.producer
  pub key_fits : IsField r.key
  pub value_fits : length r.value < 2 ^ 32
  pub offset_fits : offset < 2 ^ 64
  pub timestamp_fits : r.timestamp_ms < 2 ^ 64

-- The record as it is read back.
abbrev pub stored : Record → ℕ → StoredRecord
stored r offset = record {
  offset = offset;
  timestamp_ms = r.timestamp_ms;
  key = r.key;
  value = r.value;
  producer = r.producer;
}

decode_body-body :
    (x : Checks) (r : Record) (offset : ℕ)
    → IsRecord x r offset
    → decode_body x (encode_body r offset) ≡ ok (stored r offset, [])
unfolding decode_body encode_body ensure_empty
decode_body-body x r offset h = rw (
  get-be 1 record_version (be 8 offset ++ after_offset) (omega arith),
  get-be 8 offset after_offset h.offset_fits,
  get-be 8 r.timestamp_ms after_timestamp h.timestamp_fits,
  decode_producer_len-head x r.producer after_head h.identity,
  ensure-two 8 4 4 (len_or_absent r.key) (length r.value) fields (omega arith),
  get-be 4 (len_or_absent r.key) (be 4 (length r.value) ++ fields)
      (len_or_absent_bound r.key h.key_fits),
  get-be 4 (length r.value) fields h.value_fits,
  decode_producer_id-bytes x r.producer (bytes_of r.key ++ r.value) h.identity,
  signed_len-len r.key (bytes_of r.key ++ r.value) h.key_fits,
  decode_key-bytes r.key r.value,
  read_bytes-all r.value,
)
  where
    fields : Bytes
    fields = bytes_of (id_of r.producer) ++ (bytes_of r.key ++ r.value)

    after_head : Bytes
    after_head = be 4 (len_or_absent r.key) ++ (be 4 (length r.value) ++ fields)

    after_timestamp : Bytes
    after_timestamp =
        be 4 (len_or_absent (id_of r.producer)) ++ (be 8 (sequence_of r.producer) ++ after_head)

    after_offset : Bytes
    after_offset = be 8 r.timestamp_ms ++ after_timestamp

decode_encoded-encoded :
    (x : Checks) (r : Record) (offset : ℕ)
    → IsRecord x r offset
    → x.hash (encode_body r offset) < 2 ^ 32
    → decode_encoded x (be 4 (x.hash (encode_body r offset)) ++ encode_body r offset)
      ≡ ok (stored r offset, [])
unfolding decode_encoded check_crc
decode_encoded-encoded x r offset h fits = rw (
  get-be 4 (x.hash (encode_body r offset)) (encode_body r offset) fits,
  (==_iff (x.hash (encode_body r offset)) (x.hash (encode_body r offset))).1 refl,
  decode_body-body x r offset h,
)

-- `decode_record` takes a whole record off the buffer.
decode_record-whole :
    (x : Checks) (len : ℕ) (encoded rest : Bytes) (found : StoredRecord)
    → length encoded ≡ len
    → min_record_size ≤ len
    → len ≤ max_record_size
    → decode_encoded x encoded ≡ ok (found, [])
    → decode_record x (be 4 len ++ (encoded ++ rest)) ≡ ok (some found, rest)
unfolding decode_record decode_of_len
decode_record-whole x len encoded rest found size low high e = rw (
  le→ltb_false (length whole) 4 (omega (arith, total)),
  get_be-be 4 len (encoded ++ rest) (omega arith),
  le→ltb_false len min_record_size low,
  le→ltb_false max_record_size len high,
  le→ltb_false (length whole) (4 + len) (omega (arith, total)),
  drop_header,
  taken,
  e,
  dropped,
)
  where
    whole : Bytes
    whole = be 4 len ++ (encoded ++ rest)

    total : length whole ≡ 4 + (len + length rest)
    total = omega (
      arith,
      length-append (be 4 len) (encoded ++ rest),
      length-be 4 len,
      length-append encoded rest,
      size,
    )

    drop_header : drop 4 whole ≡ encoded ++ rest
    drop_header =
        subst (λ k. drop k whole ≡ encoded ++ rest) (length-be 4 len)
          (drop-append (be 4 len) (encoded ++ rest))

    taken : take len (encoded ++ rest) ≡ encoded
    taken = subst (λ k. take k (encoded ++ rest) ≡ encoded) size (take-append encoded rest)

    dropped : drop len (encoded ++ rest) ≡ rest
    dropped = subst (λ k. drop k (encoded ++ rest) ≡ rest) size (drop-append encoded rest)

-- The `u64` numbers of a record are in range, and the id of its producer is a `String`.
abbrev pub IsSequenced : Checks → Option ProducerIdentity → Type 0
IsSequenced x none = Unit {0}
IsSequenced x (some producer) = (producer.sequence < 2 ^ 64) × (x.is_utf8 producer.id ≡ true)

abbrev pub IsHeld : Checks → Record → ℕ → Type 0
IsHeld x r offset = (offset < 2 ^ 64) × (r.timestamp_ms < 2 ^ 64) × IsSequenced x r.producer

small-IsIdentity :
    (x : Checks) (p : Option ProducerIdentity)
    → field_len (id_of p) < 2 ^ 31
    → IsSequenced x p
    → IsIdentity x p
small-IsIdentity x none small h = tt
small-IsIdentity x (some producer) small (s, u) = (small, s, u)

small-IsField : (field : Option Bytes) → field_len field < 2 ^ 31 → IsField field
small-IsField none small = tt
small-IsField (some bytes) small = small

pub small-IsRecord :
    (x : Checks) (r : Record) (offset : ℕ)
    → crc_size + body_len r ≤ max_record_size
    → IsHeld x r offset
    → IsRecord x r offset
small-IsRecord x r offset small (o, t, s) = record {
  identity = small-IsIdentity x r.producer (omega arith) s;
  key_fits = small-IsField r.key (omega arith);
  value_fits = omega arith;
  offset_fits = o;
  timestamp_fits = t;
}

pub decode_record-record_bytes :
    (x : Checks) (r : Record) (offset : ℕ) (rest : Bytes)
    → crc_size + body_len r ≤ max_record_size
    → IsHeld x r offset
    → x.hash (encode_body r offset) < 2 ^ 32
    → decode_record x (record_bytes x r offset ++ rest) ≡ ok (some (stored r offset), rest)
unfolding record_bytes
decode_record-record_bytes x r offset rest small held fits = rw append_assoc (
    decode_record-whole x (crc_size + body_len r)
      (be 4 (x.hash (encode_body r offset)) ++ encode_body r offset) rest (stored r offset)
      (omega (arith, length-be_append, length-encode_body r offset)) (omega arith) small
      (decode_encoded-encoded x r offset (small-IsRecord x r offset small held) fits))

-- What `encode_record` writes without an error, `decode_record` reads back, and it leaves what
-- follows, if the checksum has 32 bits, the numbers of the record are in the range of `u64`, and the
-- id of its producer is UTF-8.
pub decode_record-encode_record :
    (x : Checks) (r : Record) (offset : ℕ) (bytes rest : Bytes)
    → ((text : Bytes) → x.hash text < 2 ^ 32)
    → IsHeld x r offset
    → encode_record x r offset ≡ ok bytes
    → decode_record x (bytes ++ rest) ≡ ok (some (stored r offset), rest)
decode_record-encode_record x r offset bytes rest crc held e =
    let (same, small, valid) = encode_record-ok x r offset bytes e in
    subst (λ front. decode_record x (front ++ rest) ≡ ok (some (stored r offset), rest)) same
      (decode_record-record_bytes x r offset rest small held (crc (encode_body r offset)))
