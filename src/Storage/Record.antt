-- ===== src/Storage/Record.antt =====
-- The format of a record of crates/storage/src/lib.rs: its length, its checksum, and its body.
pub mod Encoded
pub mod RoundTrip
pub mod Safety
pub mod Torn
use sevlamq.Prelude.{
  Option, [], all, drop, if◌then◌else◌, is_empty, is_identifier_byte, leb, length, ltb, none, not,
  some, take, ℕ, ◌++◌, ◌+◌, ◌-◌, ◌==◌, ◌^◌, ◌||◌,
}
use sevlamq.Protocol.Types.{Bytes}
use sevlamq.Protocol.Writer.{be}
use sevlamq.Protocol.Reader.{get_be}
use sevlamq.Storage.Reader.{Reader, ◌>>=◌, ◌>>◌, pure, raise, get, ensure, read_bytes, ensure_empty}
use sevlamq.Storage.Types.{
  Checks, ProducerIdentity, Record, Result, StoredRecord, bind, body_fixed_size, checksum_mismatch,
  crc_size, err, guard, invalid_producer_id, invalid_record, length_size, max_record_size,
  min_record_size, ok, record_too_large, record_version, record_version_v1, unsupported_version,
}

unfoldable pub validate_producer_id : Bytes → Result (Unit {0})
validate_producer_id id =
    if is_empty id || ltb 249 (length id) || not (all is_identifier_byte id)
    then err invalid_producer_id
    else ok tt

abbrev pub field_len : Option Bytes → ℕ
field_len none = 0
field_len (some bytes) = length bytes

abbrev pub id_of : Option ProducerIdentity → Option Bytes
id_of none = none
id_of (some producer) = some producer.id

-- An `i32` of -1.
abbrev pub absent : ℕ
absent = 2 ^ 32 - 1

-- The length of a field as an `i32`, or -1.
abbrev pub len_or_absent : Option Bytes → ℕ
len_or_absent none = absent
len_or_absent (some bytes) = length bytes

abbrev pub sequence_of : Option ProducerIdentity → ℕ
sequence_of none = 0
sequence_of (some producer) = producer.sequence

abbrev pub bytes_of : Option Bytes → Bytes
bytes_of none = []
bytes_of (some bytes) = bytes

unfoldable pub encode_body : Record → ℕ → Bytes
encode_body r offset =
    be 1 record_version
    ++ (be 8 offset
        ++ (be 8 r.timestamp_ms
            ++ (be 4 (len_or_absent (id_of r.producer))
                ++ (be 8 (sequence_of r.producer)
                    ++ (be 4 (len_or_absent r.key)
                        ++ (be 4 (length r.value)
                            ++ (bytes_of (id_of r.producer) ++ (bytes_of r.key ++ r.value))))))))

abbrev pub body_len : Record → ℕ
body_len r = body_fixed_size + field_len (id_of r.producer) + field_len r.key + length r.value

-- `i32::try_from` of a length.
abbrev pub fits_i32 : Option Bytes → Result (Unit {0})
fits_i32 field = guard (ltb (field_len field) (2 ^ 31)) record_too_large

abbrev pub check_producer_id : Option ProducerIdentity → Result (Unit {0})
check_producer_id none = ok tt
check_producer_id (some producer) = validate_producer_id producer.id

unfoldable pub encode_record : Checks → Record → ℕ → Result Bytes
encode_record x r offset =
    let record_len = crc_size + body_len r in
    let body = encode_body r offset in
    bind (guard (leb record_len max_record_size) record_too_large) λ _.
      bind (check_producer_id r.producer) λ _. bind (fits_i32 (id_of r.producer)) λ _.
        bind (fits_i32 r.key) λ _.
          bind (guard (ltb (length r.value) (2 ^ 32)) record_too_large)
            λ _. ok (be 4 record_len ++ (be 4 (x.hash body) ++ body))

-- What a length field of four bytes says: -1, a length, or an error.
abbrev pub signed_len : ℕ → Reader (Option ℕ)
signed_len len =
    if len == absent
    then pure none
    else if ltb len (2 ^ 31)
    then pure (some len)
    else raise invalid_record

abbrev pub with_sequence : ℕ → Option ℕ → Option (ℕ × ℕ)
with_sequence sequence none = none
with_sequence sequence (some len) = some (len, sequence)

-- Version 1 has no producer.
unfoldable pub decode_producer_len : ℕ → Reader (Option (ℕ × ℕ))
decode_producer_len version =
    if version == record_version
    then (do
      ensure 12
      producer_len ← get 4
      sequence ← get 8
      len ← signed_len producer_len
      pure (with_sequence sequence len))
    else pure none

unfoldable pub decode_producer_id : Checks → Option (ℕ × ℕ) → Reader (Option ProducerIdentity)
decode_producer_id x none = pure none
decode_producer_id x (some (len, sequence)) = do
  id ← read_bytes len
  if x.is_utf8 id
      then pure (some (record { id = id; sequence = sequence }))
      else raise invalid_producer_id

unfoldable pub decode_key : Option ℕ → Reader (Option Bytes)
decode_key none = pure none
decode_key (some len) = do key ← read_bytes len; pure (some key)

unfoldable pub decode_body : Checks → Reader StoredRecord
decode_body x = do
  version ← get 1
  (if version == record_version_v1 || version == record_version
      then pure tt
      else raise (unsupported_version version))
  offset ← get 8
  timestamp_ms ← get 8
  producer_len ← decode_producer_len version
  ensure 8
  key_len ← get 4
  value_len ← get 4
  producer ← decode_producer_id x producer_len
  len ← signed_len key_len
  key ← decode_key len
  value ← read_bytes value_len
  ensure_empty
  pure (record {
    offset = offset;
    timestamp_ms = timestamp_ms;
    key = key;
    value = value;
    producer = producer;
  })

unfoldable pub check_crc : Checks → ℕ → Reader Unit
check_crc x expected_crc encoded =
    if x.hash encoded == expected_crc then ok (tt, encoded) else err checksum_mismatch

unfoldable pub decode_encoded : Checks → Reader StoredRecord
decode_encoded x = do expected_crc ← get 4; check_crc x expected_crc; decode_body x

-- The buffer after its length field, of which a record of `record_len` bytes is taken.
unfoldable pub decode_of_len : Checks → ℕ → Bytes → Result (Option StoredRecord × Bytes)
decode_of_len x record_len buffer =
    if ltb record_len min_record_size
    then err invalid_record
    else if ltb max_record_size record_len
    then err record_too_large
    else if ltb (length buffer) (length_size + record_len)
    then ok (none, buffer)
    else bind (decode_encoded x (take record_len (drop length_size buffer)))
        λ (stored, left). ok (some stored, drop record_len (drop length_size buffer))

abbrev pub value_of : Option (ℕ × Bytes) → ℕ
value_of none = 0
value_of (some (n, rest)) = n

unfoldable pub decode_record : Checks → Bytes → Result (Option StoredRecord × Bytes)
decode_record x buffer =
    if ltb (length buffer) length_size
    then ok (none, buffer)
    else decode_of_len x (value_of (get_be length_size buffer)) buffer
