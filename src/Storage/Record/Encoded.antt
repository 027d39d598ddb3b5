-- ===== src/Storage/Record/Encoded.antt =====
-- The bytes that `encode_record` of crates/storage/src/lib.rs writes where it succeeds.
use sevlamq.Prelude.{
  Option, arith, leb, leb→le, length, length-append, ltb, none, refl, some, ℕ, ◌++◌, ◌+◌, ◌^◌, ◌≡◌,
  ◌≤◌,
}
use sevlamq.Protocol.Types.{Bytes}
use sevlamq.Protocol.Writer.{be}
use sevlamq.Protocol.Primitives.{length-be}
use sevlamq.Storage.Types.{
  Checks, Record, bind-ok, crc_size, guard-ok, max_record_size, ok, ok_injective, record_too_large,
}
use sevlamq.Storage.Record.{
  body_len, bytes_of, check_producer_id, encode_body, encode_record, field_len, id_of,
}

pub length-be_append : (w n : ℕ) (rest : Bytes) → length (be w n ++ rest) ≡ w + length rest
length-be_append w n rest = omega (arith, length-append (be w n) rest, length-be w n)

length-bytes_of : (field : Option Bytes) → length (bytes_of field) ≡ field_len field
length-bytes_of none = refl
length-bytes_of (some bytes) = refl

pub length-encode_body : (r : Record) (offset : ℕ) → length (encode_body r offset) ≡ body_len r
unfolding encode_body
length-encode_body r offset = omega (arith, length-be_append, length-append {0}, length-bytes_of)

unfoldable pub record_bytes : Checks → Record → ℕ → Bytes
record_bytes x r offset =
    be 4 (crc_size + body_len r) ++ (be 4 (x.hash (encode_body r offset)) ++ encode_body r offset)

pub length-record_bytes :
    (x : Checks) (r : Record) (offset : ℕ) → length (record_bytes x r offset) ≡ 8 + body_len r
unfolding record_bytes
length-record_bytes x r offset = omega (
  arith,
  length-append (be 4 (crc_size + body_len r))
      (be 4 (x.hash (encode_body r offset)) ++ encode_body r offset),
  length-append (be 4 (x.hash (encode_body r offset))) (encode_body r offset),
  length-be 4 (crc_size + body_len r),
  length-be 4 (x.hash (encode_body r offset)),
  length-encode_body r offset,
)

pub encode_record-ok :
    (x : Checks) (r : Record) (offset : ℕ) (bytes : Bytes)
    → encode_record x r offset ≡ ok bytes
    → (record_bytes x r offset ≡ bytes)
      × (crc_size + body_len r ≤ max_record_size)
      × (check_producer_id r.producer ≡ ok tt)
unfolding encode_record record_bytes
encode_record-ok x r offset bytes h =
    let (fits, h1) =
      guard-ok (leb (crc_size + body_len r) max_record_size) record_too_large _ bytes h in
    let (_, valid, h2) = bind-ok (check_producer_id r.producer) _ bytes h1 in
    let (_, h3) =
      guard-ok (ltb (field_len (id_of r.producer)) (2 ^ 31)) record_too_large _ bytes h2 in
    let (_, h4) = guard-ok (ltb (field_len r.key) (2 ^ 31)) record_too_large _ bytes h3 in
    let (_, h5) = guard-ok (ltb (length r.value) (2 ^ 32)) record_too_large _ bytes h4 in
    (ok_injective _ bytes h5, leb→le (crc_size + body_len r) max_record_size fits, valid)
