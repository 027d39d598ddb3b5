-- ===== src/Storage/Record/Torn.antt =====
-- `decode_record` of crates/storage/src/lib.rs on a record that is cut off.
use sevlamq.Prelude.{
  Bool-cases, List, [], ap, arith, inl, inr, length, length-take, le→ltb_false, ltb, ltb_false→le,
  ltb→lt, lt→ltb, none, suc, take, zero, ℕ, ◌++◌, ◌+◌, ◌-◌, ◌<◌, ◌∙◌, ◌∷◌, ◌≡◌, ◌≤◌,
}
use sevlamq.Protocol.Types.{Bytes}
use sevlamq.Protocol.Writer.{be}
use sevlamq.Protocol.Primitives.{length-be, get_be-be}
use sevlamq.Storage.Types.{Checks, Record, crc_size, max_record_size, min_record_size, ok}
use sevlamq.Storage.Record.{body_len, decode_of_len, decode_record, encode_body}
use sevlamq.Storage.Record.Encoded.{length-be_append, length-encode_body, record_bytes}

pub take-append_beyond {ℓ} :
    {A : Type ℓ} (m : ℕ) (xs ys : List A)
    → length xs ≤ m
    → take m (xs ++ ys) ≡ xs ++ take (m - length xs) ys
take-append_beyond m [] ys h = let same : m ≡ m - 0 = omega arith in ap (λ k. take k ys) same
take-append_beyond zero (x ∷ xs) ys h = absurd (omega arith)
take-append_beyond (suc m) (x ∷ xs) ys h =
    let same : m - length xs ≡ suc m - suc (length xs) = omega arith in
    ap (λ t. x ∷ t) (take-append_beyond m xs ys (omega arith) ∙ ap (λ k. xs ++ take k ys) same)

pub length-take_le {ℓ} : {A : Type ℓ} (n : ℕ) (xs : List A) → length (take n xs) ≤ n
length-take_le zero xs = omega arith
length-take_le (suc n) [] = omega arith
length-take_le (suc n) (x ∷ xs) = omega (arith, length-take_le n xs)

-- From four bytes on the length is there, and says that the record goes on.
torn_after_length :
    (x : Checks) (len n : ℕ) (encoded : Bytes)
    → length encoded ≡ len
    → min_record_size ≤ len
    → len ≤ max_record_size
    → n < len
    → decode_record x (be 4 len ++ take n encoded) ≡ ok (none, be 4 len ++ take n encoded)
unfolding decode_record decode_of_len
torn_after_length x len n encoded size low high short = rw (
  le→ltb_false (length torn) 4 (omega (arith, total)),
  get_be-be 4 len (take n encoded) (omega arith),
  le→ltb_false len min_record_size low,
  le→ltb_false max_record_size len high,
  lt→ltb (length torn) (4 + len) (omega (arith, total)),
)
  where
    torn : Bytes
    torn = be 4 len ++ take n encoded

    total : length torn ≡ 4 + n
    total = omega (arith, length-be_append, length-take n encoded)

pub decode_record-short :
    (x : Checks) (buffer : Bytes) → length buffer < 4 → decode_record x buffer ≡ ok (none, buffer)
unfolding decode_record
decode_record-short x buffer h = rw (lt→ltb (length buffer) 4 h)

-- A record that is cut off before its end is left in the buffer, with no error.
pub decode_record-torn :
    (x : Checks) (r : Record) (offset n : ℕ)
    → crc_size + body_len r ≤ max_record_size
    → n < length (record_bytes x r offset)
    → decode_record x (take n (record_bytes x r offset))
      ≡ ok (none, take n (record_bytes x r offset))
unfolding record_bytes
decode_record-torn x r offset n small short = elim (Bool-cases (ltb n 4)) [
  | inl few ↦
      let below = ltb→lt n 4 few in
      decode_record-short x (take n (be 4 len ++ encoded))
        (omega (arith, length-take_le n (be 4 len ++ encoded), below))
  | inr more ↦
      (let beyond = ltb_false→le n 4 more in
        let cut =
          take-append_beyond n (be 4 len) encoded (omega (arith, length-be 4 len, beyond)) in
        rw (cut, length-be 4 len)
          (torn_after_length x len (n - 4) encoded size (omega arith) small
            (omega (arith, total, short, beyond))))
]
  where
    len : ℕ
    len = crc_size + body_len r

    encoded : Bytes
    encoded = be 4 (x.hash (encode_body r offset)) ++ encode_body r offset

    size : length encoded ≡ len
    size = omega (arith, length-be_append, length-encode_body r offset)

    total : length (be 4 len ++ encoded) ≡ 4 + len
    total = omega (arith, length-be_append, size)
