-- ===== src/Storage/Record/Safety.antt =====
-- The reads of `decode_record` of crates/storage/src/lib.rs, and the buffers that they need.
use sevlamq.Prelude.{
  Bool, Bool-cases, Option, [], arith, drop, false, if◌then◌else◌, inl, inr, length, length-drop,
  length-take, ltb, ltb_false→le, none, refl, some, take, true, ℕ, ◌+◌, ◌-◌, ◌==◌, ◌^◌, ◌||◌, ◌∷◌,
  ◌≡◌, ◌≢◌, ◌≤◌,
}
use sevlamq.Protocol.Types.{Bytes}
use sevlamq.Protocol.Reader.{get_be}
use sevlamq.Protocol.Safety.{get_be_total}
use sevlamq.Storage.Reader.{Reader, ◌>>=◌, ◌>>◌, pure, raise, get, ensure, read_bytes, ensure_empty}
use sevlamq.Storage.Types.{
  Checks, Result, StorageError, StoredRecord, bind, err, invalid_producer_id, invalid_record,
  length_size, max_record_size, min_record_size, ok, panic, record_version, record_version_v1,
  unsupported_version,
}
use sevlamq.Storage.Record.{
  absent, check_crc, decode_body, decode_encoded, decode_key, decode_of_len, decode_producer_id,
  decode_producer_len, decode_record, signed_len, value_of,
}

-- On a buffer of at least `k` bytes the reader does not panic.
record Safe (k : ℕ) {A : Type 0} (m : Reader A) : Type 0 where
  run : (buffer : Bytes) → k ≤ length buffer → m buffer ≢ panic

module _ {A : Type 0} where
  Safe-pure : (k : ℕ) (a : A) → Safe k (pure a)
  Safe-pure k a = record { run = λ buffer h e. cc }

  Safe-raise : (k : ℕ) (error : StorageError) → Safe k (raise {A = A} error)
  Safe-raise k error = record { run = λ buffer h e. cc }

  Safe-if : (k : ℕ) (b : Bool) (m n : Reader A) → Safe k m → Safe k n → Safe k (if b then m else n)
  Safe-if k true m n s t = s
  Safe-if k false m n s t = t

module _ {A B : Type 0} where
  Safe-bind :
      (k : ℕ) (m : Reader A) (f : A → Reader B)
      → Safe k m
      → ((a : A) → Safe 0 (f a))
      → Safe k (m >>= f)
  Safe-bind k m f s t = record { run = λ buffer h. go buffer (m buffer) (s.run buffer h) }
    where
      go :
          (buffer : Bytes) (r : Result (A × Bytes))
          → r ≢ panic
          → bind r (λ (a, rest). f a rest) ≢ panic
      go buffer (ok (a, rest)) p = (t a).run rest (omega arith)
      go buffer (err error) p = λ e. cc
      go buffer panic p = absurd (p refl)

module _ {B : Type 0} where
  Safe-get :
      (w k : ℕ) (f : ℕ → Reader B) → w ≤ k → ((n : ℕ) → Safe (k - w) (f n)) → Safe k (get w >>= f)
  unfolding get
  Safe-get w k f h t = record {
    run = λ buffer l. go buffer l (get_be_total w buffer (omega arith));
  }
    where
      go :
          (buffer : Bytes)
          → k ≤ length buffer
          → (n : ℕ) × (rest : Bytes) × (get_be w buffer ≡ some (n, rest))
            × (length rest + w ≡ length buffer)
          → (get w >>= f) buffer ≢ panic
      go buffer l (n, rest, e, r) = rw e ((t n).run rest (omega arith))

  Safe-ensure : (n k : ℕ) (m : Reader B) → Safe n m → Safe k (ensure n >> m)
  unfolding ensure
  Safe-ensure n k m s = record {
    run = λ buffer l. elim (Bool-cases (ltb (length buffer) n)) [
      | inl e ↦ rw e (λ p. cc)
      | inr e ↦ rw e (s.run buffer (ltb_false→le (length buffer) n e))
    ];
  }

  -- A check that reads nothing.
  Safe-check :
      (k : ℕ) (b : Bool) (error : StorageError) (m : Reader B)
      → Safe k m
      → Safe k ((if b then pure tt else raise error) >> m)
  Safe-check k true error m s = record { run = s.run }
  Safe-check k false error m s = record { run = λ buffer h e. cc }

Safe-bytes : (len : ℕ) → Safe 0 (read_bytes len)
unfolding read_bytes
Safe-bytes len = record {
  run = λ buffer h. elim (Bool-cases (ltb (length buffer) len)) [
    | inl e ↦ rw e (λ p. cc)
    | inr e ↦ rw e (λ p. cc)
  ];
}

Safe-signed_len : (k len : ℕ) → Safe k (signed_len len)
Safe-signed_len k len =
    Safe-if k (len == absent) _ _ (Safe-pure k none)
      (Safe-if k (ltb len (2 ^ 31)) _ _ (Safe-pure k (some len)) (Safe-raise k invalid_record))

Safe-producer_len : (version : ℕ) → Safe 0 (decode_producer_len version)
unfolding decode_producer_len
Safe-producer_len version =
    Safe-if 0 (version == record_version) _ _
      (Safe-ensure 12 0 _ (
        Safe-get 4 12 _ (omega arith) λ len.
          Safe-get 8 8 _ (omega arith)
            λ sequence. Safe-bind 0 _ _ (Safe-signed_len 0 len) λ found. Safe-pure 0 _))
      (Safe-pure 0 none)

Safe-producer_id : (x : Checks) (len : Option (ℕ × ℕ)) → Safe 0 (decode_producer_id x len)
unfolding decode_producer_id
Safe-producer_id x none = Safe-pure 0 none
Safe-producer_id x (some (len, sequence)) =
    Safe-bind 0 _ _ (Safe-bytes len)
      λ id. Safe-if 0 (x.is_utf8 id) _ _ (Safe-pure 0 _) (Safe-raise 0 invalid_producer_id)

Safe-key : (len : Option ℕ) → Safe 0 (decode_key len)
unfolding decode_key
Safe-key none = Safe-pure 0 none
Safe-key (some len) = Safe-bind 0 _ _ (Safe-bytes len) λ key. Safe-pure 0 (some key)

ensure_empty_total : (buffer : Bytes) → ensure_empty buffer ≢ panic
unfolding ensure_empty
ensure_empty_total [] e = cc
ensure_empty_total (b ∷ rest) e = cc

Safe-body : (x : Checks) → Safe 17 (decode_body x)
unfolding decode_body
Safe-body x = Safe-get 1 17 _ (omega arith) λ version.
    Safe-check 16 (version == record_version_v1 || version == record_version)
      (unsupported_version version) _
      (Safe-get 8 16 _ (omega arith) λ offset. Safe-get 8 8 _ (omega arith) λ timestamp_ms.
        Safe-bind 0 _ _ (Safe-producer_len version) λ producer_len. Safe-ensure 8 0 _ (
          Safe-get 4 8 _ (omega arith) λ key_len. Safe-get 4 4 _ (omega arith) λ value_len.
            Safe-bind 0 _ _ (Safe-producer_id x producer_len) λ producer.
              Safe-bind 0 _ _ (Safe-signed_len 0 key_len) λ len.
                Safe-bind 0 _ _ (Safe-key len) λ key.
                  Safe-bind 0 _ _ (Safe-bytes value_len) λ value.
                    Safe-bind 0 _ _ (record { run = λ buffer h. ensure_empty_total buffer })
                      λ _. Safe-pure 0 _))

Safe-encoded : (x : Checks) → Safe min_record_size (decode_encoded x)
unfolding decode_encoded check_crc
Safe-encoded x = Safe-get 4 min_record_size _ (omega arith) λ expected_crc. record {
  run = λ buffer h. elim (Bool-cases (x.hash buffer == expected_crc)) [
    | inl e ↦ rw e ((Safe-body x).run buffer (omega arith))
    | inr e ↦ rw e (λ p. cc)
  ];
}

-- Whatever bytes stand in the buffer, `decode_record` does not read past the end of a record: it
-- returns one, asks for more bytes, or reports an error.
pub decode_record_total : (x : Checks) (buffer : Bytes) → decode_record x buffer ≢ panic
unfolding decode_record decode_of_len
decode_record_total x buffer = elim (Bool-cases (ltb (length buffer) length_size)) [
  | inl short ↦ rw short (λ p. cc)
  | inr long ↦
      rw long (of_len (value_of (get_be length_size buffer)) (ltb_false→le (length buffer) 4 long))
]
  where
    found :
        (len : ℕ) (r : Result (StoredRecord × Bytes))
        → r ≢ panic
        → bind {B = Option StoredRecord × Bytes} r
            (λ (stored, left). ok (some stored, drop len (drop length_size buffer)))
          ≢ panic
    found len (ok (stored, left)) p = λ e. cc
    found len (err error) p = λ e. cc
    found len panic p = absurd (p refl)

    of_len : (len : ℕ) → 4 ≤ length buffer → decode_of_len x len buffer ≢ panic
    of_len len header = elim (Bool-cases (ltb len min_record_size)) [
      | inl small ↦ rw small (λ p. cc)
      | inr large ↦ elim (Bool-cases (ltb max_record_size len)) [
        | inl huge ↦ rw (large, huge) (λ p. cc)
        | inr fits ↦ elim (Bool-cases (ltb (length buffer) (length_size + len))) [
          | inl torn ↦ rw (large, fits, torn) (λ p. cc)
          | inr whole ↦
              (let enough = ltb_false→le (length buffer) (length_size + len) whole in
                let low = ltb_false→le len min_record_size large in
                rw (large, fits, whole)
                  (found len _ (
                    (Safe-encoded x).run (take len (drop length_size buffer)) (
                      omega (
                        arith,
                        length-take len (drop length_size buffer),
                        length-drop length_size buffer,
                        enough,
                        low,
                        header,
                      )))))
        ]
      ]
    ]
