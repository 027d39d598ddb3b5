-- ===== src/Protocol/Request/RoundTrip/BatchFrame.antt =====
-- The frame of a batch: the compressed records behind the topic, the codes and the sizes.
use sevlamq.Protocol.Opcodes
use sevlamq.Prelude.{
  ==_iff, All, List, Option-cases, [], arith, inl, inr, length, length-append, le→ltb_false,
  lt→==_false, lt→ltb, refl, true, ℕ, ◌++◌, ◌+◌, ◌-◌, ◌/◌, ◌<◌, ◌^◌, ◌∷◌, ◌≡◌, ◌≤◌,
}
use sevlamq.Protocol.Types.{
  BatchRecord, Bytes, Compression, ProduceBatchRequest, max_batch_messages, max_frame_size,
  max_topic_name, max_uncompressed_batch_size, uncompressed, zstd,
}
use sevlamq.Protocol.Result.{ok}
use sevlamq.Protocol.Externals.{Externals, IsLossless}
use sevlamq.Protocol.Reader.{ensure_empty, from_utf8, validate_size}
use sevlamq.Protocol.Writer.{be, extend, try_from}
use sevlamq.Protocol.Primitives.{
  ensure_remaining-le, get_uint-be, length-be, read_bytes-append, read_len-be_four, read_len-be_two,
}
use sevlamq.Protocol.Layout.{
  concat, ensure_remaining-concat, frame, length-concat, length-frame, set_frame_len-written, total,
  written-concat,
}
use sevlamq.Protocol.Request.Encode.{
  ack_code, compress_records, compression_code, encode_batch_records, encode_produce_batch,
  is_some_code, unwrap_or_default,
}
use sevlamq.Protocol.Request.Decode.{
  compression_from_code, decode_batch_records, decode_produce_batch, decompress_records, flag_check,
}
use sevlamq.Protocol.Request.RoundTrip.Produce.{
  IsPartition, ack_code_small, ack_from_code-code, partition_codes_small, partition_fields,
  partition_of-codes, total-partition_fields,
}
use sevlamq.Protocol.Request.RoundTrip.Batch.{
  HasSizes, IsBatch, batch_bounds, Sizes, batch_bytes, encode_batch_entries-written, entry_fields,
  length-batch_bytes, repeat-entries,
}

module _ (x : Externals) (lossless : IsLossless x) where
  -- The compressed records are no longer than this, and decompress to the records.
  pub compress_records-length :
      (c : Compression) (text packed : Bytes)
      → compress_records x c text ≡ ok packed
      → length packed ≤ length text + length text / 256 + 64
  unfolding compress_records
  compress_records-length uncompressed text packed h = ground arith
  compress_records-length zstd text packed h = elim (Option-cases (x.compress text)) [
    | inl e ↦ absurd (ground (arith, e))
    | inr (b, e) ↦ ground (arith, lossless.length-compress text b)
  ]

  pub decompress-compress :
      (c : Compression) (text packed : Bytes)
      → compress_records x c text ≡ ok packed
      → length text ≤ max_uncompressed_batch_size
      → decompress_records x c packed ≡ ok text
  unfolding compress_records decompress_records
  decompress-compress uncompressed text packed h small = ground arith
  decompress-compress zstd text packed h small = elim (Option-cases (x.compress text)) [
    | inl e ↦ absurd (ground (arith, e))
    | inr (b, e) ↦
        ground (arith, lossless.decompress-compress text packed max_uncompressed_batch_size)
  ]

pub compression_from_code-code :
    (c : Compression) → compression_from_code (compression_code c) ≡ ok c
unfolding compression_from_code
compression_from_code-code uncompressed = refl
compression_from_code-code zstd = refl

compression_code_small : (c : Compression) → compression_code c < 256
compression_code_small uncompressed = omega arith
compression_code_small zstd = omega arith

module _ (r : ProduceBatchRequest) (packed : Bytes) where
  abbrev pub batch_tail : List Bytes
  batch_tail =
      be 1 (ack_code r.ack_mode)
      ∷ be 1 (compression_code r.compression)
      ∷ be 4 (length (batch_bytes r.records))
      ∷ be 4 (length packed)
      ∷ packed
      ∷ partition_fields r.partition

  abbrev pub batch_body : List Bytes
  batch_body = be 2 (length r.topic) ∷ r.topic ∷ batch_tail

  abbrev pub batch_fields : List Bytes
  batch_fields = be 1 Opcodes.produce_batch ∷ batch_body

  pub total-batch_fields : total batch_fields ≡ 18 + length r.topic + length packed
  total-batch_fields = omega (
    arith,
    total-partition_fields r.partition,
    length-be 1 Opcodes.produce_batch,
    length-be 2 (length r.topic),
    length-be 1 (ack_code r.ack_mode),
    length-be 1 (compression_code r.compression),
    length-be 4 (length (batch_bytes r.records)),
    length-be 4 (length packed),
  )

  tail_room : 10 ≤ total batch_tail
  tail_room =
      omega
        (arith, total-batch_fields, length-be 1 Opcodes.produce_batch, length-be 2 (length r.topic))

encode_batch_records-written :
    (records : List BatchRecord)
    → All HasSizes records
    → length records ≤ max_batch_messages
    → encode_batch_records records [] ≡ (ok tt, batch_bytes records)
unfolding encode_batch_records try_from extend
encode_batch_records-written records h few = rw (
  lt→ltb (length records) (2 ^ 32) (omega arith),
  encode_batch_entries-written records (be 4 (length records)) h,
  written-concat (be 4 (length records)) (entry_fields records),
)

module _ (x : Externals) (lossless : IsLossless x) (r : ProduceBatchRequest) (packed : Bytes)
    (valid : IsBatch r)
    (compressed : compress_records x r.compression (batch_bytes r.records) ≡ ok packed) where
  sizes : Sizes r.topic r.records
  sizes = batch_bounds r valid

  bytes_bound : length (batch_bytes r.records) ≤ max_uncompressed_batch_size
  bytes_bound = let s = sizes in omega (arith, length-batch_bytes r.records)

  pub packed_bound : length packed < 3200000
  packed_bound = omega (
    arith,
    bytes_bound,
    compress_records-length x lossless r.compression (batch_bytes r.records) packed compressed,
  )

  batch_size : length (concat (batch_fields r packed)) ≡ 18 + length r.topic + length packed
  batch_size = omega (arith, total-batch_fields r packed, length-concat (batch_fields r packed))

  frame_size : (a : ℕ) → a + (4 + length (concat (batch_fields r packed))) - a - 4 ≤ max_frame_size
  frame_size a = let s = sizes in omega (arith, batch_size, packed_bound)

  pub encode_produce_batch-frame :
      (buffer : Bytes)
      → encode_produce_batch x r buffer ≡ (ok tt, buffer ++ frame (concat (batch_fields r packed)))
  unfolding encode_produce_batch try_from extend validate_size
  encode_produce_batch-frame buffer =
      let s = sizes in
      rw (
        encode_batch_records-written r.records s.entries s.count_bound,
        compressed,
        lt→ltb (length r.topic) (2 ^ 16) (omega arith),
        lt→ltb (length (batch_bytes r.records)) (2 ^ 32) (omega (arith, bytes_bound)),
        lt→ltb (length packed) (2 ^ 32) (omega (arith, packed_bound)),
        set_frame_len-written 0 buffer (batch_fields r packed)
            (omega (arith, total-batch_fields r packed, packed_bound)),
        length-append buffer (frame (concat (batch_fields r packed))),
        length-frame (concat (batch_fields r packed)),
        le→ltb_false max_frame_size _ (frame_size (length buffer)),
      )

decode_batch_records-bytes :
    (topic : Bytes) (records : List BatchRecord)
    → Sizes topic records
    → decode_batch_records (batch_bytes records) ≡ ok (records, [])
unfolding decode_batch_records ensure_empty
decode_batch_records-bytes topic records s = rw (
  read_len-be_four (length records) _ (few records s.count_bound),
  lt→==_false (length records) 0 s.count_pos,
  le→ltb_false max_batch_messages (length records) s.count_bound,
  repeat-entries records s.entries,
)
  where
    few :
        (records : List BatchRecord) → length records ≤ max_batch_messages → length records < 2 ^ 32
    few records h = omega arith

module _ (x : Externals) (lossless : IsLossless x) (r : ProduceBatchRequest) (packed : Bytes)
    (valid : IsBatch r)
    (compressed : compress_records x r.compression (batch_bytes r.records) ≡ ok packed)
    (u : x.is_utf8 r.topic ≡ true) (hn : IsPartition r.partition) where
  pub decode_produce_batch-body : decode_produce_batch x (concat (batch_body r packed)) ≡ ok (r, [])
  unfolding decode_produce_batch ensure_empty validate_size from_utf8 flag_check
  decode_produce_batch-body =
      let s = batch_bounds r valid in
      let text = batch_bytes r.records in
      let text_bound = bytes_bound x lossless r packed valid compressed in
      let packed_small = packed_bound x lossless r packed valid compressed in
      let codes = partition_codes_small r.partition hn in
      rw (
        read_len-be_two (length r.topic) _ (omega (arith, s.topic_bound)),
        le→ltb_false max_topic_name (length r.topic) s.topic_bound,
        read_bytes-append r.topic _,
        u,
        ensure_remaining-concat 10 (batch_tail r packed) (tail_room r packed),
        get_uint-be 1 (ack_code r.ack_mode) _ (ack_code_small r.ack_mode),
        ack_from_code-code r.ack_mode,
        get_uint-be 1 (compression_code r.compression) _ (compression_code_small r.compression),
        compression_from_code-code r.compression,
        read_len-be_four (length text) _ (omega (arith, text_bound)),
        le→ltb_false max_uncompressed_batch_size (length text) text_bound,
        read_len-be_four (length packed) _ (omega (arith, packed_small)),
        read_bytes-append packed _,
        ensure_remaining-le 5 (concat (partition_fields r.partition)) (
            omega (
              arith,
              length-concat (partition_fields r.partition),
              total-partition_fields r.partition,
            )),
        get_uint-be 1 (is_some_code r.partition) _ (omega arith),
        get_uint-be 4 (unwrap_or_default r.partition) _ codes.1,
        le→ltb_false 1 (is_some_code r.partition) codes.0,
        decompress-compress x lossless r.compression text packed compressed text_bound,
        (==_iff (length text) (length text)).1 refl,
        decode_batch_records-bytes r.topic r.records s,
        valid,
        partition_of-codes r.partition,
      )
