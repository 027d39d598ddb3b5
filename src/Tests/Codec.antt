-- ===== src/Tests/Codec.antt =====
-- The codec of crates/protocol/src/lib.rs on one request.
use sevlamq.Prelude.{
  ltb, ◌+◌, ◌≤◌, ◌/◌, subst, length, ◌^◌, ◌≡◌, ◌≢◌, refl, arith, true, Option, none, some, [], ◌∷◌,
}
use sevlamq.Protocol.Types.{Bytes, Request, commit_offset}
use sevlamq.Protocol.Result.{panic}
use sevlamq.Protocol.Externals.{Externals, IsLossless}
use sevlamq.Protocol.Request.DecodeGroup.{decode_request}
use sevlamq.Protocol.Request.RoundTrip.Total.{RoundTrips, decode_request-encode_request}
use sevlamq.Protocol.Safety.Dispatch.{decode_request_total}

-- A compression that stores the text, with a byte before it.
abbrev pub stored : Externals
stored = record {
  is_utf8 = λ bytes. true;
  compress = λ text. some (0 ∷ text);
  decompress = λ packed capacity. unpack packed;
  reserves = λ count. ltb count 4096;
}
  where
    unpack : Bytes → Option Bytes
    unpack [] = none
    unpack (b ∷ text) = some text

packed_form : (text packed : Bytes) → some (0 ∷ text) ≡ some packed → 0 ∷ text ≡ packed
packed_form text packed h = ground arith

stored-IsLossless : IsLossless stored
stored-IsLossless = record {
  decompress-compress = λ text packed capacity e fits.
      subst (λ bytes. stored.decompress bytes capacity ≡ some text) (packed_form text packed e)
        refl;
  length-compress = λ text packed e.
      subst (λ bytes. length bytes ≤ length text + length text / 256 + 64)
        (packed_form text packed e) (omega arith);
}

abbrev request : Request
request = commit_offset (record {
  group = b'g' ∷ [];
  topic = b't' ∷ [];
  member = b'm' ∷ [];
  generation = 3;
  partition = 1;
  offset = 2 ^ 40;
})

decode_request-encode_request_example : RoundTrips stored request (7 ∷ []) (9 ∷ [])
decode_request-encode_request_example =
    decode_request-encode_request stored stored-IsLossless request (7 ∷ []) (9 ∷ []) (
      ((omega arith, refl), (omega arith, refl), (omega arith, refl)),
      omega arith,
      omega arith,
      omega arith,
    )

decode_request_total_example : decode_request stored (0 ∷ 0 ∷ 0 ∷ 2 ∷ 5 ∷ 9 ∷ []) ≢ panic
decode_request_total_example = decode_request_total stored (0 ∷ 0 ∷ 0 ∷ 2 ∷ 5 ∷ 9 ∷ [])
