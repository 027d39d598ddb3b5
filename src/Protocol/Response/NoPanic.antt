-- ===== src/Protocol/Response/NoPanic.antt =====
-- `decode_response` of crates/protocol/src/lib.rs on any bytes: its reads, and the memory that it
-- reserves for the topics of a response.
use sevlamq.Prelude.{
  List, ==_iff, Option, some, none, refl, subst, sym, ap, ◌*◌, ◌+◌, ◌∷◌, ◌≡◌, Bool-cases, [], arith,
  inl, inr, length, ltb, true, ℕ, ◌*◌, ◌==◌, ◌≢◌,
}
use sevlamq.Protocol.Opcodes
use sevlamq.Protocol.Types.{TopicMetadata, Bytes}
use sevlamq.Protocol.Result.{Result, bind, ok, err, panic}
use sevlamq.Protocol.Externals.{Externals}
use sevlamq.Protocol.Request.Decode.{repeat}
use sevlamq.Protocol.Frame.{decode_body, decode_frame, take_frame}
use sevlamq.Protocol.Reader.{
  ensure_empty, or_panic, ◌>>=◌, ensure_remaining, get_be, get_uint, read_u32_len, Reader, pure,
  ◌>>◌,
}
use sevlamq.Protocol.Safety.Dispatch.{decode_frame_total}
use sevlamq.Protocol.Response.Decode.{
  with_capacity, decode_cluster_metadata, decode_error, decode_node, decode_response,
  decode_response_frame, decode_response_opcode, decode_topic, decode_topics_response,
}
use sevlamq.Protocol.Response.Safety.{Safe-response_frame, roomy}

-- If the frame is a topics response, there is memory for as many topics as it names.
abbrev pub HasRoom : Externals → Bytes → Type 0
HasRoom x body =
    (count : ℕ) (fields left : Bytes)
    → body ≡ Opcodes.topics_response ∷ fields
    → get_be 4 fields ≡ some (count, left)
    → x.reserves count ≡ true

or_panic-some :
    (o : Option (ℕ × Bytes)) (n : ℕ) (left : Bytes) → or_panic o ≡ ok (n, left) → o ≡ some (n, left)
or_panic-some none n left e = cc
or_panic-some (some a) n left e = cc

read_u32_len-get_be :
    (fields left : Bytes) (n : ℕ)
    → read_u32_len fields ≡ ok (n, left)
    → get_be 4 fields ≡ some (n, left)
unfolding read_u32_len ensure_remaining get_uint
read_u32_len-get_be fields left n = elim (Bool-cases (ltb (length fields) 4)) [
  | inl short ↦ rw short (λ e. cc)
  | inr enough ↦ rw enough (or_panic-some (get_be 4 fields) n left)
]

-- What follows the number of topics.
abbrev topics_rest : Externals → ℕ → Reader (List TopicMetadata)
topics_rest x count =
    with_capacity (x.reserves count)
    >> (repeat count (decode_topic x) >>= λ found. ensure_empty >> pure found)

module _ (x : Externals) where
  topics-roomy :
      (fields : Bytes)
      → ((count : ℕ) (left : Bytes)
          → get_be 4 fields ≡ some (count, left)
          → x.reserves count ≡ true)
      → decode_topics_response x fields ≡ decode_topics_response (roomy x) fields
  unfolding decode_topics_response decode_topic ensure_remaining
  topics-roomy fields room = elim (Bool-cases (ltb (length fields) 4)) [
    | inl short ↦ rw short refl
    | inr enough ↦ rw enough (counted (read_u32_len fields) refl)
  ]
    where
      counted :
          (r : Result (ℕ × Bytes))
          → read_u32_len fields ≡ r
          → bind (read_u32_len fields) (λ (count, left). topics_rest x count left)
            ≡ bind (read_u32_len fields) (λ (count, left). topics_rest (roomy x) count left)
      counted (ok (count, left)) e =
          rw (e, room count left (read_u32_len-get_be fields left count e)) refl
      counted (err error) e = rw e refl
      counted panic e = rw e refl

  opcode-roomy :
      (opcode : ℕ) (fields : Bytes)
      → (opcode ≡ Opcodes.topics_response
          → decode_topics_response x fields ≡ decode_topics_response (roomy x) fields)
      → decode_response_opcode x opcode fields ≡ decode_response_opcode (roomy x) opcode fields
  unfolding decode_response_opcode decode_cluster_metadata decode_node decode_error
  opcode-roomy opcode fields same = elim (Bool-cases (opcode == Opcodes.topics_response)) [
    | inr other ↦ rw other refl
    | inl topic ↦
        (let e = (==_iff opcode Opcodes.topics_response).0 topic in
          subst (λ o. decode_response_opcode x o fields ≡ decode_response_opcode (roomy x) o fields)
            (sym e) (rw (same e) refl))
  ]

  frame-roomy :
      (body : Bytes)
      → HasRoom x body
      → decode_response_frame x body ≡ decode_response_frame (roomy x) body
  unfolding decode_response_frame get_uint get_be
  frame-roomy [] room = refl
  frame-roomy (opcode ∷ fields) room = opcode-roomy (0 * 256 + opcode) fields λ is_topics.
      topics-roomy fields
        λ count left. room count fields left (ap (λ o. o ∷ fields) (omega (arith, is_topics)))

decode_frame-same :
    {A : Type 0} (d e : Reader A) (buffer : Bytes)
    → ((body rest : Bytes) → take_frame buffer ≡ ok (some body, rest) → d body ≡ e body)
    → decode_frame d buffer ≡ decode_frame e buffer
unfolding decode_frame
decode_frame-same {A} d e buffer same = go (take_frame buffer) refl
  where
    go :
        (r : Result (Option Bytes × Bytes))
        → take_frame buffer ≡ r
        → bind r (decode_body d) ≡ bind r (decode_body e)
    go (ok (some body, rest)) taken = rw (same body rest taken) refl
    go (ok (none, rest)) taken = refl
    go (err error) taken = refl
    go panic taken = refl

-- Whatever bytes a server sends, `decode_response` does not read past the end of a frame and does not
-- end the program, provided that there is memory for the topics where the frame is a topics response
-- and names a number of them.
pub decode_response_total :
    (x : Externals) (buffer : Bytes)
    → ((body rest : Bytes) → take_frame buffer ≡ ok (some body, rest) → HasRoom x body)
    → decode_response x buffer ≢ panic
unfolding decode_response
decode_response_total x buffer room =
    subst (λ r. r ≢ panic)
      (sym (
        decode_frame-same (decode_response_frame x) (decode_response_frame (roomy x)) buffer
          λ body rest taken. frame-roomy x body (room body rest taken)))
      (decode_frame_total (decode_response_frame (roomy x)) (Safe-response_frame x) buffer)
