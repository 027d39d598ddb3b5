-- ===== src/Protocol/Request/RoundTrip/Strings.antt =====
-- Requests that begin with strings: what `encode_string_request` writes.
use sevlamq.Prelude.{
  All, List, [], append-nil, arith, length, refl, subst, ℕ, ◌*◌, ◌++◌, ◌+◌, ◌<◌, ◌^◌, ◌∷◌, ◌≡◌, ◌≤◌,
}
use sevlamq.Protocol.Types.{Bytes}
use sevlamq.Protocol.Result.{ok}
use sevlamq.Protocol.Writer.{be, extend, set_frame_len}
use sevlamq.Protocol.Primitives.{length-be}
use sevlamq.Protocol.Layout.{
  concat, encode_string-extends, frame, length-string_field, set_frame_len-extended,
  set_frame_len-written, string_field, total, written,
}
use sevlamq.Protocol.Request.Encode.{encode_string_request, encode_strings}

abbrev pub IsShort : Bytes → Type 0
IsShort value = length value < 2 ^ 16

abbrev pub string_fields : List Bytes → List Bytes
string_fields [] = []
string_fields (value ∷ values) = string_field value ∷ string_fields values

encode_strings-written :
    (values : List Bytes) (buffer : Bytes)
    → All IsShort values
    → encode_strings values buffer ≡ (ok tt, written buffer (string_fields values))
unfolding encode_strings
encode_strings-written [] buffer h = refl
encode_strings-written (value ∷ values) buffer h =
    rw (encode_string-extends value buffer h.0)
      (encode_strings-written values (buffer ++ string_field value) h.1)

-- The opcode, the strings, and what follows them.
abbrev pub request_fields : ℕ → List Bytes → List Bytes → List Bytes
request_fields opcode values rest = be 1 opcode ∷ (string_fields values ++ rest)

total-strings :
    (values rest : List Bytes)
    → All IsShort values
    → total (string_fields values ++ rest) ≤ 65538 * length values + total rest
total-strings [] rest h = omega arith
total-strings (value ∷ values) rest h =
    omega (arith, length-string_field value, total-strings values rest h.1)

-- At most three strings and a short rest.
abbrev pub IsRequest : List Bytes → List Bytes → Type 0
IsRequest values rest = All IsShort values × (length values ≤ 3) × (total rest < 2 ^ 16)

pub request_size :
    (opcode : ℕ) (values rest : List Bytes)
    → IsRequest values rest
    → total (request_fields opcode values rest) < 2 ^ 20
request_size opcode values rest h = omega (arith, length-be 1 opcode, total-strings values rest h.0)

-- `encode_string_request` appends a whole frame and returns where it starts.
pub encode_string_request-frame :
    (opcode : ℕ) (values : List Bytes) (buffer : Bytes)
    → IsRequest values []
    → encode_string_request opcode values buffer
      ≡ (ok (length buffer), buffer ++ frame (concat (request_fields opcode values [])))
unfolding encode_string_request extend
encode_string_request-frame opcode values buffer h = rw (
  encode_strings-written values (buffer ++ be 4 0 ++ be 1 opcode) h.0,
  append-nil (string_fields values),
  set_frame_len-written 0 buffer (be 1 opcode ∷ string_fields values) small,
)
  where
    small : total (be 1 opcode ∷ string_fields values) < 2 ^ 32
    small =
        subst (λ fields. total (be 1 opcode ∷ fields) < 2 ^ 32) (append-nil (string_fields values))
          (omega (arith, request_size opcode values [] h))

-- More fields behind that frame become part of it.
pub set_frame_len-request :
    (opcode : ℕ) (values rest : List Bytes) (buffer : Bytes)
    → IsRequest values rest
    → set_frame_len
        (length buffer)
        (written (buffer ++ frame (concat (request_fields opcode values []))) rest)
      ≡ (ok tt, buffer ++ frame (concat (request_fields opcode values rest)))
set_frame_len-request opcode values rest buffer h = rw (append-nil (string_fields values)) (
    set_frame_len-extended buffer (be 1 opcode ∷ string_fields values) rest
      (omega (arith, request_size opcode values rest h)))
