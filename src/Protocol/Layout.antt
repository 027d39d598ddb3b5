-- ===== src/Protocol/Layout.antt =====
-- The layout of a frame: its length on four bytes, and the fields one behind the other.
use sevlamq.Prelude.{
  List, [], append-nil, append_assoc, arith, drop, drop-append, length, length-append, le→ltb_false,
  lt→==_false, lt→ltb, refl, some, subst, sym, take-append, true, ℕ, ◌++◌, ◌+◌, ◌<◌, ◌^◌, ◌∷◌, ◌≡◌,
  ◌≤◌,
}
use sevlamq.Protocol.Types.{Bytes, max_frame_size}
use sevlamq.Protocol.Result.{ok}
use sevlamq.Protocol.Externals.{Externals}
use sevlamq.Protocol.Reader.{Reader, decode_string, ensure_remaining}
use sevlamq.Protocol.Writer.{be, encode_string, extend, set_frame_len, try_from}
use sevlamq.Protocol.Frame.{decode_frame, take_frame, take_frame_of_len}
use sevlamq.Protocol.Primitives.{
  decode_string-append, ensure_remaining-le, get_be-be, length-be, set_frame_len-append,
}

abbrev pub concat : List Bytes → Bytes
concat [] = []
concat (field ∷ fields) = field ++ concat fields

abbrev pub total : List Bytes → ℕ
total [] = 0
total (field ∷ fields) = length field + total fields

-- A buffer to which fields were appended one at a time.
abbrev pub written : Bytes → List Bytes → Bytes
written buffer [] = buffer
written buffer (field ∷ fields) = written (buffer ++ field) fields

pub length-concat : (fields : List Bytes) → length (concat fields) ≡ total fields
length-concat [] = refl
length-concat (field ∷ fields) =
    omega (arith, length-append field (concat fields), length-concat fields)

pub concat-append : (xs ys : List Bytes) → concat (xs ++ ys) ≡ concat xs ++ concat ys
concat-append [] ys = refl
concat-append (x ∷ xs) ys = rw (concat-append xs ys, append_assoc)

pub written-concat :
    (buffer : Bytes) (fields : List Bytes) → written buffer fields ≡ buffer ++ concat fields
written-concat buffer [] = sym (append-nil buffer)
written-concat buffer (field ∷ fields) = rw (written-concat (buffer ++ field) fields, append_assoc)

pub written-append :
    (buffer : Bytes) (xs ys : List Bytes)
    → written buffer (xs ++ ys) ≡ written (written buffer xs) ys
written-append buffer [] ys = refl
written-append buffer (x ∷ xs) ys = written-append (buffer ++ x) xs ys

pub total-append : (xs ys : List Bytes) → total (xs ++ ys) ≡ total xs + total ys
total-append [] ys = omega arith
total-append (x ∷ xs) ys = omega (arith, total-append xs ys)

-- A string is preceded by its length on two bytes.
unfoldable pub string_field : Bytes → Bytes
string_field value = be 2 (length value) ++ value

pub length-string_field : (value : Bytes) → length (string_field value) ≡ 2 + length value
unfolding string_field
length-string_field value =
    omega (arith, length-append (be 2 (length value)) value, length-be 2 (length value))

unfoldable pub frame : Bytes → Bytes
frame body = be 4 (length body) ++ body

-- The frame of a message that was written behind a place for its length.
pub set_frame_len-written :
    (k : ℕ) (buffer : Bytes) (fields : List Bytes)
    → total fields < 2 ^ 32
    → set_frame_len (length buffer) (written (buffer ++ be 4 k) fields)
      ≡ (ok tt, buffer ++ frame (concat fields))
unfolding frame
set_frame_len-written k buffer fields h =
    rw (written-concat (buffer ++ be 4 k) fields, append_assoc)
      (set_frame_len-append k buffer (concat fields) (rw (length-concat fields) h))

-- The frame of a message that goes on after its length was set once.
pub set_frame_len-extended :
    (buffer : Bytes) (fields extra : List Bytes)
    → total (fields ++ extra) < 2 ^ 32
    → set_frame_len (length buffer) (written (buffer ++ frame (concat fields)) extra)
      ≡ (ok tt, buffer ++ frame (concat (fields ++ extra)))
unfolding frame
set_frame_len-extended buffer fields extra h =
    rw
      (
        written-concat (buffer ++ frame (concat fields)) extra,
        append_assoc,
        append_assoc,
        ← concat-append fields extra,
      )
      (set_frame_len-append (length (concat fields)) buffer (concat (fields ++ extra))
        (rw (length-concat (fields ++ extra)) h))

abbrev pub IsU16 : ℕ → Type 0
IsU16 n = n < 2 ^ 16

abbrev pub IsU32 : ℕ → Type 0
IsU32 n = n < 2 ^ 32

abbrev pub IsU64 : ℕ → Type 0
IsU64 n = n < 2 ^ 64

-- A string that fits a string field.
abbrev pub IsString : Externals → Bytes → Type 0
IsString x value = (length value < 2 ^ 16) × (x.is_utf8 value ≡ true)

pub encode_string-extends :
    (value buffer : Bytes)
    → length value < 2 ^ 16
    → encode_string value buffer ≡ (ok tt, buffer ++ string_field value)
unfolding encode_string try_from extend string_field
encode_string-extends value buffer h = rw (lt→ltb (length value) (2 ^ 16) h, append_assoc)

pub decode_string-field :
    (x : Externals) (value rest : Bytes)
    → IsString x value
    → decode_string x.is_utf8 (string_field value ++ rest) ≡ ok (value, rest)
unfolding string_field
decode_string-field x value rest h =
    rw append_assoc (decode_string-append x.is_utf8 value rest h.0 h.1)

-- A whole frame is taken off the buffer, and what follows it stays.
pub take_frame-frame :
    (body rest : Bytes)
    → 0 < length body
    → length body ≤ max_frame_size
    → take_frame (frame body ++ rest) ≡ ok (some body, rest)
unfolding take_frame take_frame_of_len frame
take_frame-frame body rest pos small = rw (
  append_assoc,
  le→ltb_false (length whole) 4 (omega (arith, total)),
  get_be-be 4 (length body) (body ++ rest) (omega arith),
  lt→==_false (length body) 0 pos,
  le→ltb_false max_frame_size (length body) small,
  append_assoc,
  le→ltb_false (length whole) (4 + length body) (omega (arith, total)),
  drop_header,
  take-append body rest,
  drop-append body rest,
)
  where
    whole : Bytes
    whole = be 4 (length body) ++ (body ++ rest)

    total : length whole ≡ 4 + (length body + length rest)
    total = rw (
      length-append (be 4 (length body)) (body ++ rest),
      length-be 4 (length body),
      length-append body rest,
    )

    drop_header : drop 4 whole ≡ body ++ rest
    drop_header =
        subst (λ k. drop k whole ≡ body ++ rest) (length-be 4 (length body))
          (drop-append (be 4 (length body)) (body ++ rest))

pub decode_frame-frame :
    {A : Type 0} (decoder : Reader A) (body rest left : Bytes) (value : A)
    → 0 < length body
    → length body ≤ max_frame_size
    → decoder body ≡ ok (value, left)
    → decode_frame decoder (frame body ++ rest) ≡ ok (some value, rest)
unfolding decode_frame
decode_frame-frame decoder body rest left value pos small e =
    rw (take_frame-frame body rest pos small, e)

pub length-frame : (body : Bytes) → length (frame body) ≡ 4 + length body
unfolding frame
length-frame body =
    omega (arith, length-append (be 4 (length body)) body, length-be 4 (length body))

-- A guard on the bytes of the fields that follow.
pub ensure_remaining-concat :
    (k : ℕ) (fields : List Bytes)
    → k ≤ total fields
    → ensure_remaining k (concat fields) ≡ ok (tt, concat fields)
ensure_remaining-concat k fields h =
    ensure_remaining-le k (concat fields) (omega (arith, length-concat fields))
