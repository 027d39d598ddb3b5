-- ===== src/Protocol/Response/RoundTrip.antt =====
-- The fields of the responses of crates/protocol/src/lib.rs, and the loops over them.
pub mod Items
pub mod Topics
pub mod Shape
pub mod Encoded
pub mod Decoded
pub mod Total
use sevlamq.Prelude.{
  All, List, [], all, ap, append_assoc, arith, length, length-append, le→ltb_false, refl, sym, ℕ,
  ◌*◌, ◌++◌, ◌+◌, ◌-◌, ◌<◌, ◌^◌, ◌∙◌, ◌∷◌, ◌≡◌, ◌≤◌,
}
use sevlamq.Protocol.Types.{Bytes, ProduceAck, max_frame_size, frame_header_size}
use sevlamq.Protocol.Result.{ok}
use sevlamq.Protocol.Reader.{Reader, get_uint, get_u32, get_u64}
use sevlamq.Protocol.Writer.{Writer, be, extend, put_u32, put_u64}
use sevlamq.Protocol.Primitives.{get_uint-be, length-be}
use sevlamq.Protocol.Layout.{
  IsU32, IsU64, concat, concat-append, frame, length-concat, set_frame_len-written, total, written,
  written-append, written-concat,
}
use sevlamq.Protocol.Request.Decode.{repeat}
use sevlamq.Protocol.Response.Encode.{finish_or_truncate, put_ack, put_all}
use sevlamq.Protocol.Response.Decode.{decode_acks, decode_numbers}

abbrev pub fields_of {ℓ} : {A : Type ℓ} → (A → List Bytes) → List A → List Bytes
fields_of fields [] = []
fields_of fields (a ∷ rest) = fields a ++ fields_of fields rest

abbrev pub numbers : ℕ → List ℕ → List Bytes
numbers width [] = []
numbers width (n ∷ rest) = be width n ∷ numbers width rest

abbrev pub ack_fields : ProduceAck → List Bytes
ack_fields ack = be 4 ack.partition ∷ be 8 ack.offset ∷ []

abbrev pub IsAck : ProduceAck → Type 0
IsAck ack = IsU32 ack.partition × IsU64 ack.offset

-- The fields in front of other bytes.
abbrev pub onto : List Bytes → Bytes → Bytes
onto [] rest = rest
onto (field ∷ fields) rest = field ++ onto fields rest

pub concat-onto : (fields : List Bytes) (rest : Bytes) → concat fields ++ rest ≡ onto fields rest
concat-onto [] rest = refl
concat-onto (field ∷ fields) rest =
    append_assoc field (concat fields) rest ∙ ap (λ l. field ++ l) (concat-onto fields rest)

pub onto-append :
    (xs ys : List Bytes) (rest : Bytes) → onto (xs ++ ys) rest ≡ concat xs ++ onto ys rest
onto-append [] ys rest = refl
onto-append (x ∷ xs) ys rest =
    ap (λ l. x ++ l) (onto-append xs ys rest) ∙ sym (append_assoc x (concat xs) (onto ys rest))

pub put_all-written :
    {A : Type 0} (put : A → Writer Unit) (fields : A → List Bytes) (P : A → Type 0)
    → ((a : A) (buffer : Bytes) → P a → put a buffer ≡ (ok tt, written buffer (fields a)))
    → (all : List A) (buffer : Bytes) → All P all
    → put_all put all buffer ≡ (ok tt, written buffer (fields_of fields all))
unfolding put_all
put_all-written put fields P each [] buffer h = refl
put_all-written put fields P each (a ∷ rest) buffer (h, hs) =
    rw (each a buffer h, written-append buffer (fields a) (fields_of fields rest))
      (put_all-written put fields P each rest (written buffer (fields a)) hs)

pub put_all-numbers :
    (width : ℕ) (all : List ℕ) (buffer : Bytes)
    → put_all (λ n. extend (be width n)) all buffer ≡ (ok tt, written buffer (numbers width all))
unfolding put_all extend
put_all-numbers width [] buffer = refl
put_all-numbers width (n ∷ rest) buffer = put_all-numbers width rest (buffer ++ be width n)

pub repeat-fields :
    {A : Type 0} (item : Reader A) (fields : A → List Bytes) (P : A → Type 0)
    → ((a : A) (rest : Bytes) → P a → item (concat (fields a) ++ rest) ≡ ok (a, rest))
    → (all : List A) (rest : Bytes) → All P all
    → repeat (length all) item (concat (fields_of fields all) ++ rest) ≡ ok (all, rest)
unfolding repeat
repeat-fields item fields P each [] rest h = refl
repeat-fields item fields P each (a ∷ all) rest (h, hs) = rw (
  concat-append (fields a) (fields_of fields all),
  append_assoc (concat (fields a)) (concat (fields_of fields all)) rest,
  each a (concat (fields_of fields all) ++ rest) h,
  repeat-fields item fields P each all rest hs,
)

pub decode_numbers-numbers :
    (width : ℕ) (all : List ℕ) (rest : Bytes)
    → All (λ n. n < 256 ^ width) all
    → decode_numbers (get_uint width) (length all) (concat (numbers width all) ++ rest)
      ≡ ok (all, rest)
unfolding decode_numbers
decode_numbers-numbers width [] rest h = refl
decode_numbers-numbers width (n ∷ all) rest (h, hs) = rw (
  append_assoc (be width n) (concat (numbers width all)) rest,
  get_uint-be width n (concat (numbers width all) ++ rest) h,
  decode_numbers-numbers width all rest hs,
)

pub decode_acks-fields :
    (acks : List ProduceAck)
    → All IsAck acks
    → decode_acks (length acks) (concat (fields_of ack_fields acks)) ≡ ok (acks, [])
unfolding decode_acks
decode_acks-fields [] h = refl
decode_acks-fields (ack ∷ acks) ((hp, ho), hs) =
    rw (get_uint-be 4 ack.partition _ hp, get_uint-be 8 ack.offset _ ho, decode_acks-fields acks hs)

pub total-numbers : (width : ℕ) (all : List ℕ) → total (numbers width all) ≡ length all * width
total-numbers width [] = omega arith
total-numbers width (n ∷ rest) = omega (arith, length-be width n, total-numbers width rest)

pub total-acks : (acks : List ProduceAck) → total (fields_of ack_fields acks) ≡ length acks * 12
total-acks [] = omega arith
total-acks (ack ∷ acks) =
    omega (arith, length-be 4 ack.partition, length-be 8 ack.offset, total-acks acks)

-- A frame whose length is written first.
pub written-frame :
    (n : ℕ) (buffer : Bytes) (fields : List Bytes)
    → total fields ≡ n
    → written (buffer ++ be 4 n) fields ≡ buffer ++ frame (concat fields)
unfolding frame
written-frame n buffer fields e =
    written-concat (buffer ++ be 4 n) fields
    ∙ (append_assoc buffer (be 4 n) (concat fields)
        ∙ ap (λ k. buffer ++ (be 4 k ++ concat fields)) (sym e ∙ sym (length-concat fields)))

pub finish-written :
    (k : ℕ) (buffer : Bytes) (fields : List Bytes)
    → total fields ≤ max_frame_size
    → finish_or_truncate (length buffer) (written (buffer ++ be 4 k) fields)
      ≡ (ok tt, buffer ++ frame (concat fields))
unfolding finish_or_truncate
finish-written k buffer fields h =
    rw
      (le→ltb_false max_frame_size (length (written (buffer ++ be 4 k) fields) - length buffer - 4)
        small)
      (set_frame_len-written k buffer fields (omega arith))
  where
    size : length (written (buffer ++ be 4 k) fields) ≡ length buffer + 4 + total fields
    size =
        ap length (written-concat (buffer ++ be 4 k) fields)
        ∙ omega (
          arith,
          length-append (buffer ++ be 4 k) (concat fields),
          length-append buffer (be 4 k),
          length-be 4 k,
          length-concat fields,
        )

    small : length (written (buffer ++ be 4 k) fields) - length buffer - 4 ≤ max_frame_size
    small = omega (arith, size, h)
