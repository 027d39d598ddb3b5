-- ===== src/Storage/Segment/Layout.antt =====
-- The bytes of a segment of crates/storage/src/lib.rs: its records one after the other. A record that
-- `append` writes fits the limits.
use sevlamq.Prelude.{
  All, Bool, List, [], all, ap, append-nil, append_assoc, arith, false, length, length-append, some,
  subst, suc, sym, true, ℕ, ◌++◌, ◌+◌, ◌<◌, ◌^◌, ◌∙◌, ◌∷◌, ◌≡◌, ◌≤◌,
}
use sevlamq.Protocol.Types.{Bytes}
use sevlamq.Storage.Record.{body_len, encode_body, decode_record}
use sevlamq.Storage.Record.RoundTrip.{decode_record-record_bytes, IsHeld, stored}
use sevlamq.Storage.Segment.{IndexEntry, push_entry}
use sevlamq.Storage.Types.{Checks, Record, crc_size, max_record_size, ok}
use sevlamq.Storage.Record.Encoded.{length-record_bytes, record_bytes}

unfoldable pub encode_all : Checks → ℕ → List Record → Bytes
encode_all x base [] = []
encode_all x base (r ∷ rs) = record_bytes x r base ++ encode_all x (suc base) rs

abbrev pub Fits : Checks → ℕ → Record → Type 0
Fits x offset r = (crc_size + body_len r ≤ max_record_size) × IsHeld x r offset

abbrev pub AllFit : Checks → ℕ → List Record → Type 0
AllFit x base [] = Unit {0}
AllFit x base (r ∷ rs) = Fits x base r × AllFit x (suc base) rs

-- `hash` returns a `u32`.
abbrev pub IsCrc : Checks → Type 0
IsCrc x = (text : Bytes) → x.hash text < 2 ^ 32

-- An entry points at the first byte of a record.
pub record IsEntry (x : Checks) (base : ℕ) (rs : List Record) (entry : IndexEntry) : Type 0 where
  pub front : List Record
  pub back : List Record
  pub split : front ++ back ≡ rs
  pub offset_is : entry.offset ≡ base + length front
  pub position_is : entry.position ≡ length (encode_all x base front)

pub encode_all-append :
    (x : Checks) (base here : ℕ) (front back : List Record)
    → here ≡ base + length front
    → encode_all x base (front ++ back) ≡ encode_all x base front ++ encode_all x here back
unfolding encode_all
encode_all-append x base here [] back e =
    let same : base ≡ here = omega arith in ap (λ o. encode_all x o back) same
encode_all-append x base here (r ∷ front) back e =
    ap (λ rest. record_bytes x r base ++ rest)
      (encode_all-append x (suc base) here front back (omega arith))
    ∙ sym (
        append_assoc (record_bytes x r base) (encode_all x (suc base) front)
          (encode_all x here back))

pub length-encode_all_snoc :
    (x : Checks) (base here : ℕ) (front : List Record) (r : Record)
    → here ≡ base + length front
    → length (encode_all x base (front ++ r ∷ []))
      ≡ length (encode_all x base front) + length (record_bytes x r here)
unfolding encode_all
length-encode_all_snoc x base here front r e =
    rw (encode_all-append x base here front (r ∷ []) e, append-nil (record_bytes x r here))
      (length-append (encode_all x base front) (record_bytes x r here))

-- A record takes more than one byte.
pub length-encode_all_bound :
    (x : Checks) (base : ℕ) (rs : List Record) → length rs ≤ length (encode_all x base rs)
unfolding encode_all
length-encode_all_bound x base [] = omega arith
length-encode_all_bound x base (r ∷ rs) = omega (
  arith,
  length-append (record_bytes x r base) (encode_all x (suc base) rs),
  length-record_bytes x r base,
  length-encode_all_bound x (suc base) rs,
)

pub AllFit-append :
    (x : Checks) (base here : ℕ) (front back : List Record)
    → here ≡ base + length front
    → AllFit x base front
    → AllFit x here back
    → AllFit x base (front ++ back)
AllFit-append x base here [] back e a b =
    let same : here ≡ base = omega arith in subst (λ o. AllFit x o back) same b
AllFit-append x base here (r ∷ front) back e (f, a) b =
    (f, AllFit-append x (suc base) here front back (omega arith) a b)

pub AllFit-front :
    (x : Checks) (base : ℕ) (front back : List Record)
    → AllFit x base (front ++ back)
    → AllFit x base front
AllFit-front x base [] back a = tt
AllFit-front x base (r ∷ front) back (f, a) = (f, AllFit-front x (suc base) front back a)

pub AllFit-back :
    (x : Checks) (base here : ℕ) (front back : List Record)
    → here ≡ base + length front
    → AllFit x base (front ++ back)
    → AllFit x here back
AllFit-back x base here [] back e a =
    let same : base ≡ here = omega arith in subst (λ o. AllFit x o back) same a
AllFit-back x base here (r ∷ front) back e (f, a) =
    AllFit-back x (suc base) here front back (omega arith) a

-- More records at the end leave the entries where they are.
pub IsEntry-append :
    (x : Checks) (base : ℕ) (rs more : List Record) (index : List IndexEntry)
    → All (IsEntry x base rs) index
    → All (IsEntry x base (rs ++ more)) index
IsEntry-append x base rs more [] h = tt
IsEntry-append x base rs more (entry ∷ index) (h, rest) = (
  record {
    front = h.front;
    back = h.back ++ more;
    split = sym (append_assoc h.front h.back more) ∙ ap (λ l. l ++ more) h.split;
    offset_is = h.offset_is;
    position_is = h.position_is;
  },
  IsEntry-append x base rs more index rest,
)

pub All-append {ℓ κ} :
    {A : Type ℓ} (P : A → Type κ) (xs ys : List A) → All P xs → All P ys → All P (xs ++ ys)
All-append P [] ys a b = b
All-append P (x ∷ xs) ys (h, a) b = (h, All-append P xs ys a b)

pub All-push_entry :
    (P : IndexEntry → Type 0) (due : Bool) (offset position : ℕ) (index : List IndexEntry)
    → All P index
    → P (record { offset = offset; position = position })
    → All P (push_entry due offset position index)
All-push_entry P true offset position index all new = All-append P index _ all (new, tt)
All-push_entry P false offset position index all new = all

-- A record at the front of the bytes is read.
pub decode_record-encode_all :
    (x : Checks) (base : ℕ) (r : Record) (rs : List Record) (tail : Bytes)
    → IsCrc x
    → Fits x base r
    → decode_record x (encode_all x base (r ∷ rs) ++ tail)
      ≡ ok (some (stored r base), encode_all x (suc base) rs ++ tail)
unfolding encode_all
decode_record-encode_all x base r rs tail crc (small, held) = rw append_assoc (
    decode_record-record_bytes x r base (encode_all x (suc base) rs ++ tail) small held
      (crc (encode_body r base)))
