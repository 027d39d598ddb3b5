-- ===== src/Storage/Read/Scan.antt =====
-- The loop of `read` of crates/storage/src/lib.rs on the bytes of records, against a pass over the
-- records themselves.
use sevlamq.Prelude.{
  Bool, Bool-cases, List, [], ap, append-nil, arith, false, if-false, if-true, if◌then◌else◌, inl,
  inr, is_empty, length, length-append, lt→ltb, refl, some, subst, suc, sym, true, zero, ℕ, ◌++◌,
  ◌+◌, ◌-◌, ◌<◌, ◌∙◌, ◌∷◌, ◌≡◌, ◌≤◌,
}
use sevlamq.Protocol.Types.{Bytes}
use sevlamq.Storage.Record.RoundTrip.{stored}
use sevlamq.Storage.Record.Encoded.{record_bytes, length-record_bytes}
use sevlamq.Storage.Types.{Checks, Record, StoredRecord, ok}
use sevlamq.Storage.Segment.Layout.{
  AllFit, Fits, IsCrc, decode_record-encode_all, encode_all, length-encode_all_bound,
}
use sevlamq.Storage.Record.{body_len, decode_record}
use sevlamq.Storage.Read.{ReadState, read_buffer, take_record}

-- The pass over records whose first one has offset `here`.
unfoldable pub scan : ℕ → ℕ → ℕ → List Record → ReadState → ReadState
scan offset max_bytes here [] s = s
scan offset max_bytes here (r ∷ rs) s =
    let s' = take_record offset max_bytes (stored r here) (8 + body_len r) s in
    let rest = scan offset max_bytes (suc here) rs s' in if s'.full then s' else rest

record_size :
    (x : Checks) (here : ℕ) (r : Record) (rs : List Record)
    → length (encode_all x here (r ∷ rs)) - length (encode_all x (suc here) rs) ≡ 8 + body_len r
unfolding encode_all
record_size x here r rs = omega (
  arith,
  length-append (record_bytes x r here) (encode_all x (suc here) rs),
  length-record_bytes x r here,
)

is_empty-false {ℓ} : {A : Type ℓ} (xs : List A) → 0 < length xs → is_empty xs ≡ false
is_empty-false [] h = absurd (omega arith)
is_empty-false (x ∷ xs) h = refl

decode_record-front :
    (x : Checks) (here : ℕ) (r : Record) (rs : List Record)
    → IsCrc x
    → Fits x here r
    → decode_record x (encode_all x here (r ∷ rs))
      ≡ ok (some (stored r here), encode_all x (suc here) rs)
decode_record-front x here r rs crc fits =
    rw (← append-nil (encode_all x here (r ∷ rs)), ← append-nil (encode_all x (suc here) rs))
      (decode_record-encode_all x here r rs [] crc fits)

read_buffer-empty :
    (x : Checks) (offset max_bytes fuel here : ℕ) (s : ReadState)
    → read_buffer x offset max_bytes fuel (encode_all x here []) s ≡ ok s
unfolding read_buffer encode_all
read_buffer-empty x offset max_bytes zero here s = refl
read_buffer-empty x offset max_bytes (suc fuel) here s = refl

-- A round of the loop, which stops where the state is full after it.
read_buffer-round :
    (x : Checks) (offset max_bytes fuel size : ℕ) (buffer rest : Bytes) (found : StoredRecord)
    (s : ReadState)
    → is_empty buffer ≡ false
    → decode_record x buffer ≡ ok (some found, rest)
    → length buffer - length rest ≡ size
    → let s' = take_record offset max_bytes found size s in
      read_buffer x offset max_bytes (suc fuel) buffer s
      ≡ elim s'.full [ true ↦ ok s' | false ↦ read_buffer x offset max_bytes fuel rest s' ]
unfolding read_buffer
read_buffer-round x offset max_bytes fuel size buffer rest found s some_bytes e same =
    subst
      (λ n.
        let s' = take_record offset max_bytes found n s in
        read_buffer x offset max_bytes (suc fuel) buffer s
        ≡ elim s'.full [ true ↦ ok s' | false ↦ read_buffer x offset max_bytes fuel rest s' ])
      same (rw (read_buffer, some_bytes, e) refl)

full-case :
    (b : Bool) (x : Checks) (offset max_bytes fuel here : ℕ) (rs : List Record) (s' : ReadState)
    → (b ≡ false
        → read_buffer x offset max_bytes fuel (encode_all x here rs) s'
          ≡ ok (scan offset max_bytes here rs s'))
    → elim b [
      | true ↦ ok s'
      | false ↦ read_buffer x offset max_bytes fuel (encode_all x here rs) s'
    ]
      ≡ ok (if b then s' else scan offset max_bytes here rs s')
full-case true x offset max_bytes fuel here rs s' next = refl
full-case false x offset max_bytes fuel here rs s' next = next refl

pub read_buffer-scan :
    (x : Checks) (offset max_bytes fuel here : ℕ) (rs : List Record) (s : ReadState)
    → IsCrc x
    → AllFit x here rs
    → length rs ≤ fuel
    → read_buffer x offset max_bytes fuel (encode_all x here rs) s
      ≡ ok (scan offset max_bytes here rs s)
unfolding scan
read_buffer-scan x offset max_bytes fuel here [] s crc fits h =
    read_buffer-empty x offset max_bytes fuel here s
read_buffer-scan x offset max_bytes zero here (r ∷ rs) s crc fits h = absurd (omega arith)
read_buffer-scan x offset max_bytes (suc fuel) here (r ∷ rs) s crc (fit, fits) h =
    read_buffer-round x offset max_bytes fuel (8 + body_len r) (encode_all x here (r ∷ rs))
      (encode_all x (suc here) rs) (stored r here) s
      (is_empty-false (encode_all x here (r ∷ rs))
        (omega (arith, length-encode_all_bound x here (r ∷ rs))))
      (decode_record-front x here r rs crc fit) (record_size x here r rs)
    ∙ full-case _ x offset max_bytes fuel (suc here) rs _
        λ more. read_buffer-scan x offset max_bytes fuel (suc here) rs _ crc fits (omega arith)

take_record-below :
    (offset max_bytes size : ℕ) (found : StoredRecord) (s : ReadState)
    → found.offset < offset
    → take_record offset max_bytes found size s ≡ s
unfolding take_record
take_record-below offset max_bytes size found s h = rw (lt→ltb found.offset offset h)

-- Records below the offset change nothing.
pub scan-below :
    (offset max_bytes here there : ℕ) (front back : List Record) (s : ReadState)
    → there ≡ here + length front
    → there ≤ offset
    → s.full ≡ false
    → scan offset max_bytes here (front ++ back) s ≡ scan offset max_bytes there back s
unfolding scan
scan-below offset max_bytes here there [] back s e h more =
    let same : here ≡ there = omega arith in ap (λ o. scan offset max_bytes o back s) same
scan-below offset max_bytes here there (r ∷ front) back s e h more =
    rw (take_record-below offset max_bytes (8 + body_len r) (stored r here) s (omega arith)) (
      if-false s _ more
      ∙ scan-below offset max_bytes (suc here) there front back s (omega arith) h more)

pub scan-append :
    (offset max_bytes here there : ℕ) (front back : List Record) (s : ReadState)
    → there ≡ here + length front
    → s.full ≡ false
    → let s' = scan offset max_bytes here front s in
      scan offset max_bytes here (front ++ back) s
      ≡ (if s'.full then s' else scan offset max_bytes there back s')
unfolding scan
scan-append offset max_bytes here there [] back s e more =
    let same : here ≡ there = omega arith in
    ap (λ o. scan offset max_bytes o back s) same ∙ sym (if-false s _ more)
scan-append offset max_bytes here there (r ∷ front) back s e more = elim (Bool-cases s'.full) [
  | inl full ↦
      if-true s' _ full
      ∙ sym (
          ap (λ t. if t.full then t else scan offset max_bytes there back t) (if-true s' _ full)
          ∙ if-true s' _ full)
  | inr still ↦
      if-false s' _ still
      ∙ (scan-append offset max_bytes (suc here) there front back s' (omega arith) still
          ∙ sym (
              ap (λ t. if t.full then t else scan offset max_bytes there back t)
                (if-false s' _ still)))
]
  where
    s' : ReadState
    s' = take_record offset max_bytes (stored r here) (8 + body_len r) s
