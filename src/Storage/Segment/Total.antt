-- ===== src/Storage/Segment/Total.antt =====
-- The loop of `recover_segment` of crates/storage/src/lib.rs ends: each round takes bytes off the
-- buffer.
use sevlamq.Prelude.{
  Bool, Bool-cases, List, Option, [], all, ap, arith, drop, false, if◌then◌else◌, inl, inr,
  is_empty, is_identifier_byte, length, length-drop, ltb, ltb_false→le, none, not, refl, some, suc,
  sym, take, true, zero, ℕ, ◌+◌, ◌-◌, ◌<◌, ◌==◌, ◌^◌, ◌||◌, ◌∙◌, ◌∷◌, ◌≡◌, ◌≢◌, ◌≤◌,
}
use sevlamq.Protocol.Types.{Bytes}
use sevlamq.Protocol.Reader.{get_be}
use sevlamq.Storage.Record.{
  decode_record, decode_of_len, decode_encoded, value_of, validate_producer_id,
}
use sevlamq.Storage.Record.Safety.{decode_record_total}
use sevlamq.Storage.Types.{
  Checks, ProducerIdentity, Result, StorageError, StoredRecord, bind, bind-ok, err, guard,
  length_size, max_record_size, min_record_size, offset_overflow, ok, ok_injective, panic,
  unexpected_offset,
}
use sevlamq.Storage.Segment.{
  ProducerState, Recovery, check_sequence, checked_add, recover_contents, recover_loop,
  recover_producer, recover_record,
}

length-drop_le {ℓ} : {A : Type ℓ} (n : ℕ) (xs : List A) → length (drop n xs) ≤ length xs
length-drop_le zero xs = omega arith
length-drop_le (suc n) [] = omega arith
length-drop_le (suc n) (x ∷ xs) = omega (arith, length-drop_le n xs)

none_is_no_record {ℓ} :
    {P : Type ℓ} (buffer rest : Bytes) (s : StoredRecord)
    (found : Result (Option StoredRecord × Bytes))
    → found ≡ ok (none, buffer)
    → found ≡ ok (some s, rest)
    → P
none_is_no_record buffer rest s found n e =
    let same : none ≡ some s =
      ap (λ (o, _). o) (ok_injective (none, buffer) (some s, rest) (sym n ∙ e)) in
    cc

decode_of_len-some :
    (x : Checks) (len : ℕ) (buffer rest : Bytes) (s : StoredRecord)
    → 4 ≤ length buffer
    → decode_of_len x len buffer ≡ ok (some s, rest)
    → length rest < length buffer
unfolding decode_of_len
decode_of_len-some x len buffer rest s header = elim (Bool-cases (ltb len min_record_size)) [
  | inl small ↦ rw small (λ e. cc)
  | inr large ↦ elim (Bool-cases (ltb max_record_size len)) [
    | inl huge ↦ rw (large, huge) (λ e. cc)
    | inr fits ↦ elim (Bool-cases (ltb (length buffer) (length_size + len))) [
      | inl torn ↦ rw (large, fits, torn) (λ e. none_is_no_record buffer rest s _ refl e)
      | inr whole ↦ rw (large, fits, whole) taken
    ]
  ]
]
  where
    taken :
        bind {B = Option StoredRecord × Bytes}
            (decode_encoded x (take len (drop length_size buffer)))
            (λ (stored, left). ok (some stored, drop len (drop length_size buffer)))
          ≡ ok (some s, rest)
        → length rest < length buffer
    taken e =
        let (found, _, e') =
          bind-ok (decode_encoded x (take len (drop length_size buffer))) _ (some s, rest) e in
        let same : drop len (drop length_size buffer) ≡ rest =
          ap (λ (_, r). r) (ok_injective _ (some s, rest) e') in
        omega (
          arith,
          ap length same,
          length-drop_le len (drop length_size buffer),
          length-drop length_size buffer,
          header,
        )

-- A record takes at least its length field.
pub decode_record-shrinks :
    (x : Checks) (buffer rest : Bytes) (s : StoredRecord)
    → decode_record x buffer ≡ ok (some s, rest)
    → length rest < length buffer
unfolding decode_record
decode_record-shrinks x buffer rest s = elim (Bool-cases (ltb (length buffer) length_size)) [
  | inl short ↦ rw short (λ e. none_is_no_record buffer rest s _ refl e)
  | inr long ↦ rw long (
      decode_of_len-some x (value_of (get_be length_size buffer)) buffer rest s
        (ltb_false→le (length buffer) 4 long))
]

if_total {ℓ} :
    {A : Type ℓ} (t : Bool) (a b : Result A) → a ≢ panic → b ≢ panic → (if t then a else b) ≢ panic
if_total true a b p q = p
if_total false a b p q = q

guard_total : (test : Bool) (e : StorageError) → guard test e ≢ panic
guard_total true e h = cc
guard_total false e h = cc

bind_total {ℓ κ} :
    {A : Type ℓ} {B : Type κ} (m : Result A) (f : A → Result B)
    → m ≢ panic
    → ((a : A) → m ≡ ok a → f a ≢ panic)
    → bind m f ≢ panic
bind_total (ok a) f p q = q a refl
bind_total (err e) f p q = λ h. cc
bind_total panic f p q = absurd (p refl)

validate_producer_id_total : (id : Bytes) → validate_producer_id id ≢ panic
unfolding validate_producer_id
validate_producer_id_total id = elim (Bool-cases bad) [
  | inl e ↦ rw e (λ h. cc)
  | inr e ↦ rw e (λ h. cc)
]
  where
    bad : Bool
    bad = is_empty id || ltb 249 (length id) || not (all is_identifier_byte id)

checked_add_total : (e : StorageError) (a b : ℕ) → checked_add e a b ≢ panic
checked_add_total e a b = if_total (ltb (a + b) (2 ^ 64)) (ok (a + b)) (err e) (λ h. cc) (λ h. cc)

recover_producer_total :
    (producer : Option ProducerIdentity) (offset : ℕ) (state : ProducerState)
    → recover_producer producer offset state ≢ panic
unfolding recover_producer
recover_producer_total none offset state = λ h. cc
recover_producer_total (some producer) offset state =
    bind_total (validate_producer_id producer.id) _ (validate_producer_id_total producer.id)
      λ _ _. bind_total (check_sequence state producer) _ (guard_total _ _) λ _ _ h. cc

recover_record_total :
    (interval position : ℕ) (s : StoredRecord) (r : Recovery)
    → recover_record interval position s r ≢ panic
unfolding recover_record
recover_record_total interval position s r =
    bind_total (guard (s.offset == r.next_offset) (unexpected_offset r.next_offset s.offset)) _
      (guard_total _ _)
      λ _ _.
        bind_total (recover_producer s.producer s.offset r.producer_state) _
          (recover_producer_total s.producer s.offset r.producer_state)
          λ _ _.
            bind_total (checked_add offset_overflow r.next_offset 1) _
              (checked_add_total offset_overflow r.next_offset 1) λ _ _ h. cc

recover_loop_total :
    (x : Checks) (interval total fuel : ℕ) (buffer : Bytes) (r : Recovery)
    → length buffer < fuel
    → recover_loop x interval total fuel buffer r ≢ panic
unfolding recover_loop
recover_loop_total x interval total zero buffer r h = absurd (omega arith)
recover_loop_total x interval total (suc fuel) buffer r h =
    bind_total (decode_record x buffer) _ (decode_record_total x buffer)
      (round (λ rest r' h. recover_loop_total x interval total fuel rest r' h))
  where
    after : Option StoredRecord × Bytes → Result (Recovery × ℕ)
    after (found, rest) = elim found [
      | none ↦ ok (r, total - length rest)
      | some stored ↦
          bind (recover_record interval (total - length buffer) stored r)
            λ r'. recover_loop x interval total fuel rest r'
    ]

    round :
        ((rest : Bytes) (r' : Recovery)
          → length rest < fuel
          → recover_loop x interval total fuel rest r' ≢ panic)
        → (found : Option StoredRecord × Bytes) → decode_record x buffer ≡ ok found
        → after found ≢ panic
    round ih (none, rest) e = λ p. cc
    round ih (some s, rest) e =
        bind_total (recover_record interval (total - length buffer) s r) _
          (recover_record_total interval (total - length buffer) s r)
          λ r' _. ih rest r' (omega (arith, decode_record-shrinks x buffer rest s e))

-- `recover_segment` returns a result or an error for whatever bytes stand in the file: its loop ends
-- within as many rounds as there are bytes and one more, and no read goes past the end.
pub recover_contents_total :
    (x : Checks) (interval : ℕ) (contents : Bytes) (r : Recovery)
    → recover_contents x interval contents r ≢ panic
unfolding recover_contents
recover_contents_total x interval contents r =
    recover_loop_total x interval (length contents) (length contents + 1) contents r (omega arith)
