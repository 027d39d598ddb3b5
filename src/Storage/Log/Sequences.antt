-- ===== src/Storage/Log/Sequences.antt =====
-- The producers' sequences in a log of crates/storage/src/lib.rs: `append` takes the records of each
-- producer once each and in their order.
use sevlamq.Prelude.{bytes_eq, pair_eq}
use sevlamq.Prelude.{
  ==_iff, Bool-cases, List, Option, Option-cases, [], ap, append-nil, append_assoc, arith,
  bytes_beq_iff, if◌then◌else◌, inl, inr, lookup, lookup-insert_hit, lookup-insert_miss, none, refl,
  some, subst, suc, sym, zero, ℕ, ◌++◌, ◌+◌, ◌<◌, ◌==◌, ◌^◌, ◌∙◌, ◌∷◌, ◌≟◌, ◌≡◌, ◌⊎◌,
}
use sevlamq.Protocol.Types.{Bytes}
use sevlamq.Storage.Record.{validate_producer_id}
use sevlamq.Storage.Record.RoundTrip.{IsHeld, IsSequenced}
use sevlamq.Storage.Types.{Checks, ProducerIdentity, Record, ok}
use sevlamq.Storage.Segment.{ProducerState, SegmentMetadata, check_sequence, expected_sequence}
use sevlamq.Storage.Log.Appending.{Appended, append-Appended, producers_after}
use sevlamq.Storage.Log.{Partition, append, append_from, append_producer, is_retry}
use sevlamq.Storage.Log.Layout.{Holds, Segments, records_of}
use sevlamq.Storage.Files.{lift-ok, pair-ok}

-- The sequence of a record, if it is from the producer of the id.
abbrev sent : Bytes → Option ProducerIdentity → List ℕ
sent id none = []
sent id (some producer) = if producer.id ≟ id then producer.sequence ∷ [] else []

-- The sequences of the records of a producer, in the order of the log.
abbrev pub sequences : Bytes → List Record → List ℕ
sequences id [] = []
sequences id (r ∷ rs) = sent id r.producer ++ sequences id rs

abbrev pub numbers_from : ℕ → ℕ → List ℕ
numbers_from first zero = []
numbers_from first (suc count) = first ∷ numbers_from (suc first) count

-- The sequences of a producer that the log remembers are 0, 1, 2 and so on up to the one that it
-- remembers, and a producer that it does not remember has no record.
abbrev pub NumberedTo : Option (ℕ × ℕ) → List ℕ → Type 0
NumberedTo none all = all ≡ []
NumberedTo (some (last, offset)) all = (last < 2 ^ 64) × (all ≡ numbers_from 0 (suc last))

abbrev pub AreNumbered : List Record → ProducerState → Type 0
AreNumbered records state = (id : Bytes) → NumberedTo (lookup id state) (sequences id records)

sequences-append :
    (id : Bytes) (records : List Record) (r : Record)
    → sequences id (records ++ r ∷ []) ≡ sequences id records ++ sent id r.producer
sequences-append id [] r = append-nil (sent id r.producer)
sequences-append id (a ∷ records) r =
    ap (λ l. sent id a.producer ++ l) (sequences-append id records r)
    ∙ sym (append_assoc (sent id a.producer) (sequences id records) (sent id r.producer))

numbers_from-append :
    (first count : ℕ)
    → numbers_from first count ++ (first + count) ∷ [] ≡ numbers_from first (suc count)
numbers_from-append first zero = ap (λ n. n ∷ []) (omega arith)
numbers_from-append first (suc count) =
    ap (λ l. first ∷ l)
      (ap (λ n. numbers_from (suc first) count ++ n ∷ []) (omega arith)
        ∙ numbers_from-append (suc first) count)

-- Where `append` takes a record of a producer and changes the log, its sequence is the expected one
-- and not the remembered one.
IsNext : ProducerIdentity → Option (ℕ × ℕ) → Type 0
IsNext producer found =
    (is_retry producer found ≡ none) × (producer.sequence ≡ expected_sequence found)

checked-IsNext :
    (state : ProducerState) (producer : ProducerIdentity)
    → is_retry producer (lookup producer.id state) ≡ none
    → check_sequence state producer ≡ ok tt
    → IsNext producer (lookup producer.id state)
unfolding IsNext
checked-IsNext state producer first =
    elim (Bool-cases (producer.sequence == expected_sequence (lookup producer.id state))) [
      | inl same ↦ λ e. (first, (==_iff producer.sequence _).0 same)
      | inr other ↦ rw other (λ e. cc)
    ]

append_producer-IsNext :
    (x : Checks) (p p' : Partition) (r : Record) (producer : ProducerIdentity) (v : ℕ)
    → append_producer x r producer p ≡ (ok v, p')
    → (p' ≡ p) ⊎ IsNext producer (lookup producer.id p.log.producer_state)
append_producer-IsNext x p p' r producer v =
    elim (Option-cases (is_retry producer (lookup producer.id p.log.producer_state))) [
      | inr (offset, again) ↦
          rw (append_producer, again) λ e. inl (sym ((pair-ok offset v p p' e).1))
      | inl first ↦
          rw (append_producer, first)
            λ e.
              let (_, checked, _) =
                lift-ok (check_sequence p.log.producer_state producer) p _ v p' e in
              inr (checked-IsNext p.log.producer_state producer first checked)
    ]

next_number :
    (producer : ProducerIdentity) (last offset : ℕ)
    → IsNext producer (some (last, offset))
    → last < 2 ^ 64
    → producer.sequence ≡ suc last
unfolding IsNext
next_number producer last offset = elim (Bool-cases (last == producer.sequence)) [
  | inl same ↦ rw same (λ (first, e) below. cc)
  | inr other ↦ λ (first, e) below. ground (arith, other, e, below)
]

first_number : (producer : ProducerIdentity) → IsNext producer none → producer.sequence ≡ 0
unfolding IsNext
first_number producer (first, e) = e

-- The sequences with the new one.
NumberedTo-next :
    (producer : ProducerIdentity) (found : Option (ℕ × ℕ)) (offset : ℕ) (all : List ℕ)
    → producer.sequence < 2 ^ 64
    → IsNext producer found
    → NumberedTo found all
    → NumberedTo (some (producer.sequence, offset)) (all ++ producer.sequence ∷ [])
NumberedTo-next producer none offset all small next h =
    (small, rw (h, first_number producer next) refl)
NumberedTo-next producer (some (last, o)) offset all small next (below, h) = (
  small,
  rw (h, next_number producer last o next below)
      (ap (λ n. numbers_from 0 (suc last) ++ n ∷ []) (omega arith)
        ∙ numbers_from-append 0 (suc last)),
)

abbrev IsNew : ProducerState → Option ProducerIdentity → Type 0
IsNew state none = Unit {0}
IsNew state (some producer) = IsNext producer (lookup producer.id state)

append_from-IsNew :
    (x : Checks) (p p' : Partition) (r : Record) (producer : Option ProducerIdentity) (v : ℕ)
    → append_from x r producer p ≡ (ok v, p')
    → (p' ≡ p) ⊎ IsNew p.log.producer_state producer
append_from-IsNew x p p' r none v e = inr tt
append_from-IsNew x p p' r (some producer) v e =
    let (_, _, e1) = lift-ok (validate_producer_id producer.id) p _ v p' e in
    append_producer-IsNext x p p' r producer v e1

numbered_after :
    (x : Checks) (o : Option ProducerIdentity) (offset : ℕ) (state : ProducerState)
    (all : Bytes → List ℕ)
    → IsSequenced x o
    → IsNew state o
    → ((id : Bytes) → NumberedTo (lookup id state) (all id))
    → (id : Bytes) → NumberedTo (lookup id (producers_after o offset state)) (all id ++ sent id o)
numbered_after x none offset state all small new h id =
    subst (NumberedTo (lookup id state)) (sym (append-nil (all id))) (h id)
numbered_after x (some producer) offset state all small new h id =
    elim (Bool-cases (producer.id ≟ id)) [
      | inl same ↦
          (let e = (bytes_beq_iff producer.id id).0 same in
            rw (lookup-insert_hit producer.id id (producer.sequence, offset) state same, same)
              (NumberedTo-next producer (lookup id state) offset (all id) (small.0)
                (subst (λ i. IsNext producer (lookup i state)) e new) (h id)))
      | inr other ↦
          rw
            (
              lookup-insert_miss producer.id id (producer.sequence, offset) state other,
              other,
              append-nil (all id),
            )
            (h id)
    ]

-- The log stands for records whose sequences are in order.
pub record HoldsNumbered (x : Checks) (p : Partition) : Type 0 where
  pub closed : Segments
  pub active : SegmentMetadata
  pub rest : List Record
  pub holds : Holds x p closed active rest
  pub numbered : AreNumbered (records_of closed ++ rest) p.log.producer_state

-- Any number of calls of `append` that succeed, one after the other, with numbers in range.
pub data Appends (x : Checks) : Partition → Partition → Type 0 where
  stay : (p : Partition) → Appends x p p
  then_append :
      {p q q' : Partition}
      → Appends x p q
      → (r : Record) (v : ℕ) → IsHeld x r q.log.next_offset
      → append x r q ≡ (ok v, q')
      → Appends x p q'

Appended-HoldsNumbered :
    (x : Checks) (p p' : Partition) (records : List Record) (r : Record)
    → IsHeld x r p.log.next_offset
    → IsNew p.log.producer_state r.producer
    → AreNumbered records p.log.producer_state
    → Appended x p p' records r
    → HoldsNumbered x p'
Appended-HoldsNumbered x p p' records r held new h a = record {
  closed = a.closed;
  active = a.active;
  rest = a.rest;
  holds = a.holds;
  numbered = λ id.
      rw (a.records_are, a.producers_are, sequences-append id records r)
        (numbered_after x r.producer p.log.next_offset p.log.producer_state
          (λ i. sequences i records) (held.2) new h id);
}

append-HoldsNumbered :
    (x : Checks) (p p' : Partition) (r : Record) (v : ℕ)
    → HoldsNumbered x p
    → IsHeld x r p.log.next_offset
    → append x r p ≡ (ok v, p')
    → HoldsNumbered x p'
unfolding append
append-HoldsNumbered x p p' r v h held e = elim (append_from-IsNew x p p' r r.producer v e) [
  | inl same ↦ subst (HoldsNumbered x) (sym same) h
  | inr new ↦ elim (append-Appended x p p' h.closed h.active h.rest r v h.holds held e) [
    | inl (same, again) ↦ subst (HoldsNumbered x) (sym same) h
    | inr (a, value) ↦ Appended-HoldsNumbered x p p' _ r held new h.numbered a
  ]
]

-- After any run of calls of `append` that all succeed, retries included, on records whose numbers are
-- in the range of `u64` and whose producer ids are UTF-8: the log stands for a list of records, and
-- those of each producer have the sequences 0, 1, 2 and so on in this order, without a gap and without
-- a repetition, up to the one that the log remembers, if this holds at the start, as it does for an
-- empty log.
pub Appends-HoldsNumbered :
    (x : Checks) (p p' : Partition) → HoldsNumbered x p → Appends x p p' → HoldsNumbered x p'
Appends-HoldsNumbered x p p' h (stay q) = h
Appends-HoldsNumbered x p p' h (then_append steps r v held e) =
    append-HoldsNumbered x _ p' r v (Appends-HoldsNumbered x p _ h steps) held e
