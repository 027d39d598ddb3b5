-- ===== src/Storage/Log/Appending.antt =====
-- `append` of crates/storage/src/lib.rs against a list of records: where it succeeds it adds the record
-- at the end, whether or not it starts a new segment, or it is a retry and adds nothing.
use sevlamq.Prelude.{bytes_eq, pair_eq}
use sevlamq.Prelude.{
  ==_iff, Bool, Bool-cases, List, Option, Option-cases, [], ap, append-nil, append_assoc, arith,
  false, inl, inr, insert, length, lookup, none, refl, some, subst, sym, true, ℕ, ◌++◌, ◌+◌, ◌<◌,
  ◌==◌, ◌∙◌, ◌∷◌, ◌≡◌, ◌⊎◌,
}
use sevlamq.Storage.Record.{encode_record, validate_producer_id}
use sevlamq.Storage.Record.RoundTrip.{IsHeld}
use sevlamq.Storage.Record.Encoded.{record_bytes, encode_record-ok}
use sevlamq.Storage.Types.{
  Checks, ProducerIdentity, Record, missing_active_segment, ok, ok_injective,
}
use sevlamq.Storage.Segment.Layout.{Fits, encode_all}
use sevlamq.Storage.Segment.{ProducerState, SegmentMetadata, check_sequence, last}
use sevlamq.Storage.Log.Layout.{
  Holds, IsSegment, Segments, last-append, metadata_of, records_of, records_of-append,
}
use sevlamq.Storage.Log.{
  Partition, PartitionLog, active_segment, append, append_from, append_new, append_producer,
  is_index_due, is_retry, must_rotate, remember_producer, rotate_if, write_record,
}
use sevlamq.Storage.Files.{Files, if_some, lift-ok, next, next-ok, pair-ok}
use sevlamq.Storage.Log.Writing.{write_record-ok, written, written-Holds}
use sevlamq.Storage.Log.Rotating.{fresh, rotate-Holds}

-- The producers after a record.
abbrev pub producers_after : Option ProducerIdentity → ℕ → ProducerState → ProducerState
producers_after none offset state = state
producers_after (some producer) offset state = insert producer.id (producer.sequence, offset) state

-- The log stands for the records that it stood for, and one more.
pub record Appended (x : Checks) (p p' : Partition) (records : List Record) (r : Record)
    : Type 0 where
  pub closed : Segments
  pub active : SegmentMetadata
  pub rest : List Record
  pub holds : Holds x p' closed active rest
  pub records_are : records_of closed ++ rest ≡ records ++ r ∷ []
  pub next_is : p'.log.next_offset ≡ p.log.next_offset + 1
  pub producers_are :
      p'.log.producer_state ≡ producers_after r.producer p.log.next_offset p.log.producer_state

-- The state that the segment is chosen in.
record Chosen (x : Checks) (p q : Partition) (records : List Record) : Type 0 where
  closed : Segments
  active : SegmentMetadata
  rest : List Record
  holds : Holds x q closed active rest
  records_are : records_of closed ++ rest ≡ records
  next_is : q.log.next_offset ≡ p.log.next_offset
  producers_are : q.log.producer_state ≡ p.log.producer_state

not_empty :
    (x : Checks) (files : Files) (base max size : ℕ) (active : SegmentMetadata) (rs : List Record)
    → IsSegment x files base active rs
    → must_rotate max size active ≡ true
    → 0 < length rs
unfolding encode_all
not_empty x files base max size active [] h full = absurd (ground (arith, h.len_is, full))
not_empty x files base max size active (r ∷ rs) h full = omega arith

rotate_if-Chosen :
    (x : Checks) (p q : Partition) (closed : Segments) (active : SegmentMetadata) (rs : List Record)
    (full : Bool) (max size : ℕ)
    → Holds x p closed active rs
    → must_rotate max size active ≡ full
    → rotate_if full p ≡ (ok tt, q)
    → Chosen x p q (records_of closed ++ rs)
unfolding rotate_if
rotate_if-Chosen x p q closed active rs true max size h full e =
    let (holds, next, producers) =
      rotate-Holds x p q closed active rs h
        (not_empty x p.files h.end max size active rs h.active_is full) e in
    record {
      closed = closed ++ (active, rs) ∷ [];
      active = fresh p.log.next_offset;
      rest = [];
      holds = holds;
      records_are = append-nil _ ∙ records_of-append closed active rs;
      next_is = next;
      producers_are = producers;
    }
rotate_if-Chosen x p q closed active rs false max size h full e =
    subst (λ t. Chosen x p t (records_of closed ++ rs)) (ap (λ (r, t). t) e)
      (record {
        closed = closed;
        active = active;
        rest = rs;
        holds = h;
        records_are = refl;
        next_is = refl;
        producers_are = refl;
      })

active_segment-Holds :
    (x : Checks) (p : Partition) (closed : Segments) (active found : SegmentMetadata)
    (rs : List Record)
    → Holds x p closed active rs
    → active_segment p ≡ ok found
    → active ≡ found
active_segment-Holds x p closed active found rs h e = ok_injective active found (
    sym (
      ap (λ l. if_some missing_active_segment (last l)) h.segments_are
      ∙ ap (if_some missing_active_segment) (last-append (metadata_of closed) active))
    ∙ e)

producers-written :
    (producer : Option ProducerIdentity) (offset : ℕ) (log : PartitionLog)
    → (remember_producer producer offset log).producer_state
      ≡ producers_after producer offset log.producer_state
producers-written none offset log = refl
producers-written (some producer) offset log = refl

next-remember :
    (producer : Option ProducerIdentity) (offset : ℕ) (log : PartitionLog)
    → (remember_producer producer offset log).next_offset ≡ log.next_offset
next-remember none offset log = refl
next-remember (some producer) offset log = refl

write_record-Appended :
    (x : Checks) (p q p' : Partition) (records : List Record) (r : Record) (due : Bool) (v : ℕ)
    → (c : Chosen x p q records) → Fits x q.log.next_offset r
    → write_record r q.log.next_offset (record_bytes x r q.log.next_offset) c.active due q
      ≡ (ok v, p')
    → Appended x p p' records r × (v ≡ p.log.next_offset)
unfolding written
write_record-Appended x p q p' records r due v c fits e =
    let (len, small, value, left) = write_record-ok r q.log.next_offset _ c.active due q v p' e in
    (
      subst (λ t. Appended x p t records r) (sym left)
          (record {
            closed = c.closed;
            active = _;
            rest = c.rest ++ r ∷ [];
            holds = written-Holds x q c.closed c.active c.rest r due c.holds fits small;
            records_are =
                sym (append_assoc (records_of c.closed) c.rest (r ∷ []))
                ∙ ap (λ l. l ++ r ∷ []) c.records_are;
            next_is = next-remember r.producer q.log.next_offset _ ∙ ap (λ n. n + 1) c.next_is;
            producers_are =
                producers-written r.producer q.log.next_offset _ ∙ cc (c.next_is, c.producers_are);
          }),
      value ∙ c.next_is,
    )

append_new-Appended :
    (x : Checks) (p p' : Partition) (closed : Segments) (active : SegmentMetadata)
    (rs : List Record) (r : Record) (v : ℕ)
    → Holds x p closed active rs
    → IsHeld x r p.log.next_offset
    → append_new r x p ≡ (ok v, p')
    → Appended x p p' (records_of closed ++ rs) r × (v ≡ p.log.next_offset)
unfolding append_new
append_new-Appended x p p' closed active rs r v h held e =
    let (encoded, e1, h1) = lift-ok (encode_record x r p.log.next_offset) p _ v p' e in
    let (bytes, small, valid) = encode_record-ok x r p.log.next_offset encoded e1 in
    let (a, e2, h2) = lift-ok (active_segment p) p _ v p' h1 in
    let same = active_segment-Holds x p closed active a rs h e2 in
    let (u, q, e3, h3) =
      next-ok (rotate_if (must_rotate p.log.max_segment_bytes (length encoded) a) p) _ v p' h2 in
    let c =
      rotate_if-Chosen x p q closed active rs _ p.log.max_segment_bytes (length encoded) h
        (ap (must_rotate p.log.max_segment_bytes (length encoded)) same) e3 in
    let (b, e4, h4) = lift-ok (active_segment q) q _ v p' h3 in
    let current = active_segment-Holds x q c.closed c.active b c.rest c.holds e4 in
    write_record-Appended x p q p' _ r (is_index_due b q.log) v c (small, rw (c.next_is) held)
      (cc (h4, bytes, c.next_is, current))

-- The record was appended before, and its producer has sent nothing since.
abbrev pub IsRetry : Partition → Option ProducerIdentity → ℕ → Type 0
IsRetry p none offset = ⊥
IsRetry p (some producer) offset =
    lookup producer.id p.log.producer_state ≡ some (producer.sequence, offset)

pub is_retry-some :
    (producer : ProducerIdentity) (found : Option (ℕ × ℕ)) (offset : ℕ)
    → is_retry producer found ≡ some offset
    → found ≡ some (producer.sequence, offset)
is_retry-some producer none offset = λ e. cc
is_retry-some producer (some (sequence, o)) offset =
    elim (Bool-cases (sequence == producer.sequence)) [
      | inl same ↦
          rw same (λ e. let equal = (==_iff sequence producer.sequence).0 same in cc (e, equal))
      | inr other ↦ rw other (λ e. cc)
    ]

append_producer-Appended :
    (x : Checks) (p p' : Partition) (closed : Segments) (active : SegmentMetadata)
    (rs : List Record) (r : Record) (producer : ProducerIdentity) (v : ℕ)
    → Holds x p closed active rs
    → IsHeld x r p.log.next_offset
    → append_producer x r producer p ≡ (ok v, p')
    → ((p' ≡ p) × IsRetry p (some producer) v)
      ⊎ (Appended x p p' (records_of closed ++ rs) r × (v ≡ p.log.next_offset))
append_producer-Appended x p p' closed active rs r producer v h held =
    elim (Option-cases (is_retry producer (lookup producer.id p.log.producer_state))) [
      | inr (offset, again) ↦
          rw (append_producer, again)
            λ e.
              let (same, left) = pair-ok offset v p p' e in
              inl (sym left, is_retry-some producer _ v (again ∙ ap some same))
      | inl first ↦
          rw (append_producer, first)
            λ e.
              let (_, _, e1) = lift-ok (check_sequence p.log.producer_state producer) p _ v p' e in
              inr (append_new-Appended x p p' closed active rs r v h held e1)
    ]

append_from-Appended :
    (x : Checks) (p p' : Partition) (closed : Segments) (active : SegmentMetadata)
    (rs : List Record) (r : Record) (producer : Option ProducerIdentity) (v : ℕ)
    → Holds x p closed active rs
    → IsHeld x r p.log.next_offset
    → append_from x r producer p ≡ (ok v, p')
    → ((p' ≡ p) × IsRetry p producer v)
      ⊎ (Appended x p p' (records_of closed ++ rs) r × (v ≡ p.log.next_offset))
append_from-Appended x p p' closed active rs r none v h held e =
    inr (append_new-Appended x p p' closed active rs r v h held e)
append_from-Appended x p p' closed active rs r (some producer) v h held e =
    let (_, _, e1) = lift-ok (validate_producer_id producer.id) p _ v p' e in
    append_producer-Appended x p p' closed active rs r producer v h held e1

-- Where `append` succeeds on a log that stands for a list of records, it returns the next offset and
-- the log then stands for those records and the new one after them, with the producer's sequence
-- remembered; or the record is a retry of its producer's last one, and `append` returns the offset of
-- that one and changes nothing.
pub append-Appended :
    (x : Checks) (p p' : Partition) (closed : Segments) (active : SegmentMetadata)
    (rs : List Record) (r : Record) (v : ℕ)
    → Holds x p closed active rs
    → IsHeld x r p.log.next_offset
    → append x r p ≡ (ok v, p')
    → ((p' ≡ p) × IsRetry p r.producer v)
      ⊎ (Appended x p p' (records_of closed ++ rs) r × (v ≡ p.log.next_offset))
unfolding append
append-Appended x p p' closed active rs r v h held e =
    append_from-Appended x p p' closed active rs r r.producer v h held e

pub retry-append_producer :
    (x : Checks) (p : Partition) (r : Record) (producer : ProducerIdentity) (v : ℕ)
    → IsRetry p (some producer) v
    → append_producer x r producer p ≡ (ok v, p)
retry-append_producer x p r producer v e =
    rw (append_producer, e, (==_iff producer.sequence producer.sequence).1 refl)
