-- ===== src/Storage/Log/Retry.antt =====
-- Retries in `append` of crates/storage/src/lib.rs: a record that is sent again is not written again.
use sevlamq.Prelude.{bytes_eq, pair_eq}
use sevlamq.Prelude.{
  List, ap, inl, inr, lookup, lookup-insert_self, some, subst, sym, ℕ, ◌∙◌, ◌≡◌, ◌⊎◌,
}
use sevlamq.Storage.Record.{validate_producer_id}
use sevlamq.Storage.Record.RoundTrip.{IsHeld}
use sevlamq.Storage.Types.{Checks, ProducerIdentity, Record, ok}
use sevlamq.Storage.Segment.{SegmentMetadata}
use sevlamq.Storage.Log.Appending.{
  Appended, IsRetry, append-Appended, producers_after, retry-append_producer,
}
use sevlamq.Storage.Log.{Partition, append, append_from}
use sevlamq.Storage.Log.Layout.{Holds, Segments}
use sevlamq.Storage.Files.{lift-ok}

append-retry :
    (x : Checks) (p : Partition) (r : Record) (producer : ProducerIdentity) (v : ℕ)
    → r.producer ≡ some producer
    → validate_producer_id producer.id ≡ ok tt
    → IsRetry p (some producer) v
    → append x r p ≡ (ok v, p)
unfolding append
append-retry x p r producer v who valid again =
    ap (λ o. append_from x r o p) who
    ∙ rw (append_from, valid) (retry-append_producer x p r producer v again)

valid-append :
    (x : Checks) (p p' : Partition) (r : Record) (producer : ProducerIdentity) (v : ℕ)
    → r.producer ≡ some producer
    → append x r p ≡ (ok v, p')
    → validate_producer_id producer.id ≡ ok tt
unfolding append
valid-append x p p' r producer v who e =
    let e' : append_from x r (some producer) p ≡ (ok v, p') =
      ap (λ o. append_from x r o p) (sym who) ∙ e in
    let (_, valid, _) = lift-ok (validate_producer_id producer.id) p _ v p' e' in valid

retried :
    (x : Checks) (p p' : Partition) (records : List Record) (r : Record)
    (producer : ProducerIdentity) (v : ℕ)
    → r.producer ≡ some producer
    → ((p' ≡ p) × IsRetry p r.producer v) ⊎ (Appended x p p' records r × (v ≡ p.log.next_offset))
    → IsRetry p' (some producer) v
retried x p p' records r producer v who (inl (same, again)) =
    subst (λ q. IsRetry q (some producer) v) (sym same) (subst (λ o. IsRetry p o v) who again)
retried x p p' records r producer v who (inr (a, value)) =
    ap (lookup producer.id)
      (a.producers_are ∙ ap (λ o. producers_after o p.log.next_offset p.log.producer_state) who)
    ∙ (lookup-insert_self producer.id (producer.sequence, p.log.next_offset) p.log.producer_state
        ∙ ap (λ n. some (producer.sequence, n)) (sym value))

-- A record with a producer that `append` took once, it takes again: with the same offset, and without
-- a change to the files or to the log.
pub append-append :
    (x : Checks) (p p' : Partition) (closed : Segments) (active : SegmentMetadata)
    (rs : List Record) (r : Record) (producer : ProducerIdentity) (v : ℕ)
    → Holds x p closed active rs
    → IsHeld x r p.log.next_offset
    → r.producer ≡ some producer
    → append x r p ≡ (ok v, p')
    → append x r p' ≡ (ok v, p')
append-append x p p' closed active rs r producer v h held who e =
    append-retry x p' r producer v who (valid-append x p p' r producer v who e)
      (retried x p p' _ r producer v who (append-Appended x p p' closed active rs r v h held e))
