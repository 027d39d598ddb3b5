-- ===== src/Storage/Upkeep/Replica.antt =====
-- `append_replica` of crates/storage/src/lib.rs: what it accepts at an offset is in the log at that
-- offset.
use sevlamq.Prelude.{bytes_eq, pair_eq}
use sevlamq.Prelude.{
  ==_iff, Bool, Bool-cases, List, Option, [], ap, arith, bytes_beq_iff, false, get_elem?,
  if◌then◌else◌, inl, inr, length, length-append, ltb, ltb→lt, none, refl, some, subst, sym, true,
  ℕ, ◌&&◌, ◌++◌, ◌+◌, ◌-◌, ◌<◌, ◌==◌, ◌∙◌, ◌∷◌, ◌≡◌, ◌≤◌,
}
use sevlamq.Protocol.Types.{Bytes}
use sevlamq.Storage.Record.RoundTrip.{IsHeld, stored}
use sevlamq.Storage.Read.Progress.{read-first, AreClosed-end}
use sevlamq.Storage.Types.{
  Checks, Record, Result, StoredRecord, err, max_record_size, ok, ok_injective, replica_diverged,
}
use sevlamq.Storage.Segment.Layout.{IsCrc}
use sevlamq.Storage.Segment.{SegmentMetadata}
use sevlamq.Storage.Upkeep.{append_replica, below, check_replica, same_content, same_key}
use sevlamq.Storage.Log.Appending.{Appended, IsRetry, append-Appended}
use sevlamq.Storage.Log.{Partition, append}
use sevlamq.Storage.Log.Layout.{Holds, Segments, records_of}
use sevlamq.Storage.Read.{read}

-- What a follower compares.
abbrev pub SameContent : Record → Record → Type 0
SameContent a b = (a.timestamp_ms ≡ b.timestamp_ms) × (a.key ≡ b.key) × (a.value ≡ b.value)

same_key-true : (a b : Option Bytes) → same_key a b ≡ true → a ≡ b
same_key-true none none h = refl
same_key-true none (some b) h = cc
same_key-true (some a) none h = cc
same_key-true (some a) (some b) h = ap some ((bytes_beq_iff a b).0 h)

both-true : (a b : Bool) → (a && b) ≡ true → (a ≡ true) × (b ≡ true)
both-true true b h = (refl, h)
both-true false b h = cc

same_content-SameContent :
    (t r : Record) (offset : ℕ) → same_content (stored t offset) r ≡ true → SameContent t r
unfolding same_content
same_content-SameContent t r offset h =
    let (time, rest) = both-true (t.timestamp_ms == r.timestamp_ms) _ h in
    let (key, value) = both-true (same_key t.key r.key) _ rest in
    (
      (==_iff t.timestamp_ms r.timestamp_ms).0 time,
      same_key-true t.key r.key key,
      (bytes_beq_iff t.value r.value).0 value,
    )

-- The log stands for records, and has the content of `r` at the offset.
pub record Agrees (x : Checks) (p : Partition) (offset : ℕ) (r : Record) : Type 0 where
  pub closed : Segments
  pub active : SegmentMetadata
  pub rest : List Record
  pub holds : Holds x p closed active rest
  pub found : Record
  pub at_offset : get_elem? (records_of closed ++ rest) (offset - holds.base) ≡ some found
  pub same : SameContent found r

check_replica-first :
    (x : Checks) (offset : ℕ) (r t : Record) (p : Partition) (rest : List StoredRecord) (v : ℕ)
    → read x offset max_record_size p ≡ ok (stored t offset ∷ rest)
    → check_replica x offset r p ≡ ok v
    → (v ≡ offset) × SameContent t r
unfolding check_replica
check_replica-first x offset r t p rest v e = rw (e, (==_iff offset offset).1 refl) compared
  where
    compared :
        (if same_content (stored t offset) r then ok offset else err (replica_diverged offset))
          ≡ ok v
        → (v ≡ offset) × SameContent t r
    compared = elim (Bool-cases (same_content (stored t offset) r)) [
      | inl same ↦
          rw same (λ h. (sym (ok_injective offset v h), same_content-SameContent t r offset same))
      | inr other ↦ rw other (λ h. cc)
    ]

get_elem-snoc {ℓ} :
    {A : Type ℓ} (xs : List A) (a : A) → get_elem? (xs ++ a ∷ []) (length xs) ≡ some a
get_elem-snoc [] a = refl
get_elem-snoc (b ∷ xs) a = get_elem-snoc xs a

-- The next offset counts the records from the first offset on.
next-Holds :
    (x : Checks) (p : Partition) (closed : Segments) (active : SegmentMetadata) (rs : List Record)
    → (h : Holds x p closed active rs)
    → p.log.next_offset ≡ h.base + length (records_of closed ++ rs)
next-Holds x p closed active rs h = omega (
  arith,
  h.next_is,
  AreClosed-end x p.files h.base h.end closed h.closed_are,
  length-append (records_of closed) rs,
)

Agrees-Appended :
    (x : Checks) (p p' : Partition) (closed : Segments) (active : SegmentMetadata)
    (rs : List Record) (r : Record)
    → Holds x p closed active rs
    → Appended x p p' (records_of closed ++ rs) r
    → Agrees x p' p.log.next_offset r
Agrees-Appended x p p' closed active rs r h a = record {
  closed = a.closed;
  active = a.active;
  rest = a.rest;
  holds = a.holds;
  found = r;
  at_offset =
      ap (λ l. get_elem? l (p.log.next_offset - a.holds.base)) a.records_are
      ∙ (ap (get_elem? (records ++ r ∷ [])) place ∙ get_elem-snoc records r);
  same = (refl, refl, refl);
}
  where
    records : List Record
    records = records_of closed ++ rs

    place : p.log.next_offset - a.holds.base ≡ length records
    place = omega (
      arith,
      next-Holds x p' a.closed a.active a.rest a.holds,
      a.next_is,
      ap length a.records_are,
      length-append records (r ∷ []),
    )

-- Where `append_replica` succeeds on a log that stands for a list of records, with a record without a
-- producer, as the broker calls it, whose timestamp and offset are in the range of `u64`, at an offset
-- that is not below the first record of the log, it returns that offset and the log has a
-- record with the same timestamp, key and value there: a follower does not accept a record that
-- differs from its own. (A record with a producer can be taken for a retry of its last one.)
pub append_replica-Agrees :
    (x : Checks) (p p' : Partition) (closed : Segments) (active : SegmentMetadata)
    (rs : List Record) (r : Record) (offset v : ℕ)
    → IsCrc x
    → (h : Holds x p closed active rs) → IsHeld x r p.log.next_offset
    → r.producer ≡ none
    → h.base ≤ offset
    → append_replica x offset r p ≡ (ok v, p')
    → (v ≡ offset) × Agrees x p' offset r
unfolding append_replica
append_replica-Agrees x p p' closed active rs r offset v crc h held plain low =
    elim (Bool-cases (ltb offset p.log.next_offset)) [
      | inl below ↦ rw below (kept (ltb→lt offset p.log.next_offset below))
      | inr above ↦ elim (Bool-cases (offset == p.log.next_offset)) [
        | inr gap ↦ rw (above, gap) (λ e. cc)
        | inl same ↦ rw (above, same) (added ((==_iff offset p.log.next_offset).0 same))
      ]
    ]
  where
    kept :
        offset < p.log.next_offset
        → ◌≡◌ {A = Result ℕ × Partition} (check_replica x offset r p, p) (ok v, p')
        → (v ≡ offset) × Agrees x p' offset r
    kept below e =
        let (t, rest, at, found) =
          read-first x p closed active rs offset max_record_size crc (omega arith) h low below in
        let (value, same) = check_replica-first x offset r t p rest v found (ap (λ (c, q). c) e) in
        (
          value,
          subst (λ q. Agrees x q offset r) (ap (λ (c, q). q) e)
              (record {
                closed = closed;
                active = active;
                rest = rs;
                holds = h;
                found = t;
                at_offset = at;
                same = same;
              }),
        )

    added :
        offset ≡ p.log.next_offset → append x r p ≡ (ok v, p') → (v ≡ offset) × Agrees x p' offset r
    added same e = elim (append-Appended x p p' closed active rs r v h held e) [
      | inl (_, again) ↦ absurd (subst (λ o. IsRetry p o v) plain again)
      | inr (a, value) ↦ (
        value ∙ sym same,
        subst (λ o. Agrees x p' o r) (sym same) (Agrees-Appended x p p' closed active rs r h a),
      )
    ]
