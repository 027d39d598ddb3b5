-- ===== src/Storage/Read/Progress.antt =====
-- A reader of a log of crates/storage/src/lib.rs gets on: below the next offset `read` returns the
-- record of the offset first, and the records after it in their order.
use sevlamq.Prelude.{bytes_eq, pair_eq}
use sevlamq.Prelude.{
  Bool, Bool-cases, List, [], ap, arith, drop, false, get_elem?, inl, inr, length, length-append,
  le→ltb_false, ltb, ltb_false→le, ltb→lt, not, refl, some, suc, sym, take, true, ℕ, ◌&&◌, ◌++◌,
  ◌+◌, ◌-◌, ◌<◌, ◌∙◌, ◌∷◌, ◌≡◌, ◌≤◌,
}
use sevlamq.Storage.Record.{body_len}
use sevlamq.Storage.Record.RoundTrip.{stored}
use sevlamq.Storage.Types.{Checks, Record, StoredRecord, ok}
use sevlamq.Storage.Segment.Layout.{IsCrc}
use sevlamq.Storage.Segment.{SegmentMetadata, saturating_add}
use sevlamq.Storage.Read.{read}
use sevlamq.Storage.Read.Refined.{fetched, read-fetched}
use sevlamq.Storage.Files.{Files}
use sevlamq.Storage.Log.{Partition}
use sevlamq.Storage.Log.Layout.{AreClosed, Holds, Segments, records_of}

-- The records as they are stored from an offset on.
abbrev pub stored_all : ℕ → List Record → List StoredRecord
stored_all here [] = []
stored_all here (r ∷ rs) = stored r here ∷ stored_all (suc here) rs

fetched-reached :
    (offset max_bytes here used : ℕ) (first : Bool) (rs : List Record)
    → offset ≤ here
    → (n : ℕ) × (fetched offset max_bytes here used first rs ≡ take n (stored_all here rs))
unfolding fetched
fetched-reached offset max_bytes here used first [] h = (0, refl)
fetched-reached offset max_bytes here used first (r ∷ rs) h =
    elim (Bool-cases (not first && ltb max_bytes (saturating_add used (8 + body_len r)))) [
      | inl over ↦ (0, rw (le→ltb_false here offset h, over) refl)
      | inr fits ↦
          (let (n, e) =
              fetched-reached offset max_bytes (suc here) (saturating_add used (8 + body_len r))
                false rs (omega arith) in
            (suc n, rw (le→ltb_false here offset h, fits) (ap (λ l. stored r here ∷ l) e)))
    ]

fetched-take :
    (offset max_bytes here used : ℕ) (first : Bool) (rs : List Record)
    → here ≤ offset
    → (n : ℕ) × (fetched offset max_bytes here used first rs
        ≡ take n (drop (offset - here) (stored_all here rs)))
unfolding fetched
fetched-take offset max_bytes here used first [] h = (0, refl)
fetched-take offset max_bytes here used first (r ∷ rs) h = elim (Bool-cases (ltb here offset)) [
  | inl below ↦
      (let (n, e) =
          fetched-take offset max_bytes (suc here) used first rs
            (omega (arith, ltb→lt here offset below)) in
        let gap : suc (offset - suc here) ≡ offset - here =
          omega (arith, ltb→lt here offset below) in
        (n, rw below (e ∙ ap (λ k. take n (drop k (stored_all here (r ∷ rs)))) gap)))
  | inr at ↦
      (let (n, e) =
          fetched-reached offset max_bytes here used first (r ∷ rs) (ltb_false→le here offset at) in
        let gap : 0 ≡ offset - here = omega (arith, ltb_false→le here offset at) in
        (n, e ∙ ap (λ k. take n (drop k (stored_all here (r ∷ rs)))) gap))
]

fetched-first :
    (offset max_bytes here used : ℕ) (rs : List Record)
    → here ≤ offset
    → offset < here + length rs
    → (r : Record) × (rest : List StoredRecord) × (get_elem? rs (offset - here) ≡ some r)
      × (fetched offset max_bytes here used true rs ≡ stored r offset ∷ rest)
unfolding fetched
fetched-first offset max_bytes here used [] h k = absurd (omega arith)
fetched-first offset max_bytes here used (r ∷ rs) h k = elim (Bool-cases (ltb here offset)) [
  | inl below ↦
      (let (t, rest, e1, e2) =
          fetched-first offset max_bytes (suc here) used rs
            (omega (arith, ltb→lt here offset below)) (omega arith) in
        let gap : suc (offset - suc here) ≡ offset - here =
          omega (arith, ltb→lt here offset below) in
        (t, rest, ap (get_elem? (r ∷ rs)) (sym gap) ∙ e1, rw below e2))
  | inr at ↦
      (let same : here ≡ offset = omega (arith, ltb_false→le here offset at) in
        let gap : 0 ≡ offset - here = omega (arith, ltb_false→le here offset at) in
        let rest =
          fetched offset max_bytes (suc here) (saturating_add used (8 + body_len r)) false rs in
        (r, rest, ap (get_elem? (r ∷ rs)) (sym gap), rw at (ap (λ o. stored r o ∷ rest) same)))
]

pub AreClosed-end :
    (x : Checks) (files : Files) (base end : ℕ) (gs : Segments)
    → AreClosed x files base gs end
    → end ≡ base + length (records_of gs)
AreClosed-end x files base end [] h = omega arith
AreClosed-end x files base end ((s, rs) ∷ gs) (h, n, rest) =
    omega (
      arith,
      AreClosed-end x files (base + length rs) end gs rest,
      length-append rs (records_of gs),
    )

-- What `read` returns is a run of the records without a gap, from the offset on.
pub read-take :
    (x : Checks) (p : Partition) (closed : Segments) (active : SegmentMetadata) (rs : List Record)
    (offset max_bytes : ℕ)
    → IsCrc x
    → 0 < max_bytes
    → (h : Holds x p closed active rs) → h.base ≤ offset
    → (n : ℕ) × (read x offset max_bytes p
        ≡ ok (take n (drop (offset - h.base) (stored_all h.base (records_of closed ++ rs)))))
read-take x p closed active rs offset max_bytes crc positive h low =
    let (n, e) = fetched-take offset max_bytes h.base 0 true (records_of closed ++ rs) low in
    (n, read-fetched x p closed active rs offset max_bytes crc positive h ∙ ap ok e)

-- On a log that stands for a list of records, for an offset that is not below the first record that
-- the log still has, and below the next offset, and for a limit above 0, `read` returns the record of
-- the offset, whatever its size, and other records after it.
pub read-first :
    (x : Checks) (p : Partition) (closed : Segments) (active : SegmentMetadata) (rs : List Record)
    (offset max_bytes : ℕ)
    → IsCrc x
    → 0 < max_bytes
    → (h : Holds x p closed active rs) → h.base ≤ offset
    → offset < p.log.next_offset
    → (r : Record) × (rest : List StoredRecord) × (get_elem?
          (records_of closed ++ rs)
          (offset - h.base)
        ≡ some r)
      × (read x offset max_bytes p ≡ ok (stored r offset ∷ rest))
read-first x p closed active rs offset max_bytes crc positive h low high =
    let (r, rest, e1, e2) = fetched-first offset max_bytes h.base 0 (records_of closed ++ rs) low (
      omega (
        arith,
        h.next_is,
        AreClosed-end x p.files h.base h.end closed h.closed_are,
        length-append (records_of closed) rs,
      )) in
    (r, rest, e1, read-fetched x p closed active rs offset max_bytes crc positive h ∙ ap ok e2)
