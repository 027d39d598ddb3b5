-- ===== src/Storage/Read/Refined.antt =====
-- `read` of crates/storage/src/lib.rs against the list of records that the log stands for: the
-- segments, their indexes and their bytes make no difference to what is read.
use sevlamq.Prelude.{bytes_eq, pair_eq}
use sevlamq.Prelude.{
  Bool, Bool-cases, List, [], ap, append-nil, append_assoc, arith, drop, drop-append, false,
  if-false, if◌then◌else◌, inl, inr, is_empty, leb, leb→le, length, ltb, lt→==_false, not, refl,
  suc, sym, true, ℕ, ◌&&◌, ◌++◌, ◌+◌, ◌<◌, ◌∙◌, ◌∷◌, ◌≡◌,
}
use sevlamq.Protocol.Types.{Bytes}
use sevlamq.Storage.Record.{body_len}
use sevlamq.Storage.Record.RoundTrip.{stored}
use sevlamq.Storage.Types.{Checks, Record, Result, StoredRecord, bind, io, ok}
use sevlamq.Storage.Segment.Layout.{
  AllFit, AllFit-back, IsCrc, encode_all, encode_all-append, length-encode_all_bound,
}
use sevlamq.Storage.Segment.{SegmentMetadata, saturating_add}
use sevlamq.Storage.Read.{
  ReadState, is_before, read, read_buffer, read_segment, read_segments, start_position, take_record,
}
use sevlamq.Storage.Read.Start.{StartsAt, start_position-StartsAt}
use sevlamq.Storage.Read.Scan.{read_buffer-scan, scan, scan-append, scan-below}
use sevlamq.Storage.Files.{Files, if_some, read_file}
use sevlamq.Storage.Log.{Partition}
use sevlamq.Storage.Log.Layout.{AreClosed, Holds, IsSegment, Segments, metadata_of, records_of}

leave-front :
    (x : Checks) (base offset max_bytes position : ℕ) (rs : List Record) (s : ReadState)
    → (a : StartsAt x base offset rs position) → s.full ≡ false
    → scan offset max_bytes (base + length a.front) a.back s ≡ scan offset max_bytes base rs s
leave-front x base offset max_bytes position rs s a more = elim a.reached [
  | inl low ↦
      sym (scan-below offset max_bytes base (base + length a.front) a.front a.back s refl low more)
      ∙ ap (λ l. scan offset max_bytes base l s) a.split
  | inr nil ↦
      (let same : base + length a.front ≡ base = omega (arith, ap length nil) in
        let whole : a.back ≡ rs = ap (λ l. l ++ a.back) (sym nil) ∙ a.split in cc (same, whole))
]

read_segment-scan :
    (x : Checks) (files : Files) (base offset max_bytes : ℕ) (segment : SegmentMetadata)
    (rs : List Record) (s : ReadState)
    → IsCrc x
    → IsSegment x files base segment rs
    → s.full ≡ false
    → read_segment x files offset max_bytes segment s ≡ ok (scan offset max_bytes base rs s)
read_segment-scan x files base offset max_bytes segment rs s crc h more =
    ap (λ path. bind (read_file path files) from_contents) h.path_is
    ∙ (ap (λ found. bind (if_some io found) from_contents) h.contents
        ∙ (ap (λ buffer. read_buffer x offset max_bytes (length buffer) buffer s) dropped
            ∙ (read_buffer-scan x offset max_bytes _ (base + length a.front) a.back s crc fits
                  (length-encode_all_bound x (base + length a.front) a.back)
                ∙ ap ok (leave-front x base offset max_bytes position rs s a more))))
  where
    position : ℕ
    position = start_position offset segment.index

    from_contents : Bytes → Result ReadState
    from_contents contents =
        let buffer = drop position contents in
        read_buffer x offset max_bytes (length buffer) buffer s

    a : StartsAt x base offset rs position
    a = start_position-StartsAt x base offset rs segment.index h.entries

    dropped : drop position (encode_all x base rs) ≡ encode_all x (base + length a.front) a.back
    dropped =
        ap (λ n. drop n (encode_all x base rs)) a.position_is
        ∙ (ap (λ l. drop (length (encode_all x base a.front)) (encode_all x base l)) (sym a.split)
            ∙ (ap (drop (length (encode_all x base a.front)))
                  (encode_all-append x base (base + length a.front) a.front a.back refl)
                ∙ drop-append (encode_all x base a.front)
                    (encode_all x (base + length a.front) a.back)))

    fits : AllFit x (base + length a.front) a.back
    fits = AllFit-back x base (base + length a.front) a.front a.back refl (rw a.split h.fits)

is_before-metadata_of :
    (x : Checks) (files : Files) (base end offset : ℕ) (gs : Segments) (active : SegmentMetadata)
    (rs : List Record)
    → AreClosed x files base gs end
    → IsSegment x files end active rs
    → is_before offset (metadata_of gs ++ active ∷ []) ≡ leb base offset
is_before-metadata_of x files base end offset [] active rs closed h =
    ap (λ b. leb b offset) (h.base_is ∙ sym closed)
is_before-metadata_of x files base end offset ((s, ss) ∷ gs) active rs (h, n, rest) a =
    ap (λ b. leb b offset) h.base_is

either-ok : (s : ReadState) (b : Bool) → elim b [ true ↦ ok s | false ↦ ok s ] ≡ ok s
either-ok s true = refl
either-ok s false = refl

if-ok :
    (s t : ReadState) (r : Result ReadState) (b : Bool)
    → (b ≡ false → r ≡ ok t)
    → elim b [ true ↦ ok s | false ↦ r ] ≡ ok (if b then s else t)
if-ok s t r true h = refl
if-ok s t r false h = h refl

read_segments-passed :
    (x : Checks) (files : Files) (offset max_bytes : ℕ) (segment : SegmentMetadata)
    (rest : List SegmentMetadata) (s : ReadState)
    → is_before offset rest ≡ true
    → read_segments x files offset max_bytes (segment ∷ rest) s
      ≡ read_segments x files offset max_bytes rest s
unfolding read_segments
read_segments-passed x files offset max_bytes segment rest s e = rw (read_segments, e) refl

read_segments-taken :
    (x : Checks) (files : Files) (offset max_bytes : ℕ) (segment : SegmentMetadata)
    (rest : List SegmentMetadata) (s s' : ReadState)
    → is_before offset rest ≡ false
    → read_segment x files offset max_bytes segment s ≡ ok s'
    → read_segments x files offset max_bytes (segment ∷ rest) s
      ≡ elim s'.full [ true ↦ ok s' | false ↦ read_segments x files offset max_bytes rest s' ]
unfolding read_segments
read_segments-taken x files offset max_bytes segment rest s s' e1 e2 =
    rw (read_segments, e1)
      (ap
        (λ r. bind r (λ t. elim t.full [
          | true ↦ ok t
          | false ↦ read_segments x files offset max_bytes rest t
        ]))
        e2)

last_round :
    (x : Checks) (files : Files) (offset max_bytes : ℕ) (t : ReadState)
    → elim t.full [ true ↦ ok t | false ↦ read_segments x files offset max_bytes [] t ] ≡ ok t
unfolding read_segments
last_round x files offset max_bytes t = either-ok t t.full

read_segments-scan :
    (x : Checks) (files : Files) (base end offset max_bytes : ℕ) (gs : Segments)
    (active : SegmentMetadata) (rs : List Record) (s : ReadState)
    → IsCrc x
    → AreClosed x files base gs end
    → IsSegment x files end active rs
    → s.full ≡ false
    → read_segments x files offset max_bytes (metadata_of gs ++ active ∷ []) s
      ≡ ok (scan offset max_bytes base (records_of gs ++ rs) s)
read_segments-scan x files base end offset max_bytes [] active rs s crc closed h more =
    read_segments-taken x files offset max_bytes active [] s _ refl
      (read_segment-scan x files end offset max_bytes active rs s crc h more)
    ∙ (last_round x files offset max_bytes _
        ∙ ap (λ b. ok (scan offset max_bytes b rs s)) (sym closed))
read_segments-scan x files base end offset max_bytes ((t, ts) ∷ gs) active rs s crc (h, n, rest) a
      more =
    elim (Bool-cases (leb (base + length ts) offset)) [
      | inl low ↦
          read_segments-passed x files offset max_bytes t (metadata_of gs ++ active ∷ []) s
            (before ∙ low)
          ∙ (read_segments-scan x files (base + length ts) end offset max_bytes gs active rs s crc
                rest a more
              ∙ ap ok (
                  sym (
                    scan-below offset max_bytes base (base + length ts) ts (records_of gs ++ rs) s
                      refl (leb→le (base + length ts) offset low) more)
                  ∙ whole))
      | inr high ↦
          read_segments-taken x files offset max_bytes t (metadata_of gs ++ active ∷ []) s _
            (before ∙ high) (read_segment-scan x files base offset max_bytes t ts s crc h more)
          ∙ (if-ok s' _ _ s'.full (λ still.
                read_segments-scan x files (base + length ts) end offset max_bytes gs active rs s'
                  crc rest a still)
              ∙ ap ok (
                  sym (
                    scan-append offset max_bytes base (base + length ts) ts (records_of gs ++ rs) s
                      refl more)
                  ∙ whole))
    ]
  where
    s' : ReadState
    s' = scan offset max_bytes base ts s

    before : is_before offset (metadata_of gs ++ active ∷ []) ≡ leb (base + length ts) offset
    before = is_before-metadata_of x files (base + length ts) end offset gs active rs rest a

    whole :
        scan offset max_bytes base (ts ++ (records_of gs ++ rs)) s
        ≡ scan offset max_bytes base ((ts ++ records_of gs) ++ rs) s
    whole = ap (λ l. scan offset max_bytes base l s) (sym (append_assoc ts (records_of gs) rs))

-- What is fetched from records whose first one has offset `here`: those from the offset on, until the
-- next one would pass the limit. The first one is fetched whatever its size.
unfoldable pub fetched : ℕ → ℕ → ℕ → ℕ → Bool → List Record → List StoredRecord
fetched offset max_bytes here used first [] = []
fetched offset max_bytes here used first (r ∷ rs) =
    let total = saturating_add used (8 + body_len r) in
    let passed = fetched offset max_bytes (suc here) used first rs in
    let rest = fetched offset max_bytes (suc here) total false rs in
    if ltb here offset
    then passed
    else if not first && ltb max_bytes total
    then []
    else stored r here ∷ rest

is_empty-append {ℓ} : {A : Type ℓ} (xs : List A) (a : A) → is_empty (xs ++ a ∷ []) ≡ false
is_empty-append [] a = refl
is_empty-append (b ∷ xs) a = refl

scan-fetched :
    (offset max_bytes here : ℕ) (rs : List Record) (s : ReadState)
    → s.full ≡ false
    → (scan offset max_bytes here rs s).records
      ≡ s.records ++ fetched offset max_bytes here s.bytes_read (is_empty s.records) rs
unfolding scan fetched take_record
scan-fetched offset max_bytes here [] s more = sym (append-nil s.records)
scan-fetched offset max_bytes here (r ∷ rs) s more = elim (Bool-cases (ltb here offset)) [
  | inl low ↦
      rw low (
        ap (λ t. t.records) (if-false s _ more)
        ∙ scan-fetched offset max_bytes (suc here) rs s more)
  | inr high ↦
      elim (Bool-cases (
        not (is_empty s.records) && ltb max_bytes (saturating_add s.bytes_read (8 + body_len r)))) [
          | inl over ↦ rw (high, over) (sym (append-nil s.records))
          | inr fits ↦
              rw (high, fits)
                (scan-fetched offset max_bytes (suc here) rs
                    (record {
                      records = s.records ++ stored r here ∷ [];
                      bytes_read = saturating_add s.bytes_read (8 + body_len r);
                      full = false;
                    })
                    refl
                  ∙ rw (is_empty-append s.records (stored r here))
                      (append_assoc s.records (stored r here ∷ []) _))
        ]
]

-- On a log that stands for a list of records, `read` returns the records from the offset on that the
-- limit lets through, for every limit but 0, however the records lie in segments and whatever the
-- indexes hold.
pub read-fetched :
    (x : Checks) (p : Partition) (closed : Segments) (active : SegmentMetadata) (rs : List Record)
    (offset max_bytes : ℕ)
    → IsCrc x
    → 0 < max_bytes
    → (h : Holds x p closed active rs)
    → read x offset max_bytes p
      ≡ ok (fetched offset max_bytes h.base 0 true (records_of closed ++ rs))
unfolding read
read-fetched x p closed active rs offset max_bytes crc positive h =
    rw (lt→==_false max_bytes 0 positive, h.segments_are)
      (ap (λ r. bind r (λ s. ok s.records))
          (read_segments-scan x p.files h.base h.end offset max_bytes closed active rs empty crc
            h.closed_are h.active_is refl)
        ∙ ap ok (scan-fetched offset max_bytes h.base (records_of closed ++ rs) empty refl))
  where
    empty : ReadState
    empty = record { records = []; bytes_read = 0; full = false }
