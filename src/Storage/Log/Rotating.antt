-- ===== src/Storage/Log/Rotating.antt =====
-- `rotate` of crates/storage/src/lib.rs: the active segment becomes a closed one, and a new and empty
-- segment starts at the next offset.
use sevlamq.Prelude.{bytes_eq, pair_eq}
use sevlamq.Prelude.{
  List, Option-cases, [], ap, arith, inl, inr, insert, length, lookup, lookup-insert_miss,
  lookup-insert_self, none, refl, some, subst, sym, ℕ, ◌++◌, ◌<◌, ◌∙◌, ◌∷◌, ◌≡◌, ◌≢◌,
}
use sevlamq.Protocol.Types.{Bytes}
use sevlamq.Storage.Types.{Checks, Record, ok}
use sevlamq.Storage.Segment.Layout.{encode_all}
use sevlamq.Storage.Segment.{SegmentMetadata, create_segment, index_path, segment_path}
use sevlamq.Storage.Log.Layout.{
  AgreeBelow, AreClosed-agree, AreClosed-close, Holds, IsSegment-agree, Segments,
  metadata_of-append,
}
use sevlamq.Storage.Log.{Partition, rotate, start_segment, with_segments}
use sevlamq.Storage.Files.{
  Files, create_new-fresh, create_new-taken, next-ok, open_file-found, pair-ok,
}
use sevlamq.Storage.Log.Names.{index_path_apart, segment_path_apart}

abbrev pub fresh : ℕ → SegmentMetadata
fresh base = record { base_offset = base; path = segment_path base; len = 0; index = [] }

log_created : ℕ → Files → Files
log_created base files = insert (segment_path base) [] files

both_created : ℕ → Files → Files
both_created base files = insert (index_path (segment_path base)) [] (log_created base files)

pub started : ℕ → Partition → Partition
started base p = record {
  files = both_created base p.files;
  log = record p.log {
    active_file = segment_path base;
    active_index_file = index_path (segment_path base);
  };
}

lookup-both_created_log :
    (base : ℕ) (files : Files) → lookup (segment_path base) (both_created base files) ≡ some []
unfolding both_created log_created
lookup-both_created_log base files =
    lookup-insert_miss (index_path (segment_path base)) (segment_path base) []
      (log_created base files) (index_path_apart (segment_path base) base)
    ∙ lookup-insert_self (segment_path base) [] files

lookup-both_created_index :
    (base : ℕ) (files : Files)
    → lookup (index_path (segment_path base)) (both_created base files) ≡ some []
unfolding both_created
lookup-both_created_index base files =
    lookup-insert_self (index_path (segment_path base)) [] (log_created base files)

create_segment-fresh :
    (base : ℕ) (files : Files)
    → lookup (segment_path base) files ≡ none
    → lookup (index_path (segment_path base)) (log_created base files) ≡ none
    → create_segment base files ≡ (ok (fresh base), both_created base files)
unfolding create_segment log_created both_created
create_segment-fresh base files e1 e2 = rw (
  create_new-fresh (segment_path base) files e1,
  create_new-fresh (index_path (segment_path base)) (log_created base files) e2,
)

start_segment-fresh :
    (base : ℕ) (p : Partition)
    → lookup (segment_path base) p.files ≡ none
    → lookup (index_path (segment_path base)) (log_created base p.files) ≡ none
    → start_segment base p ≡ (ok (fresh base), started base p)
unfolding start_segment started
start_segment-fresh base p e1 e2 = rw (
  create_segment-fresh base p.files e1 e2,
  open_file-found (segment_path base) [] (both_created base p.files)
      (lookup-both_created_log base p.files),
  open_file-found (index_path (segment_path base)) [] (both_created base p.files)
      (lookup-both_created_index base p.files),
)

start_segment-taken :
    (base : ℕ) (p p' : Partition) (s : SegmentMetadata) (bytes : Bytes)
    → lookup (segment_path base) p.files ≡ some bytes
    → start_segment base p ≢ (ok s, p')
unfolding start_segment create_segment
start_segment-taken base p p' s bytes e =
    rw (create_new-taken (segment_path base) bytes p.files e) (λ h. cc)

start_segment-taken_index :
    (base : ℕ) (p p' : Partition) (s : SegmentMetadata) (bytes : Bytes)
    → lookup (segment_path base) p.files ≡ none
    → lookup (index_path (segment_path base)) (log_created base p.files) ≡ some bytes
    → start_segment base p ≢ (ok s, p')
unfolding start_segment create_segment log_created
start_segment-taken_index base p p' s bytes e1 e2 =
    rw
      (
        create_new-fresh (segment_path base) p.files e1,
        create_new-taken (index_path (segment_path base)) bytes (log_created base p.files) e2,
      )
      (λ h. cc)

-- A new segment needs names that no file has.
pub start_segment-ok :
    (base : ℕ) (p : Partition) (s : SegmentMetadata) (p' : Partition)
    → start_segment base p ≡ (ok s, p')
    → (lookup (segment_path base) p.files ≡ none) × (s ≡ fresh base) × (p' ≡ started base p)
start_segment-ok base p s p' h = elim (Option-cases (lookup (segment_path base) p.files)) [
  | inr (bytes, e) ↦ absurd (start_segment-taken base p p' s bytes e h)
  | inl e1 ↦
      elim (Option-cases (lookup (index_path (segment_path base)) (log_created base p.files))) [
        | inr (bytes, e2) ↦ absurd (start_segment-taken_index base p p' s bytes e1 e2 h)
        | inl e2 ↦
            (let (same, left) =
                pair-ok (fresh base) s (started base p) p'
                  (sym (start_segment-fresh base p e1 e2) ∙ h) in
              (e1, sym same, sym left))
      ]
]

rotated : Partition → Partition
rotated p =
    let q = started p.log.next_offset p in
    record q { log = with_segments (q.log.segments ++ fresh p.log.next_offset ∷ []) q.log }

rotate-ok :
    (p p' : Partition)
    → rotate p ≡ (ok tt, p')
    → (lookup (segment_path p.log.next_offset) p.files ≡ none) × (p' ≡ rotated p)
unfolding rotate rotated
rotate-ok p p' e =
    let (s, q, e1, e2) = next-ok (start_segment p.log.next_offset p) _ tt p' e in
    let (free, same, left) = start_segment-ok p.log.next_offset p s q e1 in
    let end = ap (λ (r, t). t) e2 in (free, sym end ∙ cc (same, left))

rotated-Holds :
    (x : Checks) (p : Partition) (closed : Segments) (active : SegmentMetadata) (rs : List Record)
    → Holds x p closed active rs
    → 0 < length rs
    → lookup (segment_path p.log.next_offset) p.files ≡ none
    → Holds x (rotated p) (closed ++ (active, rs) ∷ []) (fresh p.log.next_offset) []
unfolding rotated started both_created log_created encode_all
rotated-Holds x p closed active rs h n e = record {
  base = h.base;
  end = p.log.next_offset;
  segments_are =
      ap (λ l. l ++ fresh p.log.next_offset ∷ [])
        (h.segments_are ∙ sym (metadata_of-append closed active rs));
  closed_are =
      AreClosed-close x _ h.base h.end p.log.next_offset closed active rs
        (AreClosed-agree x p.files _ h.base h.end closed
          (λ base below. same base (omega (arith, h.next_is))) h.closed_are)
        (IsSegment-agree x p.files _ h.end active rs (same h.end (omega (arith, h.next_is)))
          h.active_is)
        n h.next_is;
  active_is = record {
    base_is = refl;
    path_is = refl;
    contents = lookup-both_created_log p.log.next_offset p.files;
    len_is = refl;
    entries = tt;
    fits = tt;
  };
  next_is = omega arith;
  next_fits = h.next_fits;
  file_is = refl;
  index_file_is = refl;
}
  where
    same : AgreeBelow p.log.next_offset p.files (both_created p.log.next_offset p.files)
    same base below =
        lookup-insert_miss (index_path (segment_path p.log.next_offset)) (segment_path base) []
          (log_created p.log.next_offset p.files)
          (index_path_apart (segment_path p.log.next_offset) base)
        ∙ lookup-insert_miss (segment_path p.log.next_offset) (segment_path base) [] p.files
            (segment_path_apart base p.log.next_offset below h.next_fits)

-- The log goes on to stand for the same records where `rotate` succeeds.
pub rotate-Holds :
    (x : Checks) (p p' : Partition) (closed : Segments) (active : SegmentMetadata)
    (rs : List Record)
    → Holds x p closed active rs
    → 0 < length rs
    → rotate p ≡ (ok tt, p')
    → Holds x p' (closed ++ (active, rs) ∷ []) (fresh p.log.next_offset) []
      × (p'.log.next_offset ≡ p.log.next_offset)
      × (p'.log.producer_state ≡ p.log.producer_state)
unfolding rotated started
rotate-Holds x p p' closed active rs h n e =
    let (free, left) = rotate-ok p p' e in
    subst
      (λ q.
        Holds x q (closed ++ (active, rs) ∷ []) (fresh p.log.next_offset) []
        × (q.log.next_offset ≡ p.log.next_offset)
        × (q.log.producer_state ≡ p.log.producer_state))
      (sym left) (rotated-Holds x p closed active rs h n free, refl, refl)
