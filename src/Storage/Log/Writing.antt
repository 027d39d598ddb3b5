-- ===== src/Storage/Log/Writing.antt =====
-- What `append` of crates/storage/src/lib.rs leaves behind once it has chosen the segment: the record
-- at the end of the active file, and the active segment, the index and the next offset in step with it.
use sevlamq.Prelude.{bytes_eq, pair_eq}
use sevlamq.Prelude.{
  Bool, List, Option, [], ap, append-nil, arith, false, if◌then◌else◌, length, length-append,
  lookup, none, refl, some, subst, sym, true, ℕ, ◌++◌, ◌+◌, ◌<◌, ◌^◌, ◌∙◌, ◌∷◌, ◌≡◌,
}
use sevlamq.Protocol.Types.{Bytes}
use sevlamq.Storage.Record.Encoded.{record_bytes}
use sevlamq.Storage.Types.{Checks, ProducerIdentity, Record, offset_overflow, ok, record_too_large}
use sevlamq.Storage.Segment.Layout.{
  All-push_entry, AllFit-append, Fits, IsEntry, IsEntry-append, encode_all, encode_all-append,
  length-encode_all_snoc,
}
use sevlamq.Storage.Segment.{
  SegmentMetadata, checked_add, checked_add-ok, encode_index_entry, index_path, push_entry,
  segment_path,
}
use sevlamq.Storage.Log.Layout.{
  AgreeBelow, AreClosed-agree, Holds, IsSegment, Segments, metadata_of, update_last-append,
}
use sevlamq.Storage.Log.{
  Partition, PartitionLog, push_index, remember_producer, set_active_len, update_last, write_record,
}
use sevlamq.Storage.Files.{
  FileName, Files, append_file, lift-ok, lookup-append_file_other, lookup-append_file_self, pair-ok,
}
use sevlamq.Storage.Log.Names.{index_path_apart, segment_path_apart}

unfoldable pub index_written : Bool → ℕ → ℕ → Partition → Files
index_written due offset position p =
    if due
    then append_file p.log.active_index_file (encode_index_entry offset position) p.files
    else p.files

unfoldable pub written : Record → ℕ → Bytes → SegmentMetadata → Bool → ℕ → ℕ → Partition → Partition
written r offset encoded active due len following p = record {
  files = append_file p.log.active_file encoded (index_written due offset active.len p);
  log =
      remember_producer r.producer offset
        (record (push_index due offset active.len (set_active_len len p.log)) {
          next_offset = following;
        });
}

pub write_record-ok :
    (r : Record) (offset : ℕ) (encoded : Bytes) (active : SegmentMetadata) (due : Bool)
    (p : Partition) (v : ℕ) (p' : Partition)
    → write_record r offset encoded active due p ≡ (ok v, p')
    → (active.len + length encoded < 2 ^ 64)
      × (offset + 1 < 2 ^ 64)
      × (v ≡ offset)
      × (p' ≡ written r offset encoded active due (active.len + length encoded) (offset + 1) p)
unfolding write_record written index_written
write_record-ok r offset encoded active true p v p' h =
    let (len, e1, h1) =
      lift-ok (checked_add record_too_large active.len (length encoded)) _ _ v p' h in
    let (following, e2, h2) = lift-ok (checked_add offset_overflow offset 1) _ _ v p' h1 in
    let (l, lb) = checked_add-ok record_too_large active.len (length encoded) len e1 in
    let (n, nb) = checked_add-ok offset_overflow offset 1 following e2 in
    let (same, left) = pair-ok offset v _ p' h2 in
    (omega arith, omega arith, sym same, rw (← l, ← n) (sym left))
write_record-ok r offset encoded active false p v p' h =
    let (len, e1, h1) =
      lift-ok (checked_add record_too_large active.len (length encoded)) _ _ v p' h in
    let (following, e2, h2) = lift-ok (checked_add offset_overflow offset 1) _ _ v p' h1 in
    let (l, lb) = checked_add-ok record_too_large active.len (length encoded) len e1 in
    let (n, nb) = checked_add-ok offset_overflow offset 1 following e2 in
    let (same, left) = pair-ok offset v _ p' h2 in
    (omega arith, omega arith, sym same, rw (← l, ← n) (sym left))

Holds-remember :
    (x : Checks) (files : Files) (log : PartitionLog) (closed : Segments) (active : SegmentMetadata)
    (rs : List Record) (producer : Option ProducerIdentity) (offset : ℕ)
    → Holds x (record { files = files; log = log }) closed active rs
    → Holds x
        (record { files = files; log = remember_producer producer offset log })
        closed
        active
        rs
Holds-remember x files log closed active rs none offset h = h
Holds-remember x files log closed active rs (some producer) offset h = record {
  base = h.base;
  end = h.end;
  segments_are = h.segments_are;
  closed_are = h.closed_are;
  active_is = h.active_is;
  next_is = h.next_is;
  next_fits = h.next_fits;
  file_is = h.file_is;
  index_file_is = h.index_file_is;
}

index_written-other :
    (due : Bool) (offset position : ℕ) (p : Partition) (base : ℕ) (path : FileName)
    → p.log.active_index_file ≡ index_path path
    → lookup (segment_path base) (index_written due offset position p)
      ≡ lookup (segment_path base) p.files
unfolding index_written
index_written-other false offset position p base path e = refl
index_written-other true offset position p base path e =
    lookup-append_file_other p.log.active_index_file (segment_path base)
      (encode_index_entry offset position) p.files (rw e (index_path_apart path base))

abbrev pub grown : SegmentMetadata → ℕ → Bool → ℕ → SegmentMetadata
grown active len due offset = record active {
  len = len;
  index = push_entry due offset active.len active.index;
}

IsSegment-grown :
    (x : Checks) (files files' : Files) (end offset : ℕ) (active : SegmentMetadata)
    (rs : List Record) (r : Record) (due : Bool)
    → IsSegment x files end active rs
    → offset ≡ end + length rs
    → Fits x offset r
    → lookup (segment_path end) files' ≡ some (encode_all x end rs ++ record_bytes x r offset)
    → IsSegment x files' end
        (grown active (active.len + length (record_bytes x r offset)) due offset)
        (rs ++ r ∷ [])
unfolding encode_all
IsSegment-grown x files files' end offset active rs r due h e fits found = record {
  base_is = h.base_is;
  path_is = h.path_is;
  contents = found ∙ ap some (sym whole);
  len_is = omega (arith, h.len_is, length-encode_all_snoc x end offset rs r e);
  entries =
      All-push_entry (IsEntry x end (rs ++ r ∷ [])) due offset active.len active.index
        (IsEntry-append x end rs (r ∷ []) active.index h.entries)
        (record { front = rs; back = r ∷ []; split = refl; offset_is = e; position_is = h.len_is });
  fits = AllFit-append x end offset rs (r ∷ []) e h.fits (fits, tt);
}
  where
    whole : encode_all x end (rs ++ r ∷ []) ≡ encode_all x end rs ++ record_bytes x r offset
    whole =
        encode_all-append x end offset rs (r ∷ []) e
        ∙ ap (λ l. encode_all x end rs ++ l) (append-nil (record_bytes x r offset))

pub written-Holds :
    (x : Checks) (p : Partition) (closed : Segments) (active : SegmentMetadata) (rs : List Record)
    (r : Record) (due : Bool)
    → Holds x p closed active rs
    → Fits x p.log.next_offset r
    → p.log.next_offset + 1 < 2 ^ 64
    → let encoded = record_bytes x r p.log.next_offset in
      let len = active.len + length encoded in
      Holds x
        (written r p.log.next_offset encoded active due len (p.log.next_offset + 1) p)
        closed
        (grown active len due p.log.next_offset)
        (rs ++ r ∷ [])
unfolding written
written-Holds x p closed active rs r due h fits small =
    Holds-remember x _ _ closed _ _ r.producer p.log.next_offset (record {
      base = h.base;
      end = h.end;
      segments_are = segments;
      closed_are = AreClosed-agree x p.files _ h.base h.end closed agree h.closed_are;
      active_is =
          IsSegment-grown x p.files _ h.end p.log.next_offset active rs r due h.active_is h.next_is
            fits found;
      next_is = omega (arith, h.next_is, length-append rs (r ∷ []));
      next_fits = small;
      file_is = h.file_is;
      index_file_is = h.index_file_is;
    })
  where
    entry_written : Files
    entry_written = index_written due p.log.next_offset active.len p

    agree :
        AgreeBelow h.end p.files
          (append_file p.log.active_file (record_bytes x r p.log.next_offset) entry_written)
    agree base below =
        lookup-append_file_other p.log.active_file (segment_path base)
          (record_bytes x r p.log.next_offset) entry_written
          (rw h.file_is
            (segment_path_apart base h.end below (omega (arith, h.next_is, h.next_fits))))
        ∙ index_written-other due p.log.next_offset active.len p base (segment_path h.end)
            h.index_file_is

    found :
        lookup
          (segment_path h.end)
          (append_file p.log.active_file (record_bytes x r p.log.next_offset) entry_written)
        ≡ some (encode_all x h.end rs ++ record_bytes x r p.log.next_offset)
    found =
        subst
          (λ name.
            lookup (segment_path h.end)
              (append_file name (record_bytes x r p.log.next_offset) entry_written)
            ≡ some (encode_all x h.end rs ++ record_bytes x r p.log.next_offset))
          (sym h.file_is)
          (lookup-append_file_self (segment_path h.end) (encode_all x h.end rs)
            (record_bytes x r p.log.next_offset) entry_written
            (index_written-other due p.log.next_offset active.len p h.end (segment_path h.end)
                h.index_file_is
              ∙ h.active_is.contents))

    set_len_of : SegmentMetadata → SegmentMetadata
    set_len_of s = record s { len = active.len + length (record_bytes x r p.log.next_offset) }

    set_index_of : SegmentMetadata → SegmentMetadata
    set_index_of s = record s { index = push_entry due p.log.next_offset active.len s.index }

    segments :
        update_last set_index_of (update_last set_len_of p.log.segments)
        ≡ metadata_of closed ++ set_index_of (set_len_of active) ∷ []
    segments =
        ap (λ l. update_last set_index_of (update_last set_len_of l)) h.segments_are
        ∙ (ap (λ l. update_last set_index_of l)
              (update_last-append set_len_of (metadata_of closed) active)
            ∙ update_last-append set_index_of (metadata_of closed) (set_len_of active))
