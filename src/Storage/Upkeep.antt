-- ===== src/Storage/Upkeep.antt =====
-- The operations of `PartitionLog` of crates/storage/src/lib.rs besides `append` and `read`: `open`,
-- `append_replica`, `truncate_to` and `apply_retention`.
pub mod Replica
use sevlamq.Prelude.{bytes_eq, pair_eq}
use sevlamq.Prelude.{
  Bool, List, Option, [], false, if◌then◌else◌, is_empty, leb, ltb, none, not, some, suc, true, ℕ,
  ◌&&◌, ◌++◌, ◌-◌, ◌==◌, ◌^◌, ◌||◌, ◌∷◌, ◌≟◌,
}
use sevlamq.Protocol.Types.{Bytes}
use sevlamq.Storage.Files.{
  Action, FileName, Files, if_some, lift, modify, next, open_file, pure, read_file, read_state,
  remove_file, set_len, ◌>>=◌, ◌>>◌,
}
use sevlamq.Storage.Segment.{
  ProducerState, SegmentMetadata, create_segment, discover_segments, index_path, last,
  recover_segment, rewrite_index,
}
use sevlamq.Storage.Types.{
  Checks, Record, Result, StoredRecord, bind, err, guard, incomplete_closed_segment,
  invalid_index_interval, invalid_segment_limit, max_record_size, missing_active_segment, ok,
  replica_diverged, unexpected_offset, unexpected_segment_base,
}
use sevlamq.Storage.Log.{
  Partition, PartitionLog, append, on_files, on_log, start_segment, validate_topic, with_segments,
}
use sevlamq.Storage.Read.{log_size_bytes, read}

abbrev pub find_offset : ℕ → List StoredRecord → Option StoredRecord
find_offset offset [] = none
find_offset offset (s ∷ rest) =
    let later = find_offset offset rest in if s.offset == offset then some s else later

abbrev pub same_key : Option Bytes → Option Bytes → Bool
same_key none none = true
same_key (some a) (some b) = a ≟ b
same_key _ _ = false

unfoldable pub same_content : StoredRecord → Record → Bool
same_content existing r =
    (existing.timestamp_ms == r.timestamp_ms)
    && (same_key existing.key r.key && existing.value ≟ r.value)

-- `append_replica` below the next offset: the record must be there already.
unfoldable pub check_replica : Checks → ℕ → Record → Partition → Result ℕ
check_replica x offset r p = bind (read x offset max_record_size p) λ records.
    bind (if_some (replica_diverged offset) (find_offset offset records))
      λ existing. if same_content existing r then ok offset else err (replica_diverged offset)

unfoldable pub append_replica : Checks → ℕ → Record → Action Partition ℕ
append_replica x offset r p =
    if ltb offset p.log.next_offset
    then (check_replica x offset r p, p)
    else if not (offset == p.log.next_offset)
    then (err (unexpected_offset p.log.next_offset offset), p)
    else append x r p

unfoldable pub remove_segments : List SegmentMetadata → Action Files Unit
remove_segments [] = pure tt
remove_segments (s ∷ segments) =
    remove_file (index_path s.path) >> remove_file s.path >> remove_segments segments

abbrev pub unstored : StoredRecord → Record
unstored s = record {
  key = s.key;
  value = s.value;
  timestamp_ms = s.timestamp_ms;
  producer = s.producer;
}

unfoldable pub append_all : Checks → List StoredRecord → Action Partition Unit
append_all x [] = pure tt
append_all x (s ∷ rest) = append x (unstored s) >>= λ _. append_all x rest

unfoldable pub below : ℕ → List StoredRecord → List StoredRecord
below offset [] = []
below offset (s ∷ rest) =
    let kept = below offset rest in if ltb s.offset offset then s ∷ kept else kept

-- `truncate_to` from the removal of the segments on: the retained records are appended again.
unfoldable pub rebuild : Checks → List StoredRecord → Action Partition Unit
rebuild x retained p =
    (on_files (remove_segments p.log.segments) >> start_segment 0 >>= λ segment.
    on_log (λ log. record log { segments = segment ∷ []; next_offset = 0; producer_state = [] })
    >> append_all x retained)
      p

-- `usize::MAX`
abbrev pub no_limit : ℕ
no_limit = 2 ^ 64 - 1

unfoldable pub truncate_to : Checks → ℕ → Action Partition Unit
truncate_to x offset p =
    if ltb p.log.next_offset offset
    then (err (unexpected_offset p.log.next_offset offset), p)
    else if offset == p.log.next_offset
    then (ok tt, p)
    else next (read x 0 no_limit p, p) λ records. rebuild x (below offset records)

-- `is_some_and` of a limit, and of an age where the file's age is known.
abbrev pub is_over : Option ℕ → ℕ → Bool
is_over none total = false
is_over (some limit) total = ltb limit total

abbrev pub is_aged : ℕ → Option ℕ → Bool
is_aged age none = false
is_aged age (some elapsed) = leb age elapsed

-- `metadata()?` fails where the file is missing; `elapsed` may fail for a time in the future.
unfoldable pub is_expired : (FileName → Option ℕ) → Option ℕ → FileName → Files → Result Bool
is_expired elapsed none path files = ok false
is_expired elapsed (some age) path files =
    bind (read_file path files) λ _. ok (is_aged age (elapsed path))

-- The loop of `apply_retention` on the segments that are left, with what it has removed so far.
unfoldable pub retention_loop :
    (FileName → Option ℕ) → Option ℕ → Option ℕ → List SegmentMetadata → ℕ → ℕ → Action Partition ℕ
retention_loop elapsed max_bytes max_age [] total removed = pure removed
retention_loop elapsed max_bytes max_age (s ∷ []) total removed = pure removed
retention_loop elapsed max_bytes max_age (s ∷ t ∷ rest) total removed =
    read_state (λ p. is_expired elapsed max_age s.path p.files) >>= λ expired.
    elim (is_over max_bytes total || expired) [
      | false ↦ pure removed
      | true ↦
          (on_files (remove_file (index_path s.path))
            >> on_files (remove_file s.path)
            >> on_log (with_segments (t ∷ rest))
            >> retention_loop elapsed max_bytes max_age (t ∷ rest) (total - s.len) (suc removed))
    ]

unfoldable pub apply_retention : (FileName → Option ℕ) → Option ℕ → Option ℕ → Action Partition ℕ
apply_retention elapsed max_bytes max_age p =
    retention_loop elapsed max_bytes max_age p.log.segments (log_size_bytes p.log.segments) 0 p

-- What `open` knows after some of the segments.
pub record Opened : Type 0 where
  pub segments : List SegmentMetadata
  pub next_offset : ℕ
  pub producer_state : ProducerState

-- A segment that is shorter than its file is cut, where it is the active one.
unfoldable pub cut_segment : Bool → ℕ → SegmentMetadata → Action Files ℕ
cut_segment active valid_len s =
    if not (ltb valid_len s.len)
    then pure s.len
    else if active
    then (set_len s.path valid_len >> pure valid_len)
    else lift (err (incomplete_closed_segment s.base_offset))

-- The body of the loop of `open`.
unfoldable pub open_segment : Checks → ℕ → Bool → SegmentMetadata → Opened → Action Files Opened
open_segment x interval active s o =
    lift
      (guard (s.base_offset == o.next_offset) (unexpected_segment_base o.next_offset s.base_offset))
    >> read_state (recover_segment x s.path o.next_offset interval o.producer_state)
    >>= λ (r, valid_len). cut_segment active valid_len s >>= λ len.
        let s' = record s { len = len; index = r.index } in
        modify (rewrite_index s')
        >> pure (record {
          segments = o.segments ++ s' ∷ [];
          next_offset = r.next_offset;
          producer_state = r.producer_state;
        })

unfoldable pub open_segments : Checks → ℕ → List SegmentMetadata → Opened → Action Files Opened
open_segments x interval [] o = pure o
open_segments x interval (s ∷ rest) o =
    open_segment x interval (is_empty rest) s o >>= λ o'. open_segments x interval rest o'

abbrev pub or_first_segment : List SegmentMetadata → Action Files (List SegmentMetadata)
or_first_segment [] = create_segment 0 >>= λ s. pure (s ∷ [])
or_first_segment (s ∷ segments) = pure (s ∷ segments)

abbrev pub opened_log : ℕ → ℕ → Opened → SegmentMetadata → PartitionLog
opened_log max_segment_bytes interval o active = record {
  next_offset = o.next_offset;
  max_segment_bytes = max_segment_bytes;
  index_interval_bytes = interval;
  segments = o.segments;
  active_file = active.path;
  active_index_file = index_path active.path;
  producer_state = o.producer_state;
}

unfoldable pub open_log : Checks → Bytes → ℕ → ℕ → Action Files PartitionLog
open_log x topic max_segment_bytes interval =
    lift (validate_topic topic)
    >> lift (guard (not (max_segment_bytes == 0)) invalid_segment_limit)
    >> lift (guard (not (interval == 0)) invalid_index_interval)
    >> read_state discover_segments
    >>= or_first_segment
    >>= (λ segments.
        open_segments x interval segments
          (record { segments = []; next_offset = 0; producer_state = [] }))
    >>= λ o. lift (if_some missing_active_segment (last o.segments)) >>= λ active.
        open_file active.path
        >> open_file (index_path active.path)
        >> pure (opened_log max_segment_bytes interval o active)
