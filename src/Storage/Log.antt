-- ===== src/Storage/Log.antt =====
-- `PartitionLog` of crates/storage/src/lib.rs: its state, with the files of the partition, and one
-- function for each operation.
pub mod Names
pub mod Layout
pub mod Writing
pub mod Rotating
pub mod Appending
pub mod Retry
pub mod Sequences
use sevlamq.Prelude.{bytes_eq, pair_eq}
use sevlamq.Prelude.{
  Bool, List, Option, [], all, if◌then◌else◌, insert, is_empty, is_identifier_byte, length, lookup,
  ltb, none, not, some, starts_with_underscores, ℕ, ◌&&◌, ◌++◌, ◌==◌, ◌||◌, ◌∷◌,
}
use sevlamq.Protocol.Types.{Bytes}
use sevlamq.Storage.Record.{validate_producer_id, decode_record, encode_record}
use sevlamq.Storage.Files.{
  Action, FileName, Files, append_file, if_some, lift, modify, open_file, pure, read_state, when,
  ◌>>=◌, ◌>>◌,
}
use sevlamq.Storage.Segment.{
  ProducerState, SegmentMetadata, check_sequence, checked_add, create_segment, encode_index_entry,
  index_path, last, push_entry, saturating_add, should_index,
}
use sevlamq.Storage.Types.{
  Checks, ProducerIdentity, Record, Result, err, invalid_topic, missing_active_segment,
  offset_overflow, ok, record_too_large,
}

-- A handle is the name of the file that it was opened for.
pub record PartitionLog : Type 0 where
  pub next_offset : ℕ
  pub max_segment_bytes : ℕ
  pub index_interval_bytes : ℕ
  pub segments : List SegmentMetadata
  pub active_file : FileName
  pub active_index_file : FileName
  pub producer_state : ProducerState

pub record Partition : Type 0 where
  pub files : Files
  pub log : PartitionLog

abbrev pub on_files : {A : Type 0} → Action Files A → Action Partition A
on_files m p = let (r, files) = m p.files in (r, record { files = files; log = p.log })

abbrev pub on_log : (PartitionLog → PartitionLog) → Action Partition Unit
on_log f = modify λ p. record { files = p.files; log = f p.log }

abbrev pub write_all : FileName → Bytes → Action Partition Unit
write_all name bytes = modify λ p. record { files = append_file name bytes p.files; log = p.log }

abbrev pub with_segments : List SegmentMetadata → PartitionLog → PartitionLog
with_segments segments log = record log { segments = segments }

unfoldable pub validate_topic : Bytes → Result (Unit {0})
validate_topic topic =
    if is_empty topic || starts_with_underscores topic || not (all is_identifier_byte topic)
    then err invalid_topic
    else ok tt

-- `create_segment`, and the two handles of the new segment.
unfoldable pub start_segment : ℕ → Action Partition SegmentMetadata
start_segment base_offset = do
  segment ← on_files (create_segment base_offset)
  on_files (open_file segment.path)
  on_log λ log. record log { active_file = segment.path }
  on_files (open_file (index_path segment.path))
  on_log λ log. record log { active_index_file = index_path segment.path }
  pure segment

unfoldable pub rotate : Action Partition Unit
rotate p =
    (start_segment p.log.next_offset >>= λ segment.
    on_log λ log. with_segments (log.segments ++ segment ∷ []) log)
      p

abbrev pub active_segment : Partition → Result SegmentMetadata
active_segment p = if_some missing_active_segment (last p.log.segments)

-- `segments.last_mut()`
abbrev pub update_last :
    (SegmentMetadata → SegmentMetadata) → List SegmentMetadata → List SegmentMetadata
update_last f [] = []
update_last f (s ∷ []) = f s ∷ []
update_last f (s ∷ t ∷ rest) = s ∷ update_last f (t ∷ rest)

abbrev pub must_rotate : ℕ → ℕ → SegmentMetadata → Bool
must_rotate max_segment_bytes encoded_len active =
    not (active.len == 0) && ltb max_segment_bytes (saturating_add active.len encoded_len)

abbrev pub set_active_len : ℕ → PartitionLog → PartitionLog
set_active_len len log = with_segments (update_last (λ s. record s { len = len }) log.segments) log

abbrev pub push_index : Bool → ℕ → ℕ → PartitionLog → PartitionLog
push_index due offset position log =
    with_segments
      (update_last (λ s. record s { index = push_entry due offset position s.index }) log.segments)
      log

abbrev pub remember_producer : Option ProducerIdentity → ℕ → PartitionLog → PartitionLog
remember_producer none offset log = log
remember_producer (some producer) offset log = record log {
  producer_state = insert producer.id (producer.sequence, offset) log.producer_state;
}

abbrev pub write_index : ℕ → ℕ → Action Partition Unit
write_index offset position p =
    write_all p.log.active_index_file (encode_index_entry offset position) p

abbrev pub write_active : Bytes → Action Partition Unit
write_active encoded p = write_all p.log.active_file encoded p

abbrev pub is_index_due : SegmentMetadata → PartitionLog → Bool
is_index_due active log = should_index log.index_interval_bytes active.len active.index

-- `append` from the choice of the position in the active segment on.
unfoldable pub write_record : Record → ℕ → Bytes → SegmentMetadata → Bool → Action Partition ℕ
write_record r offset encoded active due = do
  when due (write_index offset active.len)
  write_active encoded
  len ← lift (checked_add record_too_large active.len (length encoded))
  on_log (set_active_len len)
  on_log (push_index due offset active.len)
  following ← lift (checked_add offset_overflow offset 1)
  on_log (λ log. record log { next_offset = following })
  on_log (remember_producer r.producer offset)
  pure offset

unfoldable pub rotate_if : Bool → Action Partition Unit
rotate_if full = when full rotate

-- `append` for a record that is not a retry.
unfoldable pub append_new : Record → Checks → Action Partition ℕ
append_new r x p =
    (lift (encode_record x r p.log.next_offset) >>= λ encoded.
    read_state active_segment >>= λ active.
    rotate_if (must_rotate p.log.max_segment_bytes (length encoded) active) >>= λ _.
    read_state active_segment >>= λ current.
    λ q. write_record r p.log.next_offset encoded current (is_index_due current q.log) q)
      p

abbrev pub is_retry : ProducerIdentity → Option (ℕ × ℕ) → Option ℕ
is_retry producer none = none
is_retry producer (some (sequence, offset)) =
    if sequence == producer.sequence then some offset else none

abbrev pub append_producer : Checks → Record → ProducerIdentity → Action Partition ℕ
append_producer x r producer p =
    elim (is_retry producer (lookup producer.id p.log.producer_state)) [
      | some offset ↦ (ok offset, p)
      | none ↦ (lift (check_sequence p.log.producer_state producer) >> append_new r x) p
    ]

abbrev pub append_from : Checks → Record → Option ProducerIdentity → Action Partition ℕ
append_from x r none = append_new r x
append_from x r (some producer) =
    lift (validate_producer_id producer.id) >> append_producer x r producer

unfoldable pub append : Checks → Record → Action Partition ℕ
append x r = append_from x r r.producer
