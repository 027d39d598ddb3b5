-- ===== src/Storage/Read.antt =====
-- `PartitionLog::read` of crates/storage/src/lib.rs, and what is read off the segments.
pub mod Scan
pub mod Start
pub mod Refined
pub mod Progress
use sevlamq.Prelude.{
  Bool, List, Option, [], drop, false, get_elem?, if◌then◌else◌, is_empty, leb, length, ltb, none,
  not, some, suc, true, zero, ℕ, ◌&&◌, ◌++◌, ◌+◌, ◌-◌, ◌==◌, ◌∷◌,
}
use sevlamq.Protocol.Types.{Bytes}
use sevlamq.Storage.Record.{decode_record}
use sevlamq.Storage.Files.{Files, read_file}
use sevlamq.Storage.Segment.{IndexEntry, SegmentMetadata, saturating_add}
use sevlamq.Storage.Types.{
  Checks, Result, StoredRecord, bind, err, invalid_read_limit, invalid_record, ok, panic,
}
use sevlamq.Storage.Log.{Partition, PartitionLog}

-- What `read` keeps between two records. It is `full` once the record at hand would pass the limit.
pub record ReadState : Type 0 where
  pub records : List StoredRecord
  pub bytes_read : ℕ
  pub full : Bool

unfoldable pub take_record : ℕ → ℕ → StoredRecord → ℕ → ReadState → ReadState
take_record offset max_bytes found encoded_size s =
    if ltb found.offset offset
    then s
    else if not (is_empty s.records) && ltb max_bytes (saturating_add s.bytes_read encoded_size)
    then record s { full = true }
    else record {
      records = s.records ++ found ∷ [];
      bytes_read = saturating_add s.bytes_read encoded_size;
      full = false;
    }

-- The loop on a buffer, on fuel: each round takes a record off it.
unfoldable pub read_buffer : Checks → ℕ → ℕ → ℕ → Bytes → ReadState → Result ReadState
read_buffer x offset max_bytes zero buffer s = elim (is_empty buffer) [
  | true ↦ ok s
  | false ↦ panic
]
read_buffer x offset max_bytes (suc fuel) buffer s = elim (is_empty buffer) [
  | true ↦ ok s
  | false ↦ bind (decode_record x buffer) λ (found, rest). elim found [
    | none ↦ err invalid_record
    | some stored ↦
        (let s' = take_record offset max_bytes stored (length buffer - length rest) s in
          elim s'.full [ true ↦ ok s' | false ↦ read_buffer x offset max_bytes fuel rest s' ])
  ]
]

-- `partition_point(|entry| entry.offset <= offset)` of an index in the order of its offsets.
unfoldable pub partition_point : ℕ → List IndexEntry → ℕ
partition_point offset [] = 0
partition_point offset (entry ∷ index) =
    let rest = partition_point offset index in if leb entry.offset offset then suc rest else 0

abbrev pub position_at : Option IndexEntry → ℕ
position_at none = 0
position_at (some entry) = entry.position

abbrev pub position_before : ℕ → List IndexEntry → ℕ
position_before zero index = 0
position_before (suc i) index = position_at (get_elem? index i)

unfoldable pub start_position : ℕ → List IndexEntry → ℕ
start_position offset index = position_before (partition_point offset index) index

abbrev pub read_segment : Checks → Files → ℕ → ℕ → SegmentMetadata → ReadState → Result ReadState
read_segment x files offset max_bytes segment s = bind (read_file segment.path files) λ contents.
    let buffer = drop (start_position offset segment.index) contents in
    read_buffer x offset max_bytes (length buffer) buffer s

-- A segment is passed over where the next one does not start after the offset.
abbrev pub is_before : ℕ → List SegmentMetadata → Bool
is_before offset [] = false
is_before offset (following ∷ rest) = leb following.base_offset offset

unfoldable pub read_segments :
    Checks → Files → ℕ → ℕ → List SegmentMetadata → ReadState → Result ReadState
read_segments x files offset max_bytes [] s = ok s
read_segments x files offset max_bytes (segment ∷ rest) s = elim (is_before offset rest) [
  | true ↦ read_segments x files offset max_bytes rest s
  | false ↦
      bind (read_segment x files offset max_bytes segment s)
        λ s'. elim s'.full [ true ↦ ok s' | false ↦ read_segments x files offset max_bytes rest s' ]
]

unfoldable pub read : Checks → ℕ → ℕ → Partition → Result (List StoredRecord)
read x offset max_bytes p =
    if max_bytes == 0
    then err invalid_read_limit
    else bind
        (read_segments x p.files offset max_bytes p.log.segments
          (record { records = []; bytes_read = 0; full = false }))
        λ s. ok s.records

unfoldable pub log_size_bytes : List SegmentMetadata → ℕ
log_size_bytes [] = 0
log_size_bytes (s ∷ segments) = s.len + log_size_bytes segments

abbrev pub low_watermark : PartitionLog → ℕ
low_watermark log = elim log.segments [ [] ↦ log.next_offset | s ∷ rest ↦ s.base_offset ]
