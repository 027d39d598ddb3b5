-- ===== src/Storage/Segment.antt =====
-- The segments of a partition: `recover_segment`, `discover_segments`, `create_segment` and the index
-- files of crates/storage/src/lib.rs.
pub mod Layout
pub mod Recovering
pub mod Crash
pub mod Total
use sevlamq.Prelude.{bytes_eq, pair_eq}
use sevlamq.Prelude.{
  Bool, Bool-cases, List, Option, [], all, arith, if◌then◌else◌, inl, inr, insert, leb, length,
  lookup, ltb, ltb→lt, lt→ltb, none, refl, some, suc, sym, true, zero, ℕ, ◌%◌, ◌&&◌, ◌*◌, ◌++◌, ◌+◌,
  ◌-◌, ◌/◌, ◌<◌, ◌==◌, ◌^◌, ◌∷◌, ◌≟◌, ◌≡◌,
}
use sevlamq.Protocol.Types.{Bytes}
use sevlamq.Storage.Record.{validate_producer_id, decode_record}
use sevlamq.Storage.Files.{Action, FileName, Files, create_new, pure, read_file, write_file, ◌>>◌}
use sevlamq.Storage.Types.{
  Checks, ProducerIdentity, Result, StorageError, StoredRecord, bind, err, guard,
  invalid_segment_name, offset_overflow, ok, ok_injective, panic, unexpected_offset,
  unexpected_producer_sequence,
}
use sevlamq.Protocol.Writer.{be}

pub record IndexEntry : Type 0 where
  pub offset : ℕ
  pub position : ℕ

pub record SegmentMetadata : Type 0 where
  pub base_offset : ℕ
  pub path : FileName
  pub len : ℕ
  pub index : List IndexEntry

-- The last sequence of each producer, and the offset of its record.
abbrev pub ProducerState : Type 0
ProducerState = List (Bytes × (ℕ × ℕ))

abbrev pub saturating_add : ℕ → ℕ → ℕ
saturating_add a b = if ltb (a + b) (2 ^ 64) then a + b else 2 ^ 64 - 1

abbrev pub checked_add : StorageError → ℕ → ℕ → Result ℕ
checked_add e a b = if ltb (a + b) (2 ^ 64) then ok (a + b) else err e

pub checked_add-fits :
    (e : StorageError) (a b c : ℕ) → c ≡ a + b → c < 2 ^ 64 → checked_add e a b ≡ ok c
checked_add-fits e a b c same small = rw (lt→ltb (a + b) (2 ^ 64) (omega arith), same) refl

pub checked_add-ok :
    (e : StorageError) (a b c : ℕ) → checked_add e a b ≡ ok c → (c ≡ a + b) × (c < 2 ^ 64)
checked_add-ok e a b c = elim (Bool-cases (ltb (a + b) (2 ^ 64))) [
  | inl fits ↦ rw fits λ h.
      let same = ok_injective (a + b) c h in
      (sym same, omega (arith, same, ltb→lt (a + b) (2 ^ 64) fits))
  | inr high ↦ rw high (λ h. cc)
]

abbrev pub expected_sequence : Option (ℕ × ℕ) → ℕ
expected_sequence none = 0
expected_sequence (some (sequence, offset)) = saturating_add sequence 1

-- The arms of the matches on `producer_state.get` that return `UnexpectedProducerSequence`.
abbrev pub check_sequence : ProducerState → ProducerIdentity → Result (Unit {0})
check_sequence state producer =
    let expected = expected_sequence (lookup producer.id state) in
    guard (producer.sequence == expected)
      (unexpected_producer_sequence producer.id expected producer.sequence)

-- What `recover_segment` keeps between two records.
pub record Recovery : Type 0 where
  pub next_offset : ℕ
  pub index : List IndexEntry
  pub producer_state : ProducerState

unfoldable pub recover_producer : Option ProducerIdentity → ℕ → ProducerState → Result ProducerState
recover_producer none offset state = ok state
recover_producer (some producer) offset state = bind (validate_producer_id producer.id) λ _.
    bind (check_sequence state producer)
      λ _. ok (insert producer.id (producer.sequence, offset) state)

abbrev pub last {ℓ} : {A : Type ℓ} → List A → Option A
last [] = none
last (a ∷ []) = some a
last (a ∷ b ∷ rest) = last (b ∷ rest)

abbrev pub is_due : ℕ → ℕ → Option IndexEntry → Bool
is_due interval position none = true
is_due interval position (some entry) = leb interval (position - entry.position)

-- `index.last().is_none_or(...)`
abbrev pub should_index : ℕ → ℕ → List IndexEntry → Bool
should_index interval position index = is_due interval position (last index)

abbrev pub push_entry : Bool → ℕ → ℕ → List IndexEntry → List IndexEntry
push_entry due offset position index =
    if due then index ++ record { offset = offset; position = position } ∷ [] else index

-- The body of the loop for a record that was found at `position`.
unfoldable pub recover_record : ℕ → ℕ → StoredRecord → Recovery → Result Recovery
recover_record interval position found r =
    bind (guard (found.offset == r.next_offset) (unexpected_offset r.next_offset found.offset)) λ _.
      bind (recover_producer found.producer found.offset r.producer_state) λ state.
        let due = should_index interval position r.index in
        let index = push_entry due found.offset position r.index in
        bind (checked_add offset_overflow r.next_offset 1) λ following.
          ok (record { next_offset = following; index = index; producer_state = state })

-- The loop, on fuel: each round but the last takes a record off the buffer.
unfoldable pub recover_loop : Checks → ℕ → ℕ → ℕ → Bytes → Recovery → Result (Recovery × ℕ)
recover_loop x interval total_len zero buffer r = panic
recover_loop x interval total_len (suc fuel) buffer r =
    bind (decode_record x buffer) λ (found, rest). elim found [
      | none ↦ ok (r, total_len - length rest)
      | some stored ↦
          bind (recover_record interval (total_len - length buffer) stored r)
            λ r'. recover_loop x interval total_len fuel rest r'
    ]

unfoldable pub recover_contents : Checks → ℕ → Bytes → Recovery → Result (Recovery × ℕ)
recover_contents x interval contents r =
    recover_loop x interval (length contents) (length contents + 1) contents r

abbrev pub recover_segment :
    Checks → FileName → ℕ → ℕ → ProducerState → Files → Result (Recovery × ℕ)
recover_segment x path next_offset interval state files = bind (read_file path files) λ contents.
    recover_contents x interval contents
      (record { next_offset = next_offset; index = []; producer_state = state })

-- `{base_offset:020}`
unfoldable pub decimal : ℕ → ℕ → Bytes
decimal zero n = []
decimal (suc width) n = decimal width (n / 10) ++ (b'0' + n % 10) ∷ []

abbrev pub log_extension : Bytes
log_extension = b'l' ∷ b'o' ∷ b'g' ∷ []

abbrev pub idx_extension : Bytes
idx_extension = b'i' ∷ b'd' ∷ b'x' ∷ []

abbrev pub segment_path : ℕ → FileName
segment_path base_offset = (decimal 20 base_offset, log_extension)

-- `log_path.with_extension("idx")`
abbrev pub index_path : FileName → FileName
index_path (stem, extension) = (stem, idx_extension)

abbrev pub is_ascii_digit : ℕ → Bool
is_ascii_digit b = leb b'0' b && leb b b'9'

unfoldable pub parse_digits : ℕ → Bytes → ℕ
parse_digits n [] = n
parse_digits n (b ∷ rest) = parse_digits (n * 10 + (b - b'0')) rest

-- An entry of the directory, where it is a segment.
unfoldable pub discover_entry : FileName × Bytes → Result (Option SegmentMetadata)
discover_entry ((stem, extension), contents) =
    if extension ≟ log_extension
    then bind (guard (length stem == 20 && all is_ascii_digit stem) invalid_segment_name) (λ _.
      bind (guard (ltb (parse_digits 0 stem) (2 ^ 64)) invalid_segment_name) λ _. ok (
        some (record {
          base_offset = parse_digits 0 stem;
          path = (stem, extension);
          len = length contents;
          index = [];
        })))
    else ok none

abbrev pub insert_segment : SegmentMetadata → List SegmentMetadata → List SegmentMetadata
insert_segment s [] = s ∷ []
insert_segment s (t ∷ rest) =
    let later = insert_segment s rest in
    if leb s.base_offset t.base_offset then s ∷ t ∷ rest else t ∷ later

abbrev pub add_found : Option SegmentMetadata → List SegmentMetadata → List SegmentMetadata
add_found none segments = segments
add_found (some s) segments = insert_segment s segments

-- The segments of the directory, sorted by their base offsets.
unfoldable pub discover_segments : Files → Result (List SegmentMetadata)
discover_segments [] = ok []
discover_segments (entry ∷ files) =
    bind (discover_entry entry)
      λ found. bind (discover_segments files) λ segments. ok (add_found found segments)

unfoldable pub create_segment : ℕ → Action Files SegmentMetadata
create_segment base_offset =
    create_new (segment_path base_offset)
    >> create_new (index_path (segment_path base_offset))
    >> pure
        (record { base_offset = base_offset; path = segment_path base_offset; len = 0; index = [] })

abbrev pub encode_index_entry : ℕ → ℕ → Bytes
encode_index_entry offset position = be 8 offset ++ be 8 position

unfoldable pub encode_index : List IndexEntry → Bytes
encode_index [] = []
encode_index (entry ∷ index) = encode_index_entry entry.offset entry.position ++ encode_index index

abbrev pub rewrite_index : SegmentMetadata → Files → Files
rewrite_index s files = write_file (index_path s.path) (encode_index s.index) files
