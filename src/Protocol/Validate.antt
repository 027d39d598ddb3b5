-- ===== src/Protocol/Validate.antt =====
-- The checks of crates/protocol/src/lib.rs on names and sizes, and the constructors that run them.
use sevlamq.Prelude.{
  ℕ, ◌+◌, ◌^◌, Option, none, some, List, [], ◌∷◌, ◌||◌, ◌==◌, not, length, all, ltb, is_empty,
  is_identifier_byte, starts_with_underscores, if◌then◌else◌,
}
use sevlamq.Protocol.Types.{
  Bytes, AckMode, Compression, ProducerIdentity, ProduceRequest, BatchRecord, ProduceBatchRequest,
  FetchRequest, max_topic_name, max_key_size, max_message_size, max_batch_messages,
  max_uncompressed_batch_size, max_fetch_bytes, max_fetch_wait_ms,
}
use sevlamq.Protocol.Result.{
  Result, ok, err, bind, topic_too_large, key_too_large, message_too_large, invalid_topic,
  invalid_producer_id, invalid_batch_count, batch_too_large, fetch_too_large, fetch_wait_too_long,
}
use sevlamq.Protocol.Reader.{validate_size}

infixl 5 ◌>>=◌ ◌>>◌
abbrev ◌>>=◌ {ℓ κ} : {A : Type ℓ} {B : Type κ} → Result A → (A → Result B) → Result B
◌>>=◌ = bind

abbrev ◌>>◌ {ℓ} : {B : Type ℓ} → Result (Unit {0}) → Result B → Result B
m >> n = bind m λ _. n

unfoldable pub validate_topic : Bytes → Result (Unit {0})
validate_topic topic = do
  validate_size (length topic) max_topic_name topic_too_large
  if is_empty topic || starts_with_underscores topic then err invalid_topic else ok tt

unfoldable pub validate_identifier : Bytes → Result (Unit {0})
validate_identifier value =
    if is_empty value || ltb max_topic_name (length value) || not (all is_identifier_byte value)
    then err invalid_producer_id
    else ok tt

unfoldable pub validate_producer : Option ProducerIdentity → Result (Unit {0})
validate_producer none = ok tt
validate_producer (some producer) = validate_identifier producer.id

unfoldable pub new_produce :
    Bytes → Bytes → Bytes → AckMode → Option ProducerIdentity → Result ProduceRequest
new_produce topic key payload ack_mode producer = do
  validate_topic topic
  validate_size (length key) max_key_size key_too_large
  validate_size (length payload) max_message_size message_too_large
  validate_producer producer
  ok (record {
    topic = topic;
    key = key;
    payload = payload;
    ack_mode = ack_mode;
    producer = producer;
    partition = none;
  })

-- `encoded_size` of the records so far; a `usize` has 64 bits.
unfoldable pub batch_size : List BatchRecord → ℕ → Result ℕ
batch_size [] encoded_size = ok encoded_size
batch_size (entry ∷ rest) encoded_size = do
  validate_size (length entry.key) max_key_size key_too_large
  validate_size (length entry.payload) max_message_size message_too_large
  let total = encoded_size + (2 + length entry.key + 4 + length entry.payload)
  if ltb total (2 ^ 64) then batch_size rest total else err batch_too_large

unfoldable pub new_produce_batch :
    Bytes → List BatchRecord → AckMode → Compression → Result ProduceBatchRequest
new_produce_batch topic records ack_mode compression = do
  validate_topic topic
  if is_empty records || ltb max_batch_messages (length records)
      then err invalid_batch_count
      else ok tt
  encoded_size ← batch_size records 4
  validate_size encoded_size max_uncompressed_batch_size batch_too_large
  ok (record {
    topic = topic;
    records = records;
    ack_mode = ack_mode;
    compression = compression;
    partition = none;
  })

unfoldable pub new_fetch : Bytes → ℕ → ℕ → ℕ → ℕ → Result FetchRequest
new_fetch topic partition offset max_bytes max_wait_ms = do
  validate_topic topic
  if max_bytes == 0 || ltb max_fetch_bytes max_bytes then err fetch_too_large else ok tt
  if ltb max_fetch_wait_ms max_wait_ms then err fetch_wait_too_long else ok tt
  ok (record {
    topic = topic;
    partition = partition;
    offset = offset;
    max_bytes = max_bytes;
    max_wait_ms = max_wait_ms;
  })
