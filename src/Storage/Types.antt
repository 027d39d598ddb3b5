-- ===== src/Storage/Types.antt =====
-- The records, the limits and the errors of crates/storage/src/lib.rs.
use sevlamq.Prelude.{Bool, Option, ap, false, refl, true, ℕ, ◌*◌, ◌+◌, ◌≡◌}
use sevlamq.Protocol.Types.{Bytes}

abbrev pub max_record_size : ℕ
max_record_size = 16 * 1024 * 1024

abbrev pub record_version_v1 : ℕ
record_version_v1 = 1

abbrev pub record_version : ℕ
record_version = 2

abbrev pub length_size : ℕ
length_size = 4

abbrev pub crc_size : ℕ
crc_size = 4

abbrev pub body_fixed_size : ℕ
body_fixed_size = 1 + 8 * 3 + 4 * 2 + 4

abbrev pub v1_body_fixed_size : ℕ
v1_body_fixed_size = 1 + 8 * 2 + 4 + 4

abbrev pub min_record_size : ℕ
min_record_size = crc_size + v1_body_fixed_size

pub record ProducerIdentity : Type 0 where
  pub id : Bytes
  pub sequence : ℕ

pub record Record : Type 0 where
  pub key : Option Bytes
  pub value : Bytes
  pub timestamp_ms : ℕ
  pub producer : Option ProducerIdentity

pub record StoredRecord : Type 0 where
  pub offset : ℕ
  pub timestamp_ms : ℕ
  pub key : Option Bytes
  pub value : Bytes
  pub producer : Option ProducerIdentity

pub data StorageError : Type 0 where
  io invalid_record record_too_large checksum_mismatch invalid_topic : StorageError
  topic_already_exists unknown_topic invalid_producer_id offset_overflow : StorageError
  invalid_segment_limit invalid_index_interval missing_active_segment : StorageError
  invalid_segment_name invalid_partition_name invalid_timestamp invalid_read_limit : StorageError
  unsupported_version replica_diverged incomplete_closed_segment : ℕ → StorageError
  unknown_partition : ℕ → StorageError
  unexpected_offset unexpected_segment_base : ℕ → ℕ → StorageError
  unexpected_producer_sequence : Bytes → ℕ → ℕ → StorageError

-- `panic` is a read past the end of a buffer, or a loop that ran out of rounds.
pub data Result {ℓ} (A : Type ℓ) : Type ℓ where
  ok : A → Result A
  err : StorageError → Result A
  panic : Result A

module _ {ℓ κ} {A : Type ℓ} {B : Type κ} where
  abbrev pub bind : Result A → (A → Result B) → Result B
  bind (ok a) f = f a
  bind (err e) f = err e
  bind panic f = panic

abbrev pub guard : Bool → StorageError → Result (Unit {0})
guard true e = ok tt
guard false e = err e

-- What the storage takes from other crates: `crc32fast::hash`, and the UTF-8 test of the standard
-- library.
pub record Checks : Type 0 where
  pub hash : Bytes → ℕ
  pub is_utf8 : Bytes → Bool

-- What a chain of results says that succeeds.
module _ {ℓ κ} {A : Type ℓ} {B : Type κ} where
  pub bind-ok :
      (m : Result A) (f : A → Result B) (b : B)
      → bind m f ≡ ok b
      → (a : A) × (m ≡ ok a) × (f a ≡ ok b)
  bind-ok (ok a) f b h = (a, refl, h)
  bind-ok (err e) f b h = cc
  bind-ok panic f b h = cc

pub guard-ok {ℓ} :
    {B : Type ℓ} (test : Bool) (e : StorageError) (f : Unit {0} → Result B) (b : B)
    → bind (guard test e) f ≡ ok b
    → (test ≡ true) × (f tt ≡ ok b)
guard-ok true e f b h = (refl, h)
guard-ok false e f b h = cc

pub ok_injective {ℓ} : {A : Type ℓ} (a b : A) → ok a ≡ ok b → a ≡ b
ok_injective {A} a b h = ap (λ r. value_or a r) h
  where
    value_or : A → Result A → A
    value_or d (ok v) = v
    value_or d (err e) = d
    value_or d panic = d
