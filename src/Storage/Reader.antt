-- ===== src/Storage/Reader.antt =====
-- The reads of `decode_record` of crates/storage/src/lib.rs from a buffer.
use sevlamq.Prelude.{ℕ, Option, none, some, [], ◌∷◌, length, take, drop, ltb, if◌then◌else◌}
use sevlamq.Protocol.Types.{Bytes}
use sevlamq.Protocol.Reader.{get_be}
use sevlamq.Storage.Types.{Result, ok, err, panic, bind, StorageError, invalid_record}

abbrev pub Reader : Type 0 → Type 0
Reader A = Bytes → Result (A × Bytes)

module _ {A B : Type 0} where
  infixl 5 ◌>>=◌ ◌>>◌
  abbrev pub ◌>>=◌ : Reader A → (A → Reader B) → Reader B
  ◌>>=◌ m f buffer = bind (m buffer) λ (a, rest). f a rest

  abbrev pub ◌>>◌ : Reader A → Reader B → Reader B
  m >> n = m >>= λ _. n

module _ {A : Type 0} where
  abbrev pub pure : A → Reader A
  pure a buffer = ok (a, buffer)

  abbrev pub raise : StorageError → Reader A
  raise e buffer = err e

  abbrev pub or_panic : Option A → Result A
  or_panic none = panic
  or_panic (some a) = ok a

-- `get_u8`, `get_u32`, `get_u64` and `get_i32`, the last as its bit pattern.
unfoldable pub get : ℕ → Reader ℕ
get width buffer = or_panic (get_be width buffer)

-- `if remaining() < n { return Err(InvalidRecord) }`
unfoldable pub ensure : ℕ → Reader Unit
ensure required buffer =
    if ltb (length buffer) required then err invalid_record else ok (tt, buffer)

unfoldable pub read_bytes : ℕ → Reader Bytes
read_bytes len buffer =
    if ltb (length buffer) len then err invalid_record else ok (take len buffer, drop len buffer)

unfoldable pub ensure_empty : Reader Unit
ensure_empty [] = ok (tt, [])
ensure_empty (b ∷ rest) = err invalid_record
