-- ===== src/Protocol/Reader.antt =====
-- The reading side of the codec: a frame is the list of the bytes that are left, a read returns
-- what is left behind it.
use sevlamq.Prelude.{
  ℕ, zero, suc, ◌+◌, ◌*◌, Bool, Option, none, some, [], ◌∷◌, length, take, drop, ltb, if◌then◌else◌,
}
use sevlamq.Protocol.Types.{Bytes}
use sevlamq.Protocol.Result.{ProtocolError, invalid_frame, Result, ok, err, panic, bind}

abbrev pub Reader : Type 0 → Type 0
Reader A = Bytes → Result (A × Bytes)

module _ {A B : Type 0} where
  infixl 5 ◌>>=◌ ◌>>◌
  abbrev pub ◌>>=◌ : Reader A → (A → Reader B) → Reader B
  ◌>>=◌ m f buffer = bind (m buffer) λ (a, rest). f a rest

  abbrev pub ◌>>◌ : Reader A → Reader B → Reader B
  m >> n = m >>= λ _. n

module _ {A : Type 0} where
  abbrev pub pure : A → Reader A
  pure a buffer = ok (a, buffer)

  abbrev pub raise : ProtocolError → Reader A
  raise e buffer = err e

  -- A pure check inside a decoder.
  abbrev pub lift : Result A → Reader A
  lift r buffer = bind r λ a. ok (a, buffer)

-- The next byte of a big-endian number.
abbrev pub push_byte : Option (ℕ × Bytes) → Option (ℕ × Bytes)
push_byte (some (n, b ∷ rest)) = some (n * 256 + b, rest)
push_byte _ = none

-- A big-endian number of the first `width` bytes, and what follows them.
unfoldable pub get_be : ℕ → Bytes → Option (ℕ × Bytes)
get_be zero buffer = some (0, buffer)
get_be (suc width) buffer = push_byte (get_be width buffer)

-- `Buf::get_u8` and its kin panic where the buffer is too short.
abbrev pub or_panic {ℓ} : {A : Type ℓ} → Option A → Result A
or_panic none = panic
or_panic (some a) = ok a

unfoldable pub get_uint : ℕ → Reader ℕ
get_uint width buffer = or_panic (get_be width buffer)

abbrev pub get_u8 : Reader ℕ
get_u8 = get_uint 1

abbrev pub get_u16 : Reader ℕ
get_u16 = get_uint 2

abbrev pub get_u32 : Reader ℕ
get_u32 = get_uint 4

abbrev pub get_u64 : Reader ℕ
get_u64 = get_uint 8

unfoldable pub ensure_remaining : ℕ → Reader Unit
ensure_remaining required buffer =
    if ltb (length buffer) required then err invalid_frame else ok (tt, buffer)

unfoldable pub ensure_empty : Reader Unit
ensure_empty [] = ok (tt, [])
ensure_empty (b ∷ rest) = err invalid_frame

unfoldable pub validate_size : ℕ → ℕ → ProtocolError → Result (Unit {0})
validate_size actual maximum error = if ltb maximum actual then err error else ok tt

unfoldable pub read_u16_len : Reader ℕ
read_u16_len = do ensure_remaining 2; get_u16

unfoldable pub read_u32_len : Reader ℕ
read_u32_len = do ensure_remaining 4; get_u32

-- `split_to` panics where the buffer is too short, which the guard excludes.
unfoldable pub split_to : ℕ → Reader Bytes
split_to len buffer =
    if ltb (length buffer) len then panic else ok (take len buffer, drop len buffer)

unfoldable pub read_bytes : ℕ → Reader Bytes
read_bytes len = do ensure_remaining len; split_to len

-- `String::from_utf8` is the standard library's: whether bytes are UTF-8 is a parameter.
unfoldable pub from_utf8 : (Bytes → Bool) → ProtocolError → Bytes → Reader Bytes
from_utf8 is_utf8 error bytes = if is_utf8 bytes then pure bytes else raise error

unfoldable pub decode_string : (Bytes → Bool) → Reader Bytes
decode_string is_utf8 = do
  len ← read_u16_len
  bytes ← read_bytes len
  from_utf8 is_utf8 invalid_frame bytes
