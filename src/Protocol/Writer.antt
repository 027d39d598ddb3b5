-- ===== src/Protocol/Writer.antt =====
-- The writing side of the codec. An encoder extends the buffer that it is given; what was written
-- before an error stays written.
use sevlamq.Prelude.{
  ℕ, zero, suc, ◌-◌, ◌/◌, ◌%◌, ◌^◌, [], ◌∷◌, ◌++◌, length, take, drop, ltb, if◌then◌else◌,
}
use sevlamq.Protocol.Types.{Bytes, frame_header_size}
use sevlamq.Protocol.Result.{ProtocolError, invalid_frame, frame_too_large, Result, ok, err, panic}

abbrev pub Writer : Type 0 → Type 0
Writer A = Bytes → Result A × Bytes

module _ {A B : Type 0} where
  abbrev continue : Result A → (A → Writer B) → Writer B
  continue (ok a) f buffer = f a buffer
  continue (err e) f buffer = (err e, buffer)
  continue panic f buffer = (panic, buffer)

  infixl 5 ◌>>=◌ ◌>>◌
  abbrev pub ◌>>=◌ : Writer A → (A → Writer B) → Writer B
  ◌>>=◌ m f buffer = let (r, written) = m buffer in continue r f written

  abbrev pub ◌>>◌ : Writer A → Writer B → Writer B
  m >> n = m >>= λ _. n

module _ {A : Type 0} where
  abbrev pub lift : Result A → Writer A
  lift r buffer = (r, buffer)

-- `buffer.len()`
abbrev pub position : Writer ℕ
position buffer = (ok (length buffer), buffer)

unfoldable pub extend : Bytes → Writer Unit
extend bytes buffer = (ok tt, buffer ++ bytes)

-- The `width` lowest bytes of a number, the most significant first.
unfoldable pub be : ℕ → ℕ → Bytes
be zero n = []
be (suc width) n = be width (n / 256) ++ (n % 256) ∷ []

abbrev pub put_u8 : ℕ → Writer Unit
put_u8 n = extend (be 1 n)

abbrev pub put_u16 : ℕ → Writer Unit
put_u16 n = extend (be 2 n)

abbrev pub put_u32 : ℕ → Writer Unit
put_u32 n = extend (be 4 n)

abbrev pub put_u64 : ℕ → Writer Unit
put_u64 n = extend (be 8 n)

-- `uN::try_from(value)` of a `usize`.
unfoldable pub try_from : ℕ → ℕ → ProtocolError → Result ℕ
try_from bits value error = if ltb value (2 ^ bits) then ok value else err error

-- Overwrites the four bytes at `start` with the length of what stands behind them.
unfoldable pub set_frame_len : ℕ → Writer Unit
set_frame_len start buffer =
    let len = length buffer - start - frame_header_size in
    if ltb len (2 ^ 32)
    then (ok tt, take start buffer ++ (be 4 len ++ drop frame_header_size (drop start buffer)))
    else (err frame_too_large, buffer)

unfoldable pub encode_string : Bytes → Writer Unit
encode_string value = do
  len ← lift (try_from 16 (length value) invalid_frame)
  put_u16 len
  extend value
