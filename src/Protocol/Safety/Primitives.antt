-- ===== src/Protocol/Safety/Primitives.antt =====
-- The primitive reads of the codec, and the buffers on which they are safe.
use sevlamq.Prelude.{Bool, [], arith, if◌then◌else◌, length, le→ltb_false, ltb, ℕ, ◌∷◌, ◌≢◌}
use sevlamq.Protocol.Types.{Bytes}
use sevlamq.Protocol.Result.{ProtocolError, invalid_frame, panic}
use sevlamq.Protocol.Reader.{
  Reader, decode_string, ensure_empty, from_utf8, get_uint, lift, pure, raise, read_bytes,
  read_u16_len, read_u32_len, split_to, validate_size, ◌>>=◌,
}
use sevlamq.Protocol.Safety.{
  Safe, Safe-bind, Safe-ensure, Safe-get_last, Safe-if, Safe-lift, Safe-pure, Safe-raise,
}
use sevlamq.Protocol.Request.Decode.{flag_check}

pub Safe-u16_len : (k : ℕ) → Safe k read_u16_len
unfolding read_u16_len
Safe-u16_len k = Safe-ensure 2 k (get_uint 2) (Safe-get_last 2 2 (omega arith))

pub Safe-u32_len : (k : ℕ) → Safe k read_u32_len
unfolding read_u32_len
Safe-u32_len k = Safe-ensure 4 k (get_uint 4) (Safe-get_last 4 4 (omega arith))

pub Safe-bytes : (k len : ℕ) → Safe k (read_bytes len)
unfolding read_bytes split_to
Safe-bytes k len =
    Safe-ensure len k _
      (record { run = λ buffer h. rw (le→ltb_false (length buffer) len h) (λ e. cc) })

pub Safe-utf8 :
    (k : ℕ) (is_utf8 : Bytes → Bool) (error : ProtocolError) (bytes : Bytes)
    → Safe k (from_utf8 is_utf8 error bytes)
unfolding from_utf8
Safe-utf8 k is_utf8 error bytes = search (Safe-if, Safe-pure, Safe-raise)

pub Safe-string : (k : ℕ) (is_utf8 : Bytes → Bool) → Safe k (decode_string is_utf8)
unfolding decode_string
Safe-string k is_utf8 = search (Safe-bind, Safe-u16_len, Safe-bytes, Safe-utf8)

ensure_empty_total : (buffer : Bytes) → ensure_empty buffer ≢ panic
unfolding ensure_empty
ensure_empty_total [] e = cc
ensure_empty_total (b ∷ rest) e = cc

pub Safe-empty : (k : ℕ) → Safe k ensure_empty
Safe-empty k = record { run = λ buffer h. ensure_empty_total buffer }

pub Safe-flag : (flag : ℕ) → Safe 0 (flag_check flag)
unfolding flag_check
Safe-flag flag = Safe-if 0 (ltb 1 flag) _ _ (Safe-raise 0 invalid_frame) (Safe-pure 0 tt)

-- A check that raises an error or goes on.
pub Safe-guard : (b : Bool) (error : ProtocolError) → Safe 0 (if b then raise error else pure tt)
Safe-guard b error = Safe-if 0 b _ _ (Safe-raise 0 error) (Safe-pure 0 tt)

pub Safe-size :
    (actual maximum : ℕ) (error : ProtocolError)
    → Safe 0 (lift (validate_size actual maximum error))
unfolding validate_size
Safe-size actual maximum error = Safe-lift 0 _ (ground arith)

-- A length on two or four bytes, and as many bytes.
module _ {B : Type 0} (f : Bytes → Reader B) (s : (bytes : Bytes) → Safe 0 (f bytes)) where
  pub Safe-string_then : (is_utf8 : Bytes → Bool) → Safe 0 (decode_string is_utf8 >>= f)
  Safe-string_then is_utf8 = Safe-bind 0 _ _ (Safe-string 0 is_utf8) s

  pub Safe-bytes_then : (k len : ℕ) → Safe k (read_bytes len >>= f)
  Safe-bytes_then k len = Safe-bind k _ _ (Safe-bytes k len) s
