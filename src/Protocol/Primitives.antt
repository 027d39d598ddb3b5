-- ===== src/Protocol/Primitives.antt =====
-- The primitive reads of the codec on what its primitive writes produce.
use sevlamq.Prelude.{
  lt→ltb, drop, ◌-◌, ◌+◌, Bool, [], append_assoc, arith, drop-append, length, length-append, refl,
  some, suc, take-append, true, zero, ℕ, ◌%◌, ◌++◌, ◌/◌, ◌<◌, ◌^◌, ◌∷◌, ◌≡◌, ◌≤◌,
}
use sevlamq.Protocol.Types.{Bytes}
use sevlamq.Protocol.Result.{ok}
use sevlamq.Protocol.Reader.{
  decode_string, ensure_remaining, from_utf8, get_be, get_uint, read_bytes, read_u16_len,
  read_u32_len, split_to,
}
use sevlamq.Protocol.Writer.{be, set_frame_len}

pub length-be : (w n : ℕ) → length (be w n) ≡ w
unfolding be
length-be zero n = refl
length-be (suc w) n =
    ground (arith, length-append (be w (n / 256)) ((n % 256) ∷ []), length-be w (n / 256))

pow-suc_bound : (w n : ℕ) → n < 256 ^ suc w → n / 256 < 256 ^ w
pow-suc_bound w n h = omega arith

pub get_be-be : (w n : ℕ) (rest : Bytes) → n < 256 ^ w → get_be w (be w n ++ rest) ≡ some (n, rest)
unfolding get_be be
get_be-be zero n rest h = ground arith
get_be-be (suc w) n rest h =
    rw (append_assoc, get_be-be w (n / 256) ((n % 256) ∷ rest) (pow-suc_bound w n h)) (ground arith)

pub get_uint-be :
    (w n : ℕ) (rest : Bytes) → n < 256 ^ w → get_uint w (be w n ++ rest) ≡ ok (n, rest)
unfolding get_uint
get_uint-be w n rest h = rw (get_be-be w n rest h)

pub ensure_remaining-le :
    (k : ℕ) (buffer : Bytes) → k ≤ length buffer → ensure_remaining k buffer ≡ ok (tt, buffer)
unfolding ensure_remaining
ensure_remaining-le k buffer h = ground arith

-- A guard on the bytes that a fixed front provides.
pub ensure_remaining-append :
    (k : ℕ) (front rest : Bytes)
    → k ≤ length front
    → ensure_remaining k (front ++ rest) ≡ ok (tt, front ++ rest)
ensure_remaining-append k front rest h =
    ensure_remaining-le k (front ++ rest) (omega (arith, length-append front rest))

pub read_len-be_two :
    (n : ℕ) (rest : Bytes) → n < 2 ^ 16 → read_u16_len (be 2 n ++ rest) ≡ ok (n, rest)
unfolding read_u16_len
read_len-be_two n rest h =
    rw (
      ensure_remaining-append 2 (be 2 n) rest (omega (arith, length-be 2 n)),
      get_uint-be 2 n rest h,
    )

pub read_len-be_four :
    (n : ℕ) (rest : Bytes) → n < 2 ^ 32 → read_u32_len (be 4 n ++ rest) ≡ ok (n, rest)
unfolding read_u32_len
read_len-be_four n rest h =
    rw (
      ensure_remaining-append 4 (be 4 n) rest (omega (arith, length-be 4 n)),
      get_uint-be 4 n rest h,
    )

pub read_bytes-append :
    (bytes rest : Bytes) → read_bytes (length bytes) (bytes ++ rest) ≡ ok (bytes, rest)
unfolding read_bytes split_to
read_bytes-append bytes rest =
    rw (ensure_remaining-append (length bytes) bytes rest (omega arith))
      (ground (arith, length-append bytes rest, take-append bytes rest, drop-append bytes rest))

pub decode_string-append :
    (is_utf8 : Bytes → Bool) (value rest : Bytes)
    → length value < 2 ^ 16
    → is_utf8 value ≡ true
    → decode_string is_utf8 (be 2 (length value) ++ (value ++ rest)) ≡ ok (value, rest)
unfolding decode_string from_utf8
decode_string-append is_utf8 value rest h u =
    rw (read_len-be_two (length value) (value ++ rest) h, read_bytes-append value rest, u)

-- The four bytes at the start of the frame become its length, whatever they were.
pub set_frame_len-append :
    (k : ℕ) (buffer body : Bytes)
    → length body < 2 ^ 32
    → set_frame_len (length buffer) (buffer ++ (be 4 k ++ body))
      ≡ (ok tt, buffer ++ (be 4 (length body) ++ body))
unfolding set_frame_len
set_frame_len-append k buffer body h =
    rw
      (
        length-append buffer (be 4 k ++ body),
        take-append buffer (be 4 k ++ body),
        drop-append buffer (be 4 k ++ body),
        length-append (be 4 k) body,
        length-be 4 k,
        body_length (length buffer) (length body),
        lt→ltb (length body) (2 ^ 32) h,
      )
      (rw drop_length)
  where
    drop_length : drop 4 (be 4 k ++ body) ≡ body
    drop_length = unfold be in refl

    body_length : (a b : ℕ) → a + (4 + b) - a - 4 ≡ b
    body_length a b = omega arith
