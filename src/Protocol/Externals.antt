-- ===== src/Protocol/Externals.antt =====
-- What the codec takes from other crates: the UTF-8 test of the standard library, and `compress`
-- (at level 3) and `decompress` of `zstd::bulk`, and the
-- allocator.
use sevlamq.Prelude.{ℕ, ◌+◌, ◌/◌, ◌≤◌, ◌≡◌, Bool, Option, some, length}
use sevlamq.Protocol.Types.{Bytes}

pub record Externals : Type 0 where
  pub is_utf8 : Bytes → Bool
  pub compress : Bytes → Option Bytes
  -- The second argument is the capacity that the result may fill.
  pub decompress : Bytes → ℕ → Option Bytes
  -- Whether `Vec::with_capacity` finds memory for so many topics.
  pub reserves : ℕ → Bool

-- What zstd documents: a compressed text decompresses to itself, given the room, and is at most
-- `ZSTD_COMPRESSBOUND` long, which is below this bound.
pub record IsLossless (x : Externals) : Type 0 where
  pub decompress-compress :
      (text packed : Bytes) (capacity : ℕ)
      → x.compress text ≡ some packed
      → length text ≤ capacity
      → x.decompress packed capacity ≡ some text
  pub length-compress :
      (text packed : Bytes)
      → x.compress text ≡ some packed
      → length packed ≤ length text + length text / 256 + 64
