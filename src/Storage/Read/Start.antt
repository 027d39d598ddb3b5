-- ===== src/Storage/Read/Start.antt =====
-- The position that `read` of crates/storage/src/lib.rs starts at: the index leads to a record at or
-- before the wanted offset, or the segment is read from its start.
use sevlamq.Prelude.{
  All, Bool-cases, List, [], arith, inl, inr, leb, leb→le, length, refl, suc, zero, ℕ, ◌++◌, ◌+◌,
  ◌∷◌, ◌≡◌, ◌≤◌, ◌⊎◌,
}
use sevlamq.Storage.Types.{Checks, Record}
use sevlamq.Storage.Segment.Layout.{IsEntry, encode_all}
use sevlamq.Storage.Segment.{IndexEntry}
use sevlamq.Storage.Read.{partition_point, position_before, start_position}

-- The bytes up to the position are records below the offset.
pub record StartsAt (x : Checks) (base offset : ℕ) (rs : List Record) (position : ℕ) : Type 0 where
  pub front : List Record
  pub back : List Record
  pub split : front ++ back ≡ rs
  pub position_is : position ≡ length (encode_all x base front)
  pub reached : (base + length front ≤ offset) ⊎ (front ≡ [])

from_start : (x : Checks) (base offset : ℕ) (rs : List Record) → StartsAt x base offset rs 0
unfolding encode_all
from_start x base offset rs = record {
  front = [];
  back = rs;
  split = refl;
  position_is = refl;
  reached = inr refl;
}

from_entry :
    (x : Checks) (base offset : ℕ) (rs : List Record) (entry : IndexEntry)
    → IsEntry x base rs entry
    → entry.offset ≤ offset
    → StartsAt x base offset rs entry.position
from_entry x base offset rs entry h low = record {
  front = h.front;
  back = h.back;
  split = h.split;
  position_is = h.position_is;
  reached = inl (omega (arith, h.offset_is));
}

from_point :
    (x : Checks) (base offset k : ℕ) (rs : List Record) (entry : IndexEntry)
    (index : List IndexEntry)
    → IsEntry x base rs entry
    → entry.offset ≤ offset
    → StartsAt x base offset rs (position_before k index)
    → StartsAt x base offset rs (position_before (suc k) (entry ∷ index))
from_point x base offset zero rs entry index h low rest = from_entry x base offset rs entry h low
from_point x base offset (suc k) rs entry index h low rest = rest

pub start_position-StartsAt :
    (x : Checks) (base offset : ℕ) (rs : List Record) (index : List IndexEntry)
    → All (IsEntry x base rs) index
    → StartsAt x base offset rs (start_position offset index)
unfolding start_position partition_point
start_position-StartsAt x base offset rs [] h = from_start x base offset rs
start_position-StartsAt x base offset rs (entry ∷ index) (h, rest) =
    elim (Bool-cases (leb entry.offset offset)) [
      | inl low ↦ rw low (
          from_point x base offset (partition_point offset index) rs entry index h
            (leb→le entry.offset offset low) (start_position-StartsAt x base offset rs index rest))
      | inr high ↦ rw high (from_start x base offset rs)
    ]
