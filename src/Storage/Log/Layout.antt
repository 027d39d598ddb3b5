-- ===== src/Storage/Log/Layout.antt =====
-- How the state of a partition log of crates/storage/src/lib.rs stands for a list of records: each
-- segment's file has the records of the segment, and the offsets go on from one to the next.
use sevlamq.Prelude.{bytes_eq, pair_eq}
use sevlamq.Prelude.{
  All, List, [], ap, append-nil, append_assoc, arith, length, lookup, refl, some, subst, sym, ℕ,
  ◌++◌, ◌+◌, ◌<◌, ◌^◌, ◌∙◌, ◌∷◌, ◌≡◌, ◌≤◌,
}
use sevlamq.Storage.Types.{Checks, Record}
use sevlamq.Storage.Segment.Layout.{AllFit, IsEntry, encode_all}
use sevlamq.Storage.Segment.{SegmentMetadata, index_path, last, segment_path}
use sevlamq.Storage.Log.{Partition, update_last}
use sevlamq.Storage.Files.{Files}

pub record IsSegment (x : Checks) (files : Files) (base : ℕ) (s : SegmentMetadata)
    (rs : List Record) : Type 0 where
  pub base_is : s.base_offset ≡ base
  pub path_is : s.path ≡ segment_path base
  pub contents : lookup (segment_path base) files ≡ some (encode_all x base rs)
  pub len_is : s.len ≡ length (encode_all x base rs)
  pub entries : All (IsEntry x base rs) s.index
  pub fits : AllFit x base rs

-- A segment with its records.
abbrev pub Segments : Type 0
Segments = List (SegmentMetadata × List Record)

abbrev pub metadata_of : Segments → List SegmentMetadata
metadata_of [] = []
metadata_of ((s, rs) ∷ gs) = s ∷ metadata_of gs

abbrev pub records_of : Segments → List Record
records_of [] = []
records_of ((s, rs) ∷ gs) = rs ++ records_of gs

-- The segments before the active one. None of them is empty.
abbrev pub AreClosed : Checks → Files → ℕ → Segments → ℕ → Type 0
AreClosed x files base [] end = base ≡ end
AreClosed x files base ((s, rs) ∷ gs) end =
    IsSegment x files base s rs × (0 < length rs) × AreClosed x files (base + length rs) gs end

pub record Holds (x : Checks) (p : Partition) (closed : Segments) (active : SegmentMetadata)
    (rs : List Record) : Type 0 where
  pub base : ℕ
  pub end : ℕ
  pub segments_are : p.log.segments ≡ metadata_of closed ++ active ∷ []
  pub closed_are : AreClosed x p.files base closed end
  pub active_is : IsSegment x p.files end active rs
  pub next_is : p.log.next_offset ≡ end + length rs
  pub next_fits : p.log.next_offset < 2 ^ 64
  pub file_is : p.log.active_file ≡ segment_path end
  pub index_file_is : p.log.active_index_file ≡ index_path (segment_path end)

-- The files of the segments below an offset are what they were.
abbrev pub AgreeBelow : ℕ → Files → Files → Type 0
AgreeBelow end files files' =
    (base : ℕ) → base < end → lookup (segment_path base) files' ≡ lookup (segment_path base) files

pub IsSegment-agree :
    (x : Checks) (files files' : Files) (base : ℕ) (s : SegmentMetadata) (rs : List Record)
    → lookup (segment_path base) files' ≡ lookup (segment_path base) files
    → IsSegment x files base s rs
    → IsSegment x files' base s rs
IsSegment-agree x files files' base s rs same h = record {
  base_is = h.base_is;
  path_is = h.path_is;
  contents = same ∙ h.contents;
  len_is = h.len_is;
  entries = h.entries;
  fits = h.fits;
}

pub AreClosed-bound :
    (x : Checks) (files : Files) (base end : ℕ) (gs : Segments)
    → AreClosed x files base gs end
    → base ≤ end
AreClosed-bound x files base end [] h = omega arith
AreClosed-bound x files base end ((s, rs) ∷ gs) (h, n, rest) =
    omega (arith, AreClosed-bound x files (base + length rs) end gs rest)

pub AreClosed-agree :
    (x : Checks) (files files' : Files) (base end : ℕ) (gs : Segments)
    → AgreeBelow end files files'
    → AreClosed x files base gs end
    → AreClosed x files' base gs end
AreClosed-agree x files files' base end [] same h = h
AreClosed-agree x files files' base end ((s, rs) ∷ gs) same (h, n, rest) = (
  IsSegment-agree x files files' base s rs
      (same base (omega (arith, AreClosed-bound x files (base + length rs) end gs rest))) h,
  n,
  AreClosed-agree x files files' (base + length rs) end gs same rest,
)

-- The active segment becomes a closed one.
pub AreClosed-close :
    (x : Checks) (files : Files) (base end following : ℕ) (gs : Segments) (s : SegmentMetadata)
    (rs : List Record)
    → AreClosed x files base gs end
    → IsSegment x files end s rs
    → 0 < length rs
    → following ≡ end + length rs
    → AreClosed x files base (gs ++ (s, rs) ∷ []) following
AreClosed-close x files base end following [] s rs h active n e =
    (subst (λ b. IsSegment x files b s rs) (sym h) active, n, omega arith)
AreClosed-close x files base end following ((t, ts) ∷ gs) s rs (h, m, rest) active n e =
    (h, m, AreClosed-close x files (base + length ts) end following gs s rs rest active n e)

pub metadata_of-append :
    (gs : Segments) (s : SegmentMetadata) (rs : List Record)
    → metadata_of (gs ++ (s, rs) ∷ []) ≡ metadata_of gs ++ s ∷ []
metadata_of-append [] s rs = refl
metadata_of-append ((t, ts) ∷ gs) s rs = ap (λ l. t ∷ l) (metadata_of-append gs s rs)

pub records_of-append :
    (gs : Segments) (s : SegmentMetadata) (rs : List Record)
    → records_of (gs ++ (s, rs) ∷ []) ≡ records_of gs ++ rs
records_of-append [] s rs = append-nil rs
records_of-append ((t, ts) ∷ gs) s rs =
    ap (λ l. ts ++ l) (records_of-append gs s rs) ∙ sym (append_assoc ts (records_of gs) rs)

pub last-append {ℓ} : {A : Type ℓ} (xs : List A) (a : A) → last (xs ++ a ∷ []) ≡ some a
last-append [] a = refl
last-append (b ∷ []) a = refl
last-append (b ∷ c ∷ xs) a = last-append (c ∷ xs) a

pub update_last-append :
    (f : SegmentMetadata → SegmentMetadata) (xs : List SegmentMetadata) (s : SegmentMetadata)
    → update_last f (xs ++ s ∷ []) ≡ xs ++ f s ∷ []
update_last-append f [] s = refl
update_last-append f (b ∷ []) s = refl
update_last-append f (b ∷ c ∷ xs) s = ap (λ l. b ∷ l) (update_last-append f (c ∷ xs) s)
