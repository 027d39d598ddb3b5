-- ===== src/Storage/Segment/Recovering.antt =====
-- `recover_segment` of crates/storage/src/lib.rs on the bytes of whole records, before bytes that are
-- no whole record.
use sevlamq.Prelude.{
  ==_iff, All, List, [], ap, append_assoc, arith, length, length-append, none, refl, subst, suc,
  zero, ℕ, ◌++◌, ◌+◌, ◌-◌, ◌<◌, ◌^◌, ◌∙◌, ◌∷◌, ◌≡◌,
}
use sevlamq.Protocol.Types.{Bytes}
use sevlamq.Storage.Record.{decode_record}
use sevlamq.Storage.Record.RoundTrip.{stored}
use sevlamq.Storage.Segment.Layout.{
  All-push_entry, AllFit, IsCrc, IsEntry, decode_record-encode_all, encode_all,
  length-encode_all_bound, length-encode_all_snoc,
}
use sevlamq.Storage.Segment.{
  IndexEntry, ProducerState, Recovery, checked_add-fits, push_entry, recover_contents, recover_loop,
  recover_producer, recover_record, should_index,
}
use sevlamq.Storage.Types.{Checks, Record, Result, bind, bind-ok, offset_overflow, ok, ok_injective}
use sevlamq.Storage.Record.Encoded.{record_bytes}

-- The producers after the records.
unfoldable pub replay : List Record → ℕ → ProducerState → Result ProducerState
replay [] offset state = ok state
replay (r ∷ rs) offset state =
    bind (recover_producer r.producer offset state) λ state'. replay rs (suc offset) state'

abbrev pub Recovered :
    Checks → ℕ → List Record → ℕ → ProducerState → ℕ → Result (Recovery × ℕ) → Type 0
Recovered x base rs following state valid_len result =
    (index : List IndexEntry) × (result
      ≡ ok (record { next_offset = following; index = index; producer_state = state }, valid_len))
    × All (IsEntry x base rs) index

recover_record-stored :
    (interval position here : ℕ) (r : Record) (index : List IndexEntry)
    (before after : ProducerState)
    → suc here < 2 ^ 64
    → recover_producer r.producer here before ≡ ok after
    → recover_record interval position
        (stored r here)
        (record { next_offset = here; index = index; producer_state = before })
      ≡ ok (record {
        next_offset = suc here;
        index = push_entry (should_index interval position index) here position index;
        producer_state = after;
      })
unfolding recover_record
recover_record-stored interval position here r index before after small e = rw (
  (==_iff here here).1 refl,
  e,
  checked_add-fits offset_overflow here 1 (suc here) (omega arith) small,
)

recover_loop-records :
    (x : Checks) (interval base : ℕ) (whole : List Record) (tail : Bytes) (final : ProducerState)
    → IsCrc x
    → decode_record x tail ≡ ok (none, tail)
    → (rs front : List Record) (here following fuel total : ℕ) (index : List IndexEntry)
      (state : ProducerState)
    → front ++ rs ≡ whole
    → here ≡ base + length front
    → following ≡ here + length rs
    → following < 2 ^ 64
    → length rs < fuel
    → total ≡ length (encode_all x base front) + length (encode_all x here rs ++ tail)
    → AllFit x here rs
    → All (IsEntry x base whole) index
    → replay rs here state ≡ ok final
    → Recovered x base whole following final (total - length tail) (
        recover_loop x interval total fuel
          (encode_all x here rs ++ tail)
          (record { next_offset = here; index = index; producer_state = state }))
unfolding recover_loop replay encode_all
recover_loop-records x interval base whole tail final crc torn rs front here following zero total
      index state s h n b f t fit entries e =
    absurd (omega arith)
recover_loop-records x interval base whole tail final crc torn [] front here following (suc fuel)
      total index state s h n b f t fit entries e =
    let same : here ≡ following = omega arith in
    (index, rw (torn, ok_injective state final e, same) refl, entries)
recover_loop-records x interval base whole tail final crc torn (r ∷ rs) front here following
      (suc fuel) total index state s h n b f t (fit, fits) entries e =
    let (after, e1, e2) = bind-ok (recover_producer r.producer here state) _ final e in
    let position : total - length (encode_all x here (r ∷ rs) ++ tail)
        ≡ length (encode_all x base front) =
      omega arith in
    rw
      (
        decode_record-encode_all x here r rs tail crc fit,
        recover_record-stored interval (total - length (encode_all x here (r ∷ rs) ++ tail)) here r
            index state after (omega arith) e1,
      )
      (recover_loop-records x interval base whole tail final crc torn rs (front ++ r ∷ [])
        (suc here) following fuel total _ after (append_assoc front (r ∷ []) rs ∙ s)
        (omega (arith, length-append front (r ∷ []))) (omega arith) b (omega arith)
        (omega (
          arith,
          length-encode_all_snoc x base here front r h,
          length-append (record_bytes x r here) (encode_all x (suc here) rs ++ tail),
          ap length (append_assoc (record_bytes x r here) (encode_all x (suc here) rs) tail),
        ))
        fits
        (All-push_entry (IsEntry x base whole) _ here _ index entries (record {
          front = front;
          back = r ∷ rs;
          split = s;
          offset_is = h;
          position_is = position;
        }))
        e2)

abbrev pub start_at : ℕ → ProducerState → Recovery
start_at base state = record { next_offset = base; index = []; producer_state = state }

pub recover_contents-records :
    (x : Checks) (interval base : ℕ) (rs : List Record) (tail : Bytes)
    (before after : ProducerState)
    → IsCrc x
    → decode_record x tail ≡ ok (none, tail)
    → base + length rs < 2 ^ 64
    → AllFit x base rs
    → replay rs base before ≡ ok after
    → Recovered x base rs
        (base + length rs)
        after
        (length (encode_all x base rs))
        (recover_contents x interval (encode_all x base rs ++ tail) (start_at base before))
unfolding recover_contents encode_all
recover_contents-records x interval base rs tail before after crc torn small fits e =
    let (index, found, entries) =
      recover_loop-records x interval base rs tail after crc torn rs [] base (base + length rs)
        (length contents + 1) (length contents) [] before refl (omega arith) refl small
        (omega (arith, length-encode_all_bound x base rs, total)) (omega arith) fits tt e in
    let valid : length contents - length tail ≡ length (encode_all x base rs) =
      omega (arith, total) in
    (
      index,
      subst
          (λ len.
            recover_contents x interval contents (start_at base before)
            ≡ ok (
              record { next_offset = base + length rs; index = index; producer_state = after },
              len,
            ))
          valid found,
      entries,
    )
  where
    contents : Bytes
    contents = encode_all x base rs ++ tail

    total : length contents ≡ length (encode_all x base rs) + length tail
    total = length-append (encode_all x base rs) tail
