-- ===== src/Storage/Segment/Crash.antt =====
-- `recover_segment` of crates/storage/src/lib.rs on a segment that was cut off at any byte, as a crash
-- leaves it.
use sevlamq.Prelude.{
  Bool-cases, List, [], ap, append_assoc, arith, false, inl, inr, length, length-append, ltb,
  ltb_false→le, ltb→lt, none, refl, suc, sym, take, zero, ℕ, ◌++◌, ◌+◌, ◌-◌, ◌<◌, ◌^◌, ◌∙◌, ◌∷◌,
  ◌≡◌, ◌≤◌,
}
use sevlamq.Protocol.Types.{Bytes}
use sevlamq.Storage.Record.{decode_record, body_len}
use sevlamq.Storage.Record.Encoded.{record_bytes, length-record_bytes}
use sevlamq.Storage.Record.Torn.{
  take-append_beyond, decode_record-torn, decode_record-short, length-take_le,
}
use sevlamq.Storage.Segment.Layout.{AllFit, AllFit-front, IsCrc, encode_all}
use sevlamq.Storage.Segment.Recovering.{Recovered, recover_contents-records, replay, start_at}
use sevlamq.Storage.Segment.{ProducerState, recover_contents, recover_producer}
use sevlamq.Storage.Types.{Checks, Record, bind-ok, ok}

-- The tail does not reach the end of the next record.
abbrev pub Missing : Bytes → List Record → Type 0
Missing tail [] = Unit {0}
Missing tail (r ∷ rest) = length tail < 8 + body_len r

-- What is left of the records where their bytes are cut off: the whole ones in front, and a tail that
-- is shorter than the record that it belongs to.
pub record Cut (x : Checks) (base n : ℕ) (rs : List Record) : Type 0 where
  pub front : List Record
  pub back : List Record
  pub tail : Bytes
  pub split : front ++ back ≡ rs
  pub bytes : take n (encode_all x base rs) ≡ encode_all x base front ++ tail
  pub torn : decode_record x tail ≡ ok (none, tail)
  pub missing : Missing tail back

take-nil {ℓ} : {A : Type ℓ} (n : ℕ) → take {A = A} n [] ≡ []
take-nil zero = refl
take-nil (suc n) = refl

take-append_within {ℓ} :
    {A : Type ℓ} (n : ℕ) (xs ys : List A) → n ≤ length xs → take n (xs ++ ys) ≡ take n xs
take-append_within zero xs ys h = refl
take-append_within (suc n) [] ys h = absurd (omega arith)
take-append_within (suc n) (x ∷ xs) ys h =
    ap (λ t. x ∷ t) (take-append_within n xs ys (omega arith))

pub cut : (x : Checks) (base n : ℕ) (rs : List Record) → AllFit x base rs → Cut x base n rs
unfolding encode_all
cut x base n [] fits = record {
  front = [];
  back = [];
  tail = [];
  split = refl;
  bytes = take-nil n;
  torn = decode_record-short x [] (omega arith);
  missing = tt;
}
cut x base n (r ∷ rs) ((small, held), fits) =
    elim (Bool-cases (ltb n (length (record_bytes x r base)))) [
      | inl inside ↦ record {
        front = [];
        back = r ∷ rs;
        tail = take n (record_bytes x r base);
        split = refl;
        bytes =
            take-append_within n (record_bytes x r base) (encode_all x (suc base) rs)
              (omega (arith, ltb→lt n (length (record_bytes x r base)) inside));
        torn =
            decode_record-torn x r base n small (ltb→lt n (length (record_bytes x r base)) inside);
        missing = omega (
          arith,
          length-take_le n (record_bytes x r base),
          length-record_bytes x r base,
          ltb→lt n (length (record_bytes x r base)) inside,
        );
      }
      | inr beyond ↦ later beyond (cut x (suc base) (n - length (record_bytes x r base)) rs fits)
    ]
  where
    later :
        ltb n (length (record_bytes x r base)) ≡ false
        → Cut x (suc base) (n - length (record_bytes x r base)) rs
        → Cut x base n (r ∷ rs)
    later beyond c = record {
      front = r ∷ c.front;
      back = c.back;
      tail = c.tail;
      split = ap (λ l. r ∷ l) c.split;
      bytes =
          take-append_beyond n (record_bytes x r base) (encode_all x (suc base) rs)
            (ltb_false→le n (length (record_bytes x r base)) beyond)
          ∙ (ap (λ rest. record_bytes x r base ++ rest) c.bytes
              ∙ sym
                  (append_assoc (record_bytes x r base) (encode_all x (suc base) c.front) c.tail));
      torn = c.torn;
      missing = c.missing;
    }

replay-front :
    (front back : List Record) (base : ℕ) (before after : ProducerState)
    → replay (front ++ back) base before ≡ ok after
    → (state : ProducerState) × (replay front base before ≡ ok state)
unfolding replay
replay-front [] back base before after e = (before, refl)
replay-front (r ∷ front) back base before after e =
    let (state, e1, e2) = bind-ok (recover_producer r.producer base before) _ after e in
    let (final, e3) = replay-front front back (suc base) state after e2 in (final, rw e1 e3)

-- Take records that `encode_record` can write, with offsets below 2^64, and whose producers are valid
-- and have the sequences that recovery expects after the state `before`: 0 for a producer that is not
-- in it, and one more each time (this is what `replay` checks). Whatever byte the segment of these
-- records is cut off at, `recover_segment` succeeds on what is left: it keeps the records that are
-- whole, with the offset after the last of them, their bytes as the valid length, the producers as of
-- those records and an index whose entries point at them.
pub recover_contents-Cut :
    (x : Checks) (interval base n : ℕ) (rs : List Record) (before after : ProducerState)
    → IsCrc x
    → base + length rs < 2 ^ 64
    → AllFit x base rs
    → replay rs base before ≡ ok after
    → (c : Cut x base n rs) × (state : ProducerState) × (replay c.front base before ≡ ok state)
      × Recovered x base c.front
          (base + length c.front)
          state
          (length (encode_all x base c.front))
          (recover_contents x interval (take n (encode_all x base rs)) (start_at base before))
recover_contents-Cut x interval base n rs before after crc small fits e =
    let c = cut x base n rs fits in
    let whole : replay (c.front ++ c.back) base before ≡ ok after = rw (c.split) e in
    let (state, played) = replay-front c.front c.back base before after whole in
    let fit : AllFit x base (c.front ++ c.back) = rw (c.split) fits in
    (
      c,
      state,
      played,
      rw (c.bytes) (
          recover_contents-records x interval base c.front c.tail before state crc c.torn
            (omega (arith, length-append c.front c.back, ap length c.split))
            (AllFit-front x base c.front c.back fit) played),
    )
