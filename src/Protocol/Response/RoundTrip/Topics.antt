-- ===== src/Protocol/Response/RoundTrip/Topics.antt =====
-- The topics in the responses of crates/protocol/src/lib.rs: what is written for one of them, and
-- what is read from it.
use sevlamq.Prelude.{
  All, List, all, ap, arith, false, length, length-append, lt→ltb, not, refl, subst, ℕ, ◌&&◌, ◌*◌,
  ◌++◌, ◌<◌, ◌==◌, ◌^◌, ◌||◌, ◌∷◌, ◌≡◌, ◌⊎◌,
}
use sevlamq.Protocol.Types.{Bytes, TopicMetadata}
use sevlamq.Protocol.Result.{ok}
use sevlamq.Protocol.Reader.{ensure_remaining, get_uint}
use sevlamq.Protocol.Writer.{be, extend, try_from}
use sevlamq.Protocol.Externals.{Externals}
use sevlamq.Protocol.Layout.{
  IsString, IsU32, concat, decode_string-field, encode_string-extends, length-concat, string_field,
  written, written-append,
}
use sevlamq.Protocol.Primitives.{ensure_remaining-le, get_uint-be, length-be, read_len-be_four}
use sevlamq.Protocol.Response.Encode.{check_topic, put_topic}
use sevlamq.Protocol.Response.Decode.{decode_numbers, decode_topic}
use sevlamq.Protocol.Response.RoundTrip.{
  concat-onto, decode_numbers-numbers, numbers, onto-append, put_all-numbers, total-numbers,
}

-- Every partition has a leader, an epoch and a high watermark, or none has.
pub record IsTopic (x : Externals) (t : TopicMetadata) : Type 0 where
  pub topic : IsString x t.topic
  pub partitions_pos : 0 < t.partitions
  pub partitions : IsU32 t.partitions
  pub leader_count : (length t.leaders ≡ 0) ⊎ (length t.leaders ≡ t.partitions)
  pub epoch_count : length t.leader_epochs ≡ length t.leaders
  pub mark_count : length t.high_watermarks ≡ length t.leaders
  pub leaders : All (λ n. n < 256 ^ 4) t.leaders
  pub epochs : All (λ n. n < 256 ^ 8) t.leader_epochs
  pub marks : All (λ n. n < 256 ^ 8) t.high_watermarks

abbrev pub topic_fields : TopicMetadata → List Bytes
topic_fields t =
    string_field t.topic
    ∷ be 4 t.partitions
    ∷ be 4 (length t.leaders)
    ∷ (numbers 4 t.leaders ++ (numbers 8 t.leader_epochs ++ numbers 8 t.high_watermarks))

leader_count_bound : (x : Externals) (t : TopicMetadata) → IsTopic x t → length t.leaders < 2 ^ 32
leader_count_bound x t h = ground (arith, h.leader_count, h.partitions)

check_topic-ok : (x : Externals) (t : TopicMetadata) → IsTopic x t → check_topic t ≡ ok tt
unfolding check_topic
check_topic-ok x t h = ground (arith, h.partitions_pos, h.leader_count, h.epoch_count, h.mark_count)

pub put_topic-written :
    (x : Externals) (t : TopicMetadata) (buffer : Bytes)
    → IsTopic x t
    → put_topic t buffer ≡ (ok tt, written buffer (topic_fields t))
unfolding put_topic extend try_from
put_topic-written x t buffer h = rw (
  check_topic-ok x t h,
  encode_string-extends t.topic buffer h.topic.0,
  lt→ltb (length t.leaders) (2 ^ 32) (leader_count_bound x t h),
  put_all-numbers 4 t.leaders,
  put_all-numbers 8 t.leader_epochs,
  put_all-numbers 8 t.high_watermarks,
  written-append _ (numbers 4 t.leaders) (numbers 8 t.leader_epochs ++ numbers 8 t.high_watermarks),
  written-append _ (numbers 8 t.leader_epochs) (numbers 8 t.high_watermarks),
)

number_bytes : TopicMetadata → Bytes → Bytes
number_bytes t rest =
    concat (numbers 4 t.leaders)
    ++ (concat (numbers 8 t.leader_epochs) ++ (concat (numbers 8 t.high_watermarks) ++ rest))

topic-onto :
    (t : TopicMetadata) (rest : Bytes)
    → concat (topic_fields t) ++ rest
      ≡ string_field t.topic
        ++ (be 4 t.partitions ++ (be 4 (length t.leaders) ++ number_bytes t rest))
unfolding number_bytes
topic-onto t rest = rw (
  concat-onto (topic_fields t) rest,
  onto-append (numbers 4 t.leaders) (numbers 8 t.leader_epochs ++ numbers 8 t.high_watermarks) rest,
  onto-append (numbers 8 t.leader_epochs) (numbers 8 t.high_watermarks) rest,
  ← concat-onto (numbers 8 t.high_watermarks) rest,
)

ensure-numbers :
    (width count : ℕ) (all : List ℕ) (rest : Bytes)
    → length all ≡ count
    → ensure_remaining (count * width) (concat (numbers width all) ++ rest)
      ≡ ok (tt, concat (numbers width all) ++ rest)
ensure-numbers width count all rest e =
    ensure_remaining-le (count * width) (concat (numbers width all) ++ rest) (
      omega (
        arith,
        length-append (concat (numbers width all)) rest,
        length-concat (numbers width all),
        total-numbers width all,
        ap (λ n. n * width) e,
      ))

counted :
    (width count : ℕ) (all : List ℕ) (rest : Bytes)
    → length all ≡ count
    → All (λ n. n < 256 ^ width) all
    → decode_numbers (get_uint width) count (concat (numbers width all) ++ rest) ≡ ok (all, rest)
counted width count all rest e h =
    subst
      (λ n. decode_numbers (get_uint width) n (concat (numbers width all) ++ rest) ≡ ok (all, rest))
      e (decode_numbers-numbers width all rest h)

topic_guard :
    (x : Externals) (t : TopicMetadata)
    → IsTopic x t
    → ((t.partitions == 0)
        || (not (length t.leaders == 0) && not (length t.leaders == t.partitions)))
      ≡ false
topic_guard x t h = ground (arith, h.partitions_pos, h.leader_count)

pub decode_topic-fields :
    (x : Externals) (t : TopicMetadata) (rest : Bytes)
    → IsTopic x t
    → decode_topic x (concat (topic_fields t) ++ rest) ≡ ok (t, rest)
unfolding decode_topic number_bytes
decode_topic-fields x t rest h = rw (
  topic-onto t rest,
  decode_string-field x t.topic _ h.topic,
  ensure_remaining-le 8 (be 4 t.partitions ++ (be 4 (length t.leaders) ++ number_bytes t rest)) (
      omega (
        arith,
        length-append (be 4 t.partitions) (be 4 (length t.leaders) ++ number_bytes t rest),
        length-append (be 4 (length t.leaders)) (number_bytes t rest),
        length-be 4 t.partitions,
        length-be 4 (length t.leaders),
      )),
  get_uint-be 4 t.partitions _ h.partitions,
  read_len-be_four (length t.leaders) _ (leader_count_bound x t h),
  topic_guard x t h,
  ensure-numbers 4 (length t.leaders) t.leaders _ refl,
  counted 4 (length t.leaders) t.leaders _ refl h.leaders,
  ensure-numbers 8 (length t.leaders) t.leader_epochs _ h.epoch_count,
  counted 8 (length t.leaders) t.leader_epochs _ h.epoch_count h.epochs,
  ensure-numbers 8 (length t.leaders) t.high_watermarks rest h.mark_count,
  counted 8 (length t.leaders) t.high_watermarks rest h.mark_count h.marks,
)
