-- ===== src/Tests/Storage.antt =====
-- Runs of the partition log of crates/storage/src/lib.rs, and the properties of it at concrete states.
use sevlamq.Prelude.{bytes_eq, pair_eq}
use sevlamq.Prelude.{
  List, [], arith, bytes_beq, drop, get_elem?, insert, is_identifier_byte, length, lookup, none,
  refl, some, starts_with_underscores, take, true, ℕ, ◌++◌, ◌+◌, ◌-◌, ◌∷◌, ◌≡◌, ◌≢◌, ◌⊎◌,
}
use sevlamq.Storage.Record.{encode_record, encode_body, validate_producer_id, decode_record}
use sevlamq.Storage.Record.Encoded.{record_bytes, length-record_bytes}
use sevlamq.Storage.Record.Safety.{decode_record_total}
use sevlamq.Storage.Record.Torn.{decode_record-torn}
use sevlamq.Storage.Segment.Total.{recover_contents_total}
use sevlamq.Storage.Types.{Checks, Record, StoredRecord, ok, panic}
use sevlamq.Storage.Segment.Layout.{IsCrc, encode_all}
use sevlamq.Storage.Segment.{
  ProducerState, create_segment, decimal, discover_segments, encode_index, index_path,
  recover_contents, recover_loop, recover_producer, segment_path,
}
use sevlamq.Storage.Log.Appending.{Appended, IsRetry, append-Appended}
use sevlamq.Storage.Log.{Partition, append, append_new, rotate_if, validate_topic, write_record}
use sevlamq.Storage.Log.Layout.{Holds}
use sevlamq.Storage.Upkeep.{append_replica, cut_segment, open_log, open_segment, open_segments}
use sevlamq.Storage.Upkeep.Replica.{Agrees, append_replica-Agrees}
use sevlamq.Storage.Log.Rotating.{fresh}
use sevlamq.Storage.Record.RoundTrip.{IsHeld, decode_record-encode_record, stored}
use sevlamq.Storage.Log.Writing.{grown, index_written, written}
use sevlamq.Protocol.Writer.{be}
use sevlamq.Storage.Read.Refined.{fetched, read-fetched}
use sevlamq.Storage.Read.Progress.{read-first, read-take, stored_all}
use sevlamq.Storage.Read.{read}
use sevlamq.Storage.Log.Retry.{append-append}
use sevlamq.Storage.Log.Sequences.{HoldsNumbered, Appends-HoldsNumbered, stay, then_append}
use sevlamq.Storage.Segment.Crash.{Cut, recover_contents-Cut}
use sevlamq.Storage.Segment.Recovering.{Recovered, replay, start_at}

abbrev checks : Checks
checks = record { hash = λ text. 7; is_utf8 = λ text. true }

checks-IsCrc : IsCrc checks
checks-IsCrc text = omega arith

abbrev order : Record
order = record {
  key = none;
  value = b'h' ∷ b'i' ∷ [];
  timestamp_ms = 5;
  producer = some (record { id = b'p' ∷ []; sequence = 0 });
}

abbrev event : Record
event = record { key = some (b'k' ∷ []); value = b'!' ∷ []; timestamp_ms = 6; producer = none }

abbrev new_log : Partition
new_log = record {
  files = (segment_path 0, []) ∷ (index_path (segment_path 0), []) ∷ [];
  log = record {
    next_offset = 0;
    max_segment_bytes = 64;
    index_interval_bytes = 1;
    segments = fresh 0 ∷ [];
    active_file = segment_path 0;
    active_index_file = index_path (segment_path 0);
    producer_state = [];
  };
}

abbrev new_log_holds : Holds checks new_log [] (fresh 0) []
unfolding lookup bytes_beq decimal encode_all
new_log_holds = record {
  base = 0;
  end = 0;
  segments_are = refl;
  closed_are = refl;
  active_is = record {
    base_is = refl;
    path_is = refl;
    contents = refl;
    len_is = refl;
    entries = tt;
    fits = tt;
  };
  next_is = refl;
  next_fits = omega arith;
  file_is = refl;
  index_file_is = refl;
}

order-IsHeld : IsHeld checks order 0
order-IsHeld = (omega arith, omega arith, (omega arith, refl))

-- A new directory is opened as an empty log.
open_log_new : open_log checks (b't' ∷ []) 64 1 [] ≡ (ok new_log.log, new_log.files)
unfolding open_log validate_topic discover_segments create_segment starts_with_underscores
    is_identifier_byte lookup insert bytes_beq decimal open_segments open_segment recover_contents
    recover_loop decode_record cut_segment encode_index
open_log_new = refl

-- The log after the first record.
abbrev one_record : Partition
one_record =
    written order 0 (record_bytes checks order 0) (fresh 0) true
      (0 + length (record_bytes checks order 0)) (0 + 1) new_log

order_bytes : encode_record checks order 0 ≡ ok (record_bytes checks order 0)
unfolding encode_record record_bytes encode_body validate_producer_id is_identifier_byte be
order_bytes = refl

order_appended : append checks order new_log ≡ (ok 0, one_record)
unfolding append append_new rotate_if write_record written index_written lookup insert bytes_beq
    decimal encode_record record_bytes encode_body validate_producer_id is_identifier_byte be
order_appended = refl

append-Appended_example :
    ((one_record ≡ new_log) × IsRetry new_log order.producer 0)
    ⊎ (Appended checks new_log one_record [] order × (0 ≡ new_log.log.next_offset))
append-Appended_example =
    append-Appended checks new_log one_record [] (fresh 0) [] order 0 new_log_holds order-IsHeld
      order_appended

abbrev one_event : Partition
one_event =
    written event 0 (record_bytes checks event 0) (fresh 0) true
      (0 + length (record_bytes checks event 0)) (0 + 1) new_log

event-IsHeld : IsHeld checks event 0
event-IsHeld = (omega arith, omega arith, tt)

abbrev one_record_holds :
    Holds checks one_record []
      (grown (fresh 0) (0 + length (record_bytes checks order 0)) true 0)
      (order ∷ [])
unfolding written index_written lookup insert bytes_beq decimal encode_all record_bytes encode_body
    be
one_record_holds = record {
  base = 0;
  end = 0;
  segments_are = refl;
  closed_are = refl;
  active_is = record {
    base_is = refl;
    path_is = refl;
    contents = refl;
    len_is = refl;
    entries = (
      record { front = []; back = order ∷ []; split = refl; offset_is = refl; position_is = refl },
      tt,
    );
    fits = ((omega arith, order-IsHeld), tt);
  };
  next_is = refl;
  next_fits = omega arith;
  file_is = refl;
  index_file_is = refl;
}

event_added : append_replica checks 0 event new_log ≡ (ok 0, one_event)
unfolding append_replica append append_new rotate_if write_record written index_written lookup
    insert bytes_beq decimal encode_record record_bytes encode_body validate_producer_id
    is_identifier_byte be
event_added = refl

append_replica-Agrees_example : (◌≡◌ {A = ℕ} 0 0) × Agrees checks one_event 0 event
unfolding new_log_holds
append_replica-Agrees_example =
    append_replica-Agrees checks new_log one_event [] (fresh 0) [] event 0 0 checks-IsCrc
      new_log_holds event-IsHeld refl (omega arith) event_added

read-fetched_example : read checks 0 1 one_record ≡ ok (fetched 0 1 0 0 true (order ∷ []))
unfolding one_record_holds
read-fetched_example =
    read-fetched checks one_record [] _ (order ∷ []) 0 1 checks-IsCrc (omega arith) one_record_holds

read-first_example :
    (r : Record) × (rest : List StoredRecord) × (get_elem? (order ∷ []) (0 - 0) ≡ some r)
    × (read checks 0 1 one_record ≡ ok (stored r 0 ∷ rest))
unfolding one_record_holds
read-first_example =
    read-first checks one_record [] _ (order ∷ []) 0 1 checks-IsCrc (omega arith) one_record_holds
      (omega arith) (omega arith)

read-take_example :
    (n : ℕ) × (read checks 0 1 one_record ≡ ok (take n (drop (0 - 0) (stored_all 0 (order ∷ [])))))
unfolding one_record_holds
read-take_example =
    read-take checks one_record [] _ (order ∷ []) 0 1 checks-IsCrc (omega arith) one_record_holds
      (omega arith)

append-append_example : append checks order one_record ≡ (ok 0, one_record)
append-append_example =
    append-append checks new_log one_record [] (fresh 0) [] order
      (record { id = b'p' ∷ []; sequence = 0 }) 0 new_log_holds order-IsHeld refl order_appended

order_again : append checks order one_record ≡ (ok 0, one_record)
order_again =
    append-append checks new_log one_record [] (fresh 0) [] order
      (record { id = b'p' ∷ []; sequence = 0 }) 0 new_log_holds order-IsHeld refl order_appended

new_log_numbered : HoldsNumbered checks new_log
unfolding lookup
new_log_numbered = record {
  closed = [];
  active = fresh 0;
  rest = [];
  holds = new_log_holds;
  numbered = λ id. refl;
}

-- The record is sent twice.
Appends-HoldsNumbered_example : HoldsNumbered checks one_record
unfolding written
Appends-HoldsNumbered_example = Appends-HoldsNumbered checks new_log one_record new_log_numbered (
    then_append (then_append (stay new_log) order 0 order-IsHeld order_appended) order 0
      (omega arith, omega arith, (omega arith, refl)) order_again)

order_replayed : replay (order ∷ []) 0 [] ≡ ok ((b'p' ∷ [], (0, 0)) ∷ [])
unfolding replay recover_producer validate_producer_id is_identifier_byte insert lookup
order_replayed = refl

recover_contents-Cut_example :
    (c : Cut checks 0 20 (order ∷ [])) × (state : ProducerState) × (replay c.front 0 [] ≡ ok state)
    × Recovered checks 0 c.front
        (0 + length c.front)
        state
        (length (encode_all checks 0 c.front))
        (recover_contents checks 1 (take 20 (encode_all checks 0 (order ∷ []))) (start_at 0 []))
recover_contents-Cut_example =
    recover_contents-Cut checks 1 0 20 (order ∷ []) [] _ checks-IsCrc (omega arith)
      ((omega arith, order-IsHeld), tt) order_replayed

recover_contents_total_example :
    recover_contents checks 1 (0 ∷ 0 ∷ 0 ∷ 44 ∷ []) (start_at 0 []) ≢ panic
recover_contents_total_example =
    recover_contents_total checks 1 (0 ∷ 0 ∷ 0 ∷ 44 ∷ []) (start_at 0 [])

decode_record-encode_record_example :
    decode_record checks (record_bytes checks order 0 ++ 9 ∷ [])
    ≡ ok (some (stored order 0), 9 ∷ [])
decode_record-encode_record_example =
    decode_record-encode_record checks order 0 (record_bytes checks order 0) (9 ∷ []) checks-IsCrc
      order-IsHeld order_bytes

decode_record-torn_example :
    decode_record checks (take 20 (record_bytes checks order 0))
    ≡ ok (none, take 20 (record_bytes checks order 0))
decode_record-torn_example =
    decode_record-torn checks order 0 20 (omega arith)
      (omega (arith, length-record_bytes checks order 0))

decode_record_total_example : decode_record checks (0 ∷ 0 ∷ 0 ∷ 44 ∷ []) ≢ panic
decode_record_total_example = decode_record_total checks (0 ∷ 0 ∷ 0 ∷ 44 ∷ [])
