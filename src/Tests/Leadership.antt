-- ===== src/Tests/Leadership.antt =====
-- The registry of crates/broker/src/leadership.rs with two brokers, on the disk in memory.
use sevlamq.Prelude.{bytes_beq, insert, bytes_eq, nat_eq, pair_eq}
use sevlamq.Prelude.{[], bytes_beq, lookup, refl, some, ◌∷◌, ◌≡◌}
use sevlamq.Protocol.Types.{Bytes, PartitionLeadership}
use sevlamq.Broker.Groups.Group.{bytes_ltb}
use sevlamq.Broker.Leadership.Registry.{
  LeadershipRegistry, apply, ensure_topic, is_stale, persist_entries, ensure_loop,
  deterministic_leader, ok,
}
use sevlamq.Broker.Leadership.Epochs.{Succeeds}
use sevlamq.Broker.Leadership.Runs.{
  Follows, apply-Follows, stay, then_step, ensures, one_leader_per_epoch, epoch_rises, lookup-apply,
}
use sevlamq.Tests.Memory.{memory}

abbrev registry : LeadershipRegistry memory
registry = record {
  directory = [];
  cluster = record {
    responding_broker_id = 1;
    nodes =
        record { id = 1; host = []; port = 1; admin_port = 1; replication_port = 1 }
        ∷ record { id = 2; host = []; port = 1; admin_port = 1; replication_port = 1 }
        ∷ [];
  };
  entries = [];
  disk = [];
}

abbrev topic : Bytes
topic = b't' ∷ []

abbrev second_epoch : PartitionLeadership
second_epoch = record { partition = 0; leader_id = 2; leader_epoch = 1; high_watermark = 4 }

abbrev later_watermark : PartitionLeadership
later_watermark = record { partition = 0; leader_id = 2; leader_epoch = 1; high_watermark = 9 }

abbrev promoted : LeadershipRegistry memory
promoted = (apply registry topic second_epoch).1

abbrev grown : LeadershipRegistry memory
grown = (ensure_topic promoted topic 2).1

first_apply : (apply registry topic second_epoch).0 ≡ ok tt
unfolding apply persist_entries lookup insert bytes_beq is_stale bytes_ltb
first_apply = refl

second_apply : (apply grown topic later_watermark).0 ≡ ok tt
unfolding apply persist_entries lookup insert bytes_beq is_stale ensure_topic ensure_loop
    deterministic_leader bytes_ltb
second_apply = refl

one_leader_per_epoch_example : second_epoch.leader_id ≡ later_watermark.leader_id
one_leader_per_epoch_example =
    one_leader_per_epoch registry grown topic second_epoch later_watermark refl refl first_apply
      (then_step (stay promoted) (ensures promoted topic 2)) second_apply

lookup-apply_example : lookup (topic, 0) promoted.entries ≡ some second_epoch
lookup-apply_example = lookup-apply registry topic second_epoch first_apply

epoch_rises_example :
    (new : PartitionLeadership) × (lookup (topic, 0) grown.entries ≡ some new)
    × Succeeds second_epoch new
epoch_rises_example =
    epoch_rises promoted grown (topic, 0) second_epoch
      (then_step (stay promoted) (ensures promoted topic 2)) lookup-apply_example

held : lookup (topic, 0) grown.entries ≡ some second_epoch
unfolding apply persist_entries lookup insert bytes_beq is_stale ensure_topic ensure_loop
    deterministic_leader bytes_ltb
held = refl

apply-Follows_example : Follows second_epoch (topic, 0) (apply grown topic later_watermark)
apply-Follows_example = apply-Follows grown topic later_watermark second_epoch held
