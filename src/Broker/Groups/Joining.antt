-- ===== src/Broker/Groups/Joining.antt =====
-- The operations of crates/broker/src/groups.rs that read the offset files: a member joins, and a
-- topic gets its number of partitions.
use sevlamq.Prelude.{
  List, Option, [], if◌then◌else◌, insert, lookup, none, not, some, ℕ, ◌==◌, ◌||◌, ◌∷◌, ◌≟◌,
}
use sevlamq.Prelude.{nat_eq, bytes_eq, pair_eq, ◌≟◌}
use sevlamq.Protocol.Types.{Bytes}
use sevlamq.Broker.Host.{Host}
use sevlamq.Broker.Groups.Group.{
  ConsumerGroup, Result, assigned, contains_key, err, expire_members, insert_member, new_group, ok,
  rebalance, validate_id,
}
use sevlamq.Broker.Groups.Offsets.{load_offsets}
use sevlamq.Broker.Groups.Coordinator.{
  GroupCoordinator, Groups, JoinGroupResponse, partition_count, put,
}

-- The reply to the member, from the generation that a rebalance has left.
abbrev pub respond :
    Bytes → Result (Unit {0}) × ConsumerGroup → Result JoinGroupResponse × ConsumerGroup
respond member (err e, state) = (err e, state)
respond member (ok _, state) = (
  ok (record { generation = state.generation; partitions = assigned state.assignments member }),
  state,
)

unfoldable pub member_joins :
    ℕ → ℕ → ℕ → Bytes → ConsumerGroup → Result JoinGroupResponse × ConsumerGroup
member_joins timeout count now member group =
    let live = expire_members group timeout now in
    let is_new = not (contains_key member (live.0.members)) in
    let joined = record (live.0) { members = insert_member member now (live.0.members) } in
    respond member (
      if is_new || (live.1 || live.0.generation == 0)
      then rebalance joined count
      else (ok tt, joined))

-- `extend`: the read offsets replace those of the same partitions.
abbrev extend_offsets : List (ℕ × ℕ) → List (ℕ × ℕ) → List (ℕ × ℕ)
extend_offsets offsets [] = offsets
extend_offsets offsets ((partition, offset) ∷ rest) =
    extend_offsets (insert partition offset offsets) rest

-- A group of the topic takes the loaded offsets; an error ends the loop before the others.
abbrev pub reload_next :
    Bytes × Bytes
    → ConsumerGroup
    → Groups
    → Result (Unit {0}) × Groups
    → Result (List (ℕ × ℕ))
    → Result (Unit {0}) × Groups
reload_next key state rest done (err e) = (err e, (key, state) ∷ rest)
reload_next key state rest done (ok offsets) = (
  done.0,
  (key, record state { committed_offsets = extend_offsets state.committed_offsets offsets })
      ∷ done.1,
)

unfoldable pub reload_loop :
    (Bytes → Result (List (ℕ × ℕ))) → Bytes → Groups → Result (Unit {0}) × Groups
reload_loop load topic [] = (ok tt, [])
reload_loop load topic ((key, state) ∷ rest) =
    let done = reload_loop load topic rest in
    if key.1 ≟ topic
    then reload_next key state rest done (load (key.0))
    else (done.0, (key, state) ∷ done.1)

module _ {host : Host} where
  -- The state of the group, made from the files if it is new.
  abbrev pub entry_or_load :
      GroupCoordinator host → Bytes → Bytes → ℕ → Option ConsumerGroup → Result ConsumerGroup
  entry_or_load s group topic count (some state) = ok state
  entry_or_load s group topic count none =
      elim (load_offsets host s.offsets_dir group topic count s.disk) [
        | err e ↦ err e
        | ok offsets ↦ ok (new_group offsets)
      ]

  abbrev pub join_entry :
      GroupCoordinator host
      → Bytes
      → Bytes
      → Bytes
      → ℕ
      → Result ConsumerGroup
      → Result JoinGroupResponse × GroupCoordinator host
  join_entry s group topic member now (err e) = (err e, s)
  join_entry s group topic member now (ok state) =
      let done = member_joins s.session_timeout (partition_count s topic) now member state in
      (done.0, put group topic (done.1) s)

  -- `?` on a check, before anything is changed.
  abbrev pub checked :
      GroupCoordinator host
      → Result (Unit {0})
      → Result JoinGroupResponse × GroupCoordinator host
      → Result JoinGroupResponse × GroupCoordinator host
  checked s (err e) next = (err e, s)
  checked s (ok _) next = next

  unfoldable pub join :
      GroupCoordinator host
      → Bytes
      → Bytes
      → Bytes
      → ℕ
      → Result JoinGroupResponse × GroupCoordinator host
  join s group topic member now = checked s (validate_id group) (
      checked s (validate_id topic) (
        checked s (validate_id member) (
          join_entry s group topic member now (
            entry_or_load s group topic (partition_count s topic)
              (lookup (group, topic) s.groups)))))

  unfoldable pub set_topic_partitions :
      GroupCoordinator host → Bytes → ℕ → Result (Unit {0}) × GroupCoordinator host
  set_topic_partitions s topic partitions =
      let done =
        reload_loop (λ group. load_offsets host s.offsets_dir group topic partitions s.disk) topic
          s.groups in
      (
        done.0,
        record s {
          topic_partition_counts = insert topic partitions s.topic_partition_counts;
          groups = done.1;
        },
      )
