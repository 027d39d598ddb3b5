-- ===== src/Broker/Groups/Coordinator.antt =====
-- The coordinator of crates/broker/src/groups.rs: its state, and one function for each operation.
-- An operation gives its result and the state that it leaves, errors included.
use sevlamq.Prelude.{List, Option, [], if◌then◌else◌, insert, lookup, none, some, ℕ, ◌∷◌}
use sevlamq.Prelude.{nat_eq, bytes_eq, pair_eq}
use sevlamq.Protocol.Types.{Bytes}
use sevlamq.Broker.Host.{FilePath, Host}
use sevlamq.Broker.Groups.Group.{
  ConsumerGroup, Result, err, expire_members, insert_member, ok, owns, partition_not_assigned,
  rebalance, remove_member, unknown_group, validate_id, validate_member,
}
use sevlamq.Broker.Groups.Offsets.{offset_path, parse_offset, persist_offset}

abbrev pub Groups : Type 0
Groups = List ((Bytes × Bytes) × ConsumerGroup)

-- The maps `topic_partition_counts` and `groups`, and the disk that the files stand on.
pub record GroupCoordinator (host : Host) : Type 0 where
  pub offsets_dir : FilePath
  pub default_partition_count : ℕ
  pub topic_partition_counts : List (Bytes × ℕ)
  pub session_timeout : ℕ
  pub groups : Groups
  pub disk : host.Disk

pub record GroupIdentity : Type 0 where
  pub group : Bytes
  pub topic : Bytes
  pub member : Bytes
  pub generation : ℕ

pub record JoinGroupResponse : Type 0 where
  pub generation : ℕ
  pub partitions : List ℕ

-- Drops the dead members, and distributes the partitions again if there were any.
unfoldable pub refresh : ℕ → ℕ → ℕ → ConsumerGroup → Result (Unit {0}) × ConsumerGroup
unfolding expire_members
refresh timeout count now group =
    let live = expire_members group timeout now in
    if live.1 then rebalance (live.0) count else (ok tt, live.0)

-- One group of the loop is refreshed; an error ends the loop before the others.
abbrev pub expire_next :
    Bytes × Bytes
    → Groups
    → Result (Unit {0}) × Groups
    → Result (Unit {0}) × ConsumerGroup
    → Result (Unit {0}) × Groups
expire_next key rest done (err e, state) = (err e, (key, state) ∷ rest)
expire_next key rest done (ok _, state) = (done.0, (key, state) ∷ done.1)

unfoldable pub expire_loop : (Bytes → ℕ) → ℕ → ℕ → Groups → Result (Unit {0}) × Groups
expire_loop count timeout now [] = (ok tt, [])
expire_loop count timeout now ((key, state) ∷ rest) =
    let done = expire_loop count timeout now rest in
    expire_next key rest done (refresh timeout (count (key.1)) now state)

-- The checks of `commit` and `authorize_fetch`.
unfoldable pub authorize : ConsumerGroup → Bytes → ℕ → ℕ → Result (Unit {0})
unfolding validate_member
authorize state member generation partition = elim (validate_member state member generation) [
  | err e ↦ err e
  | ok _ ↦ if owns state member partition then ok tt else err (partition_not_assigned partition)
]

-- Records an offset that the disk has taken.
abbrev pub record_offset : ConsumerGroup → ℕ → ℕ → ConsumerGroup
record_offset state partition offset = record state {
  committed_offsets = insert partition offset state.committed_offsets;
}

abbrev pub beat : Bytes → ℕ → ℕ → ConsumerGroup → Result (Unit {0}) × ConsumerGroup
beat member generation now state = elim (validate_member state member generation) [
  | err e ↦ (err e, state)
  | ok _ ↦ (ok tt, record state { members = insert_member member now state.members })
]

abbrev pub member_leaves : Bytes → ℕ → ℕ → ConsumerGroup → Result (Unit {0}) × ConsumerGroup
member_leaves member generation count state = elim (validate_member state member generation) [
  | err e ↦ (err e, state)
  | ok _ ↦ rebalance (record state { members = remove_member member state.members }) count
]

module _ {host : Host} where
  open host use {Disk, read_to_string}

  abbrev pub partition_count : GroupCoordinator host → Bytes → ℕ
  partition_count s topic = elim (lookup topic s.topic_partition_counts) [
    | none ↦ s.default_partition_count
    | some count ↦ count
  ]

  abbrev pub put : Bytes → Bytes → ConsumerGroup → GroupCoordinator host → GroupCoordinator host
  put group topic state s = record s { groups = insert (group, topic) state s.groups }

  -- Writes a refreshed group back.
  abbrev pub settle :
      GroupCoordinator host
      → Bytes
      → Bytes
      → Result (Unit {0}) × ConsumerGroup
      → Result ConsumerGroup × GroupCoordinator host
  settle s group topic (err e, state) = (err e, put group topic state s)
  settle s group topic (ok _, state) = (ok state, put group topic state s)

  abbrev pub active_from :
      GroupCoordinator host
      → Bytes
      → Bytes
      → ℕ
      → Option ConsumerGroup
      → Result ConsumerGroup × GroupCoordinator host
  active_from s group topic now none = (err unknown_group, s)
  active_from s group topic now (some state) =
      settle s group topic (refresh s.session_timeout (partition_count s topic) now state)

  unfoldable pub active_group :
      GroupCoordinator host → Bytes → Bytes → ℕ → Result ConsumerGroup × GroupCoordinator host
  active_group s group topic now = active_from s group topic now (lookup (group, topic) s.groups)

  -- What an operation does with the active group, and the group that it leaves.
  abbrev pub on_active :
      Bytes
      → Bytes
      → (ConsumerGroup → Result (Unit {0}) × ConsumerGroup)
      → Result ConsumerGroup × GroupCoordinator host
      → Result (Unit {0}) × GroupCoordinator host
  on_active group topic operation (err e, s) = (err e, s)
  on_active group topic operation (ok state, s) =
      let done = operation state in (done.0, put group topic (done.1) s)

  unfoldable pub heartbeat :
      GroupCoordinator host
      → Bytes
      → Bytes
      → Bytes
      → ℕ
      → ℕ
      → Result (Unit {0}) × GroupCoordinator host
  heartbeat s group topic member generation now =
      on_active group topic (beat member generation now) (active_group s group topic now)

  unfoldable pub leave :
      GroupCoordinator host
      → Bytes
      → Bytes
      → Bytes
      → ℕ
      → ℕ
      → Result (Unit {0}) × GroupCoordinator host
  leave s group topic member generation now =
      on_active group topic (member_leaves member generation (partition_count s topic))
        (active_group s group topic now)

  unfoldable pub authorize_fetch :
      GroupCoordinator host → GroupIdentity → ℕ → ℕ → Result (Unit {0}) × GroupCoordinator host
  authorize_fetch s identity partition now =
      on_active identity.group identity.topic
        (λ state. (authorize state identity.member identity.generation partition, state))
        (active_group s identity.group identity.topic now)

  -- The offset goes to the disk, and only then into the group.
  abbrev pub persisted :
      GroupIdentity
      → ℕ
      → ℕ
      → ConsumerGroup
      → GroupCoordinator host
      → Result (Unit {0}) × Disk
      → Result (Unit {0}) × GroupCoordinator host
  persisted identity partition offset state s (err e, disk) = (err e, record s { disk = disk })
  persisted identity partition offset state s (ok _, disk) = (
    ok tt,
    put identity.group identity.topic (record_offset state partition offset)
        (record s { disk = disk }),
  )

  abbrev pub commit_checked :
      GroupIdentity
      → ℕ
      → ℕ
      → ConsumerGroup
      → GroupCoordinator host
      → Result (Unit {0})
      → Result (Unit {0}) × GroupCoordinator host
  commit_checked identity partition offset state s (err e) = (err e, s)
  commit_checked identity partition offset state s (ok _) =
      persisted identity partition offset state s
        (persist_offset host s.offsets_dir identity.group identity.topic partition offset s.disk)

  abbrev pub commit_active :
      GroupIdentity
      → ℕ
      → ℕ
      → Result ConsumerGroup × GroupCoordinator host
      → Result (Unit {0}) × GroupCoordinator host
  commit_active identity partition offset (err e, s) = (err e, s)
  commit_active identity partition offset (ok state, s) =
      commit_checked identity partition offset state s
        (authorize state identity.member identity.generation partition)

  unfoldable pub commit :
      GroupCoordinator host → GroupIdentity → ℕ → ℕ → ℕ → Result (Unit {0}) × GroupCoordinator host
  commit s identity partition offset now =
      commit_active identity partition offset (active_group s identity.group identity.topic now)

  unfoldable pub committed_offset : GroupCoordinator host → Bytes → Bytes → ℕ → Result (Option ℕ)
  committed_offset s group topic partition = elim (validate_id group) [
    | err e ↦ err e
    | ok _ ↦ elim (validate_id topic) [
      | err e ↦ err e
      | ok _ ↦
          parse_offset host
            (read_to_string s.disk (offset_path host s.offsets_dir group topic partition))
    ]
  ]

  unfoldable pub expire_sessions :
      GroupCoordinator host → ℕ → Result (Unit {0}) × GroupCoordinator host
  expire_sessions s now =
      let done = expire_loop (partition_count s) s.session_timeout now s.groups in
      (done.0, record s { groups = done.1 })
