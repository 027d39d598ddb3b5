-- ===== src/Broker/Groups/Steps.antt =====
-- The runs of the coordinator of crates/broker/src/groups.rs: any operations, in any order.
use sevlamq.Prelude.{
  Option, inl, inr, insert, lookup, lookup-insert_self, none, refl, some, true, ℕ, ◌≡◌,
}
use sevlamq.Prelude.{nat_eq, bytes_eq, pair_eq}
use sevlamq.Protocol.Types.{Bytes}
use sevlamq.Broker.Host.{Host}
use sevlamq.Broker.Groups.Group.{
  ConsumerGroup, Result, Result-cases, err, new_group, ok, owns, validate_id,
}
use sevlamq.Broker.Groups.Coordinator.{
  GroupCoordinator, GroupIdentity, Groups, JoinGroupResponse, active_from, active_group, authorize,
  authorize_fetch, beat, commit, commit_active, expire_sessions, heartbeat, leave, member_leaves,
  on_active, partition_count, persisted, record_offset, refresh, settle,
}
use sevlamq.Broker.Groups.Offsets.{load_offsets, persist_offset}
use sevlamq.Broker.Groups.Joining.{checked, entry_or_load, join, join_entry, set_topic_partitions}
use sevlamq.Broker.Groups.Fencing.{
  Advances, Keeps, Keeps-beat, Keeps-member_joins, Keeps-member_leaves, Keeps-members,
  Keeps-refresh,
}
use sevlamq.Broker.Groups.Loops.{expire_loop-AllKept, reload_loop-AllKept}
use sevlamq.Broker.Groups.Evolution.{
  AllExclusive, AllKept-Preserves, Preserves, Preserves-insert, Preserves-insert_new,
  Preserves-refl, Preserves-trans,
}

module _ {host : Host} where
  -- An operation of the coordinator, whatever its arguments and its result are.
  pub data Step : GroupCoordinator host → GroupCoordinator host → Type 0 where
    joins :
        (s : GroupCoordinator host) (group topic member : Bytes) (now : ℕ)
        → Step s ((join s group topic member now).1)
    beats :
        (s : GroupCoordinator host) (group topic member : Bytes) (generation now : ℕ)
        → Step s ((heartbeat s group topic member generation now).1)
    leaves :
        (s : GroupCoordinator host) (group topic member : Bytes) (generation now : ℕ)
        → Step s ((leave s group topic member generation now).1)
    commits :
        (s : GroupCoordinator host) (identity : GroupIdentity) (partition offset now : ℕ)
        → Step s ((commit s identity partition offset now).1)
    authorizes :
        (s : GroupCoordinator host) (identity : GroupIdentity) (partition now : ℕ)
        → Step s ((authorize_fetch s identity partition now).1)
    expires : (s : GroupCoordinator host) (now : ℕ) → Step s ((expire_sessions s now).1)
    resizes :
        (s : GroupCoordinator host) (topic : Bytes) (partitions : ℕ)
        → Step s ((set_topic_partitions s topic partitions).1)

  pub data Steps : GroupCoordinator host → GroupCoordinator host → Type 0 where
    stay : (s : GroupCoordinator host) → Steps s s
    then_step : {s t u : GroupCoordinator host} → Steps s t → Step t u → Steps s u

  -- The group that an operation works on is in the map.
  abbrev pub IsActive : Bytes × Bytes → Result ConsumerGroup × GroupCoordinator host → Type 0
  IsActive key (err e, s) = Unit {0}
  IsActive key (ok state, s) = lookup key s.groups ≡ some state

  settle-IsActive :
      (s : GroupCoordinator host) (group topic : Bytes) (done : Result (Unit {0}) × ConsumerGroup)
      → IsActive (group, topic) (settle s group topic done)
  settle-IsActive s group topic (err e, state) = tt
  settle-IsActive s group topic (ok _, state) = lookup-insert_self (group, topic) state s.groups

  settle-Preserves :
      (s : GroupCoordinator host) (group topic : Bytes) (old : ConsumerGroup)
      (done : Result (Unit {0}) × ConsumerGroup)
      → lookup (group, topic) s.groups ≡ some old
      → Keeps old (done.1)
      → Preserves s.groups ((settle s group topic done).1.groups)
  settle-Preserves s group topic old (err e, state) found keeps =
      Preserves-insert s.groups (group, topic) old state found keeps
  settle-Preserves s group topic old (ok _, state) found keeps =
      Preserves-insert s.groups (group, topic) old state found keeps

  pub active_group-IsActive :
      (s : GroupCoordinator host) (group topic : Bytes) (now : ℕ)
      → IsActive (group, topic) (active_group s group topic now)
  unfolding active_group
  active_group-IsActive s group topic now = active_from-IsActive (lookup (group, topic) s.groups)
    where
      active_from-IsActive :
          (found : Option ConsumerGroup)
          → IsActive (group, topic) (active_from s group topic now found)
      active_from-IsActive none = tt
      active_from-IsActive (some old) =
          settle-IsActive s group topic
            (refresh s.session_timeout (partition_count s topic) now old)

  pub active_group-Preserves :
      (s : GroupCoordinator host) (group topic : Bytes) (now : ℕ)
      → Preserves s.groups ((active_group s group topic now).1.groups)
  unfolding active_group
  active_group-Preserves s group topic now =
      active_from-Preserves (lookup (group, topic) s.groups) refl
    where
      active_from-Preserves :
          (found : Option ConsumerGroup)
          → lookup (group, topic) s.groups ≡ found
          → Preserves s.groups ((active_from s group topic now found).1.groups)
      active_from-Preserves none absent = Preserves-refl s.groups
      active_from-Preserves (some old) found =
          settle-Preserves s group topic old
            (refresh s.session_timeout (partition_count s topic) now old) found
            (Keeps-refresh s.session_timeout (partition_count s topic) now old)

  on_active-Preserves :
      (gs : Groups) (group topic : Bytes)
      (operation : ConsumerGroup → Result (Unit {0}) × ConsumerGroup)
      (active : Result ConsumerGroup × GroupCoordinator host)
      → ((state : ConsumerGroup) → Keeps state ((operation state).1))
      → Preserves gs (active.1.groups)
      → IsActive (group, topic) active
      → Preserves gs ((on_active group topic operation active).1.groups)
  on_active-Preserves gs group topic operation (err e, s) keeps preserves found = preserves
  on_active-Preserves gs group topic operation (ok state, s) keeps preserves found =
      Preserves-trans gs s.groups (insert (group, topic) ((operation state).1) s.groups) preserves
        (Preserves-insert s.groups (group, topic) state ((operation state).1) found (keeps state))

  commit_active-Preserves :
      (gs : Groups) (identity : GroupIdentity) (partition offset : ℕ)
      (active : Result ConsumerGroup × GroupCoordinator host)
      → Preserves gs (active.1.groups)
      → IsActive (identity.group, identity.topic) active
      → Preserves gs ((commit_active identity partition offset active).1.groups)
  commit_active-Preserves gs identity partition offset (err e, s) preserves found = preserves
  commit_active-Preserves gs identity partition offset (ok state, s) preserves found =
      elim (Result-cases (authorize state identity.member identity.generation partition)) [
        | inl (e, refused) ↦ rw (commit_active, refused) preserves
        | inr (_, valid) ↦
            rw (commit_active, valid)
              (persisted-Preserves (
                persist_offset host s.offsets_dir identity.group identity.topic partition offset
                  s.disk))
      ]
    where
      persisted-Preserves :
          (done : Result (Unit {0}) × host.Disk)
          → Preserves gs ((persisted identity partition offset state s done).1.groups)
      persisted-Preserves (err e, disk) = preserves
      persisted-Preserves (ok _, disk) = Preserves-trans gs s.groups _ preserves (
          Preserves-insert s.groups (identity.group, identity.topic) state
            (record_offset state partition offset) found (inr (refl, refl), λ exclusive. exclusive))

  checked-Preserves :
      (s : GroupCoordinator host) (check : Result (Unit {0}))
      (next : Result JoinGroupResponse × GroupCoordinator host)
      → Preserves s.groups (next.1.groups)
      → Preserves s.groups ((checked s check next).1.groups)
  checked-Preserves s (err e) next preserves = Preserves-refl s.groups
  checked-Preserves s (ok _) next preserves = preserves

  join_entry-Preserves :
      (s : GroupCoordinator host) (group topic member : Bytes) (now : ℕ)
      (found : Option ConsumerGroup)
      → lookup (group, topic) s.groups ≡ found
      → Preserves s.groups (
          (join_entry s group topic member now
            (entry_or_load s group topic (partition_count s topic) found)).1.groups)
  join_entry-Preserves s group topic member now (some old) found =
      Preserves-insert s.groups (group, topic) old _ found
        (Keeps-member_joins s.session_timeout (partition_count s topic) now member old)
  join_entry-Preserves s group topic member now none absent =
      elim (Result-cases
        (load_offsets host s.offsets_dir group topic (partition_count s topic) s.disk)) [
          | inl (e, refused) ↦ rw (entry_or_load, refused) (Preserves-refl s.groups)
          | inr (offsets, loaded) ↦
              rw (entry_or_load, loaded)
                (Preserves-insert_new s.groups (group, topic) offsets _ absent
                  (Keeps-member_joins s.session_timeout (partition_count s topic) now member
                    (new_group offsets)))
        ]

  join-Preserves :
      (s : GroupCoordinator host) (group topic member : Bytes) (now : ℕ)
      → Preserves s.groups ((join s group topic member now).1.groups)
  unfolding join
  join-Preserves s group topic member now = checked-Preserves s (validate_id group) _ (
      checked-Preserves s (validate_id topic) _ (
        checked-Preserves s (validate_id member) _
          (join_entry-Preserves s group topic member now (lookup (group, topic) s.groups) refl)))

  pub Step-Preserves : (s t : GroupCoordinator host) → Step s t → Preserves s.groups t.groups
  unfolding heartbeat leave commit authorize_fetch expire_sessions set_topic_partitions
  Step-Preserves s _ (joins _ group topic member now) = join-Preserves s group topic member now
  Step-Preserves s _ (beats _ group topic member generation now) =
      on_active-Preserves s.groups group topic (beat member generation now)
        (active_group s group topic now) (Keeps-beat member generation now)
        (active_group-Preserves s group topic now) (active_group-IsActive s group topic now)
  Step-Preserves s _ (leaves _ group topic member generation now) =
      on_active-Preserves s.groups group topic
        (member_leaves member generation (partition_count s topic)) (active_group s group topic now)
        (Keeps-member_leaves member generation (partition_count s topic))
        (active_group-Preserves s group topic now) (active_group-IsActive s group topic now)
  Step-Preserves s _ (commits _ identity partition offset now) =
      commit_active-Preserves s.groups identity partition offset
        (active_group s identity.group identity.topic now)
        (active_group-Preserves s identity.group identity.topic now)
        (active_group-IsActive s identity.group identity.topic now)
  Step-Preserves s _ (authorizes _ identity partition now) =
      on_active-Preserves s.groups identity.group identity.topic
        (λ state. (authorize state identity.member identity.generation partition, state))
        (active_group s identity.group identity.topic now)
        (λ state. Keeps-members state state.members)
        (active_group-Preserves s identity.group identity.topic now)
        (active_group-IsActive s identity.group identity.topic now)
  Step-Preserves s _ (expires _ now) =
      AllKept-Preserves s.groups _
        (expire_loop-AllKept (partition_count s) s.session_timeout now s.groups)
  Step-Preserves s _ (resizes _ topic partitions) = AllKept-Preserves s.groups _ (
      reload_loop-AllKept (λ group. load_offsets host s.offsets_dir group topic partitions s.disk)
        topic s.groups)

  pub Steps-Preserves : (s t : GroupCoordinator host) → Steps s t → Preserves s.groups t.groups
  Steps-Preserves s _ (stay _) = Preserves-refl s.groups
  Steps-Preserves s u (then_step {t = t} before step) =
      Preserves-trans s.groups t.groups u.groups (Steps-Preserves s t before)
        (Step-Preserves t u step)

  -- Whatever operations the coordinator runs, a group that it has stays in the map, its generation
  -- never becomes lower, and while the generation is the same no partition changes its owner.
  pub generation_rises :
      (s t : GroupCoordinator host) (key : Bytes × Bytes) (old : ConsumerGroup)
      → Steps s t
      → lookup key s.groups ≡ some old
      → (new : ConsumerGroup) × (lookup key t.groups ≡ some new) × Advances old new
  generation_rises s t key old steps found =
      let (new, found_new, (advances, keeps)) = (Steps-Preserves s t steps).0 key old found in
      (new, found_new, advances)

  -- If no group has a partition with two owners, then none has one after any operations.
  pub owner_stays_unique :
      (s t : GroupCoordinator host) (key : Bytes × Bytes) (group : ConsumerGroup) (a b : Bytes)
      (q : ℕ)
      → AllExclusive s.groups
      → Steps s t
      → lookup key t.groups ≡ some group
      → owns group a q ≡ true
      → owns group b q ≡ true
      → a ≡ b
  owner_stays_unique s t key group a b q exclusive steps found =
      (Steps-Preserves s t steps).1 exclusive key group found a b q
