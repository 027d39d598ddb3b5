-- ===== src/Broker/Groups/Joined.antt =====
-- What a member may do after it has joined a group of crates/broker/src/groups.rs.
use sevlamq.Prelude.{
  Bool, Bool-cases, List, [], ap, arith, bytes_beq_iff, false, if◌then◌else◌, inl, inr, lookup,
  lookup-insert_self, ltb, not, refl, some, subst, sym, true, ℕ, ◌+◌, ◌==◌, ◌^◌, ◌||◌, ◌∷◌, ◌≡◌,
  ◌≢◌,
}
use sevlamq.Prelude.{nat_eq, bytes_eq, pair_eq, bytes_beq_iff}
use sevlamq.Broker.Host.{Host}
use sevlamq.Broker.Groups.Commit.{authorize_iff}
use sevlamq.Protocol.Types.{Bytes}
use sevlamq.Broker.Groups.Group.{
  ConsumerGroup, GroupError, Result, assigned, contains, contains_key, err, expire_members,
  insert_member, ok, rebalance, validate_id,
}
use sevlamq.Broker.Groups.Coordinator.{
  GroupCoordinator, JoinGroupResponse, authorize, partition_count,
}
use sevlamq.Broker.Groups.Joining.{checked, entry_or_load, join, join_entry, member_joins, respond}

contains_key-insert_member :
    (name : Bytes) (now : ℕ) (members : List (Bytes × ℕ))
    → contains_key name (insert_member name now members) ≡ true
unfolding insert_member
contains_key-insert_member name now [] = ground (arith, bytes_beq_iff name name)
contains_key-insert_member name now ((other, seen) ∷ rest) = ground (
  arith,
  bytes_beq_iff name name,
  bytes_beq_iff other name,
  contains_key-insert_member name now rest,
)

members-if_rebalance :
    (test : Bool) (group : ConsumerGroup) (count : ℕ)
    → (if test then rebalance group count else (ok tt, group)).1.members ≡ group.members
unfolding rebalance
members-if_rebalance false group count = refl
members-if_rebalance true group count = elim (Bool-cases (ltb (group.generation + 1) (2 ^ 64))) [
  | inl fits ↦ rw (rebalance, fits)
  | inr full ↦ rw (rebalance, full)
]

err_not_joined : (e : GroupError) (r : JoinGroupResponse) → err e ≢ ok r
err_not_joined e r h = ground (arith, h)

ok_injective : (a b : JoinGroupResponse) → ok a ≡ ok b → a ≡ b
ok_injective a b h = ground arith

-- The reply names the generation and the partitions that the group holds for the member.
abbrev pub IsReply : ConsumerGroup → Bytes → JoinGroupResponse → Type 0
IsReply state member r =
    (r.generation ≡ state.generation)
    × (r.partitions ≡ assigned state.assignments member)
    × (contains_key member state.members ≡ true)

respond-IsReply :
    (member : Bytes) (done : Result (Unit {0}) × ConsumerGroup) (r : JoinGroupResponse)
    → contains_key member (done.1.members) ≡ true
    → (respond member done).0 ≡ ok r
    → IsReply ((respond member done).1) member r
respond-IsReply member (err e, state) r present h = elim (err_not_joined e r h) [ ]
respond-IsReply member (ok _, state) r present h =
    let same = ok_injective _ r h in
    (sym (ap (λ reply. reply.generation) same), sym (ap (λ reply. reply.partitions) same), present)

member_joins-IsReply :
    (timeout count now : ℕ) (member : Bytes) (group : ConsumerGroup) (r : JoinGroupResponse)
    → (member_joins timeout count now member group).0 ≡ ok r
    → IsReply ((member_joins timeout count now member group).1) member r
unfolding member_joins expire_members
member_joins-IsReply timeout count now member group r h =
    respond-IsReply member _ r
      (rw
        (members-if_rebalance
          (not (contains_key member live.members)
            || ((expire_members group timeout now).1 || live.generation == 0))
          (record live { members = insert_member member now live.members }) count)
        (contains_key-insert_member member now live.members))
      h
  where
    live : ConsumerGroup
    live = (expire_members group timeout now).0

module _ {host : Host} where
  -- The map holds a group to which the reply belongs.
  abbrev pub HasJoined : GroupCoordinator host → Bytes × Bytes → Bytes → JoinGroupResponse → Type 0
  HasJoined s key member r =
      (state : ConsumerGroup) × (lookup key s.groups ≡ some state) × IsReply state member r

  join_entry-HasJoined :
      (s : GroupCoordinator host) (group topic member : Bytes) (now : ℕ)
      (entry : Result ConsumerGroup) (r : JoinGroupResponse)
      → (join_entry s group topic member now entry).0 ≡ ok r
      → HasJoined ((join_entry s group topic member now entry).1) (group, topic) member r
  join_entry-HasJoined s group topic member now (err e) r h = elim (err_not_joined e r h) [ ]
  join_entry-HasJoined s group topic member now (ok state) r h = (
    _,
    lookup-insert_self (group, topic) _ s.groups,
    member_joins-IsReply s.session_timeout (partition_count s topic) now member state r h,
  )

  checked-HasJoined :
      (s : GroupCoordinator host) (key : Bytes × Bytes) (member : Bytes) (r : JoinGroupResponse)
      (check : Result (Unit {0})) (next : Result JoinGroupResponse × GroupCoordinator host)
      → (next.0 ≡ ok r → HasJoined (next.1) key member r)
      → (checked s check next).0 ≡ ok r
      → HasJoined ((checked s check next).1) key member r
  checked-HasJoined s key member r (err e) next step h = elim (err_not_joined e r h) [ ]
  checked-HasJoined s key member r (ok _) next step h = step h

  join-HasJoined :
      (s : GroupCoordinator host) (group topic member : Bytes) (now : ℕ) (r : JoinGroupResponse)
      → (join s group topic member now).0 ≡ ok r
      → HasJoined ((join s group topic member now).1) (group, topic) member r
  unfolding join
  join-HasJoined s group topic member now r =
      checked-HasJoined s (group, topic) member r (validate_id group) _
        (checked-HasJoined s (group, topic) member r (validate_id topic) _
          (checked-HasJoined s (group, topic) member r (validate_id member) _
            (join_entry-HasJoined s group topic member now
              (entry_or_load s group topic (partition_count s topic)
                (lookup (group, topic) s.groups))
              r)))

  -- After a `join` that succeeds, the group passes the checks of a commit and of a fetch for the
  -- member, with the generation and for every partition that the reply names.
  pub authorize-join :
      (s : GroupCoordinator host) (group topic member : Bytes) (now partition : ℕ)
      (r : JoinGroupResponse)
      → (join s group topic member now).0 ≡ ok r
      → contains r.partitions partition ≡ true
      → (state : ConsumerGroup) × (lookup (group, topic) ((join s group topic member now).1.groups)
          ≡ some state)
        × (authorize state member r.generation partition ≡ ok tt)
  authorize-join s group topic member now partition r success named =
      let (state, found, (same_generation, same_partitions, present)) =
        join-HasJoined s group topic member now r success in
      (
        state,
        found,
        (authorize_iff state
              (record { group = group; topic = topic; member = member; generation = r.generation })
              partition).1
            (
              same_generation,
              subst (λ partitions. contains partitions partition ≡ true) same_partitions named,
              present,
            ),
      )
