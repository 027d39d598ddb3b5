-- ===== src/Tests/Groups.antt =====
-- The coordinator of crates/broker/src/groups.rs on a disk in memory, with two members.
use sevlamq.Prelude.{
  [], arith, bytes_beq, insert, lookup, ltb, refl, some, true, ◌&&◌, ◌∷◌, ◌≡◌, ◌≢◌,
}
use sevlamq.Prelude.{is_identifier_byte, nat_eq, bytes_eq, pair_eq}
use sevlamq.Protocol.Types.{Bytes}
use sevlamq.Broker.Groups.Offsets.{
  persist_offset, offset_path, temporary_path, load_offsets, load_loop, parse_offset,
}
use sevlamq.Broker.Groups.Group.{
  expire_members, retain_live, insert_member, assign_loop, validate_member, bytes_ltb, ok,
  ConsumerGroup, owns, rebalance, validate_id, contains_key,
}
use sevlamq.Broker.Groups.Coordinator.{
  active_group, refresh, GroupCoordinator, GroupIdentity, commit, heartbeat, committed_offset,
  authorize,
}
use sevlamq.Broker.Groups.Joining.{join, member_joins}
use sevlamq.Broker.Groups.Assignment.{due, owns-rebalance, rebalance_exclusive, owner-rebalance}
use sevlamq.Broker.Groups.Fencing.{Advances}
use sevlamq.Broker.Groups.Evolution.{AllExclusive}
use sevlamq.Broker.Groups.Steps.{
  Steps, stay, then_step, joins, beats, commits, generation_rises, owner_stays_unique,
}
use sevlamq.Broker.Groups.Joined.{authorize-join}
use sevlamq.Broker.Groups.Coordinator.{JoinGroupResponse}
use sevlamq.Broker.Groups.Commit.{Committed, commit-Committed, commit_stale, commit_unique}
use sevlamq.Broker.Groups.Durable.{committed_offset-commit}
use sevlamq.Tests.Memory.{memory, memory-IsHost}

abbrev empty : GroupCoordinator memory
empty = record {
  offsets_dir = [];
  default_partition_count = 2;
  topic_partition_counts = [];
  session_timeout = 10;
  groups = [];
  disk = [];
}

abbrev g : Bytes
g = b'g' ∷ []

abbrev t : Bytes
t = b't' ∷ []

abbrev alice : Bytes
alice = b'a' ∷ []

abbrev bob : Bytes
bob = b'b' ∷ []

abbrev two_joined : GroupCoordinator memory
two_joined = (join ((join empty g t alice 0).1) g t bob 1).1

abbrev alice_in_two : GroupIdentity
alice_in_two = record { group = g; topic = t; member = alice; generation = 2 }

-- The group of two members after both have joined.
abbrev two_members : ConsumerGroup
two_members = record {
  generation = 2;
  members = (alice, 0) ∷ (bob, 1) ∷ [];
  assignments = (alice, 0 ∷ []) ∷ (bob, 1 ∷ []) ∷ [];
  committed_offsets = [];
}

two_joined_group : lookup (g, t) two_joined.groups ≡ some two_members
unfolding join member_joins expire_members retain_live insert_member rebalance assign_loop lookup
    insert bytes_beq validate_id commit active_group refresh authorize validate_member
    persist_offset offset_path temporary_path load_offsets load_loop parse_offset bytes_ltb
    heartbeat is_identifier_byte
two_joined_group = refl

abbrev committed_once : GroupCoordinator memory
committed_once = (commit two_joined alice_in_two 0 5 2).1

abbrev beaten : GroupCoordinator memory
beaten = (heartbeat committed_once g t bob 2 3).1

first_commit : (commit two_joined alice_in_two 0 5 2).0 ≡ ok tt
unfolding join member_joins expire_members retain_live insert_member rebalance assign_loop lookup
    insert bytes_beq validate_id commit active_group refresh authorize validate_member
    persist_offset offset_path temporary_path load_offsets load_loop parse_offset bytes_ltb
    heartbeat is_identifier_byte
first_commit = refl

second_commit : (commit beaten alice_in_two 0 6 4).0 ≡ ok tt
unfolding join member_joins expire_members retain_live insert_member rebalance assign_loop lookup
    insert bytes_beq validate_id commit active_group refresh authorize validate_member
    persist_offset offset_path temporary_path load_offsets load_loop parse_offset bytes_ltb
    heartbeat is_identifier_byte
second_commit = refl

empty-AllExclusive : AllExclusive empty.groups
unfolding lookup
empty-AllExclusive key group found a b q = ground (arith, found)

two_joined_run : Steps empty two_joined
two_joined_run = then_step (then_step (stay empty) (joins empty g t alice 0)) (joins _ g t bob 1)

two_joined-AllExclusive : AllExclusive two_joined.groups
two_joined-AllExclusive key group found a b q =
    owner_stays_unique empty two_joined key group a b q empty-AllExclusive two_joined_run found

commit_unique_example : alice ≡ alice
commit_unique_example =
    commit_unique two_joined beaten alice_in_two alice_in_two 0 5 6 2 4 two_joined-AllExclusive refl
      refl refl first_commit (then_step (stay committed_once) (beats committed_once g t bob 2 3))
      second_commit

abbrev alice_in_one : GroupIdentity
alice_in_one = record { group = g; topic = t; member = alice; generation = 1 }

commit_stale_example : (commit two_joined alice_in_one 0 5 2).0 ≢ ok tt
commit_stale_example =
    commit_stale two_joined two_joined alice_in_one 0 5 2 two_members two_joined_group (omega arith)
      (stay two_joined)

g_valid : validate_id g ≡ ok tt
unfolding validate_id is_identifier_byte
g_valid = refl

t_valid : validate_id t ≡ ok tt
unfolding validate_id is_identifier_byte
t_valid = refl

committed_offset-commit_example : committed_offset committed_once g t 0 ≡ ok (some 5)
committed_offset-commit_example =
    committed_offset-commit memory-IsHost two_joined alice_in_two 0 5 2 (omega arith) g_valid
      t_valid first_commit

commit-Committed_example : Committed committed_once alice_in_two 0 5
commit-Committed_example = commit-Committed two_joined alice_in_two 0 5 2 first_commit

generation_rises_example :
    (new : ConsumerGroup) × (lookup (g, t) beaten.groups ≡ some new) × Advances two_members new
generation_rises_example =
    generation_rises two_joined beaten (g, t) two_members
      (then_step (then_step (stay two_joined) (commits two_joined alice_in_two 0 5 2))
        (beats committed_once g t bob 2 3))
      two_joined_group

owner_stays_unique_example : bob ≡ bob
unfolding lookup bytes_beq
owner_stays_unique_example =
    owner_stays_unique empty two_joined (g, t) two_members bob bob 1 empty-AllExclusive
      two_joined_run two_joined_group refl refl

owns-rebalance_example :
    owns ((rebalance two_members 5).1) bob 3 ≡ (ltb 3 5 && due (alice ∷ bob ∷ []) bob 3)
owns-rebalance_example = owns-rebalance two_members 5 bob 3 (omega arith)

rebalance_exclusive_example : bob ≡ bob
unfolding rebalance assign_loop lookup insert bytes_beq
rebalance_exclusive_example = rebalance_exclusive two_members 5 bob bob 3 (omega arith) refl refl

owner-rebalance_example :
    (member : Bytes) × (owns ((rebalance two_members 5).1) member 4 ≡ true)
    × (contains_key member two_members.members ≡ true)
owner-rebalance_example = owner-rebalance two_members 5 4 (omega arith) (omega arith) (omega arith)

abbrev first_reply : JoinGroupResponse
first_reply = record { generation = 1; partitions = 0 ∷ 1 ∷ [] }

first_join : (join empty g t alice 0).0 ≡ ok first_reply
unfolding join member_joins expire_members retain_live insert_member rebalance assign_loop lookup
    insert bytes_beq validate_id load_offsets load_loop parse_offset offset_path bytes_ltb
    is_identifier_byte
first_join = refl

authorize-join_example :
    (state : ConsumerGroup) × (lookup (g, t) ((join empty g t alice 0).1.groups) ≡ some state)
    × (authorize state alice 1 1 ≡ ok tt)
authorize-join_example = authorize-join empty g t alice 0 1 first_reply first_join refl
