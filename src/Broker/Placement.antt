-- ===== src/Broker/Placement.antt =====
-- crates/broker/src/lib.rs: where the replicas of a partition stand, which of them takes over, and
-- which partition a record goes to.
use sevlamq.Prelude.{
  Bool, List, Option, [], arith, false, get_elem?, if◌then◌else◌, insert, leb, length, lookup,
  lookup-insert_self, ltb, none, not, refl, some, suc, zero, ℕ, ◌%◌, ◌&&◌, ◌+◌, ◌<◌, ◌==◌, ◌||◌,
  ◌∷◌, ◌≡◌,
}
use sevlamq.Prelude.{bytes_eq}
use sevlamq.Protocol.Types.{Bytes, ClusterMetadata, ClusterNode}

-- `nodes[(leader_index + offset) % nodes.len()]` for `offset in first..first + count`. A cluster has
-- nodes, so the index is in range.
abbrev pub push_node : Option ClusterNode → List ClusterNode → List ClusterNode
push_node none nodes = nodes
push_node (some node) nodes = node ∷ nodes

unfoldable pub replicas : List ClusterNode → ℕ → ℕ → ℕ → List ClusterNode
replicas nodes leader_index first zero = []
replicas nodes leader_index first (suc count) =
    push_node (get_elem? nodes ((leader_index + first) % length nodes))
      (replicas nodes leader_index (first + 1) count)

abbrev pub without_id : ℕ → List ClusterNode → List ClusterNode
without_id id [] = []
without_id id (node ∷ nodes) =
    if node.id == id then without_id id nodes else node ∷ without_id id nodes

abbrev pub has_id : List ClusterNode → ℕ → Bool
has_id [] id = false
has_id (node ∷ nodes) id = node.id == id || has_id nodes id

unfoldable pub replica_followers : ClusterMetadata → ℕ → ℕ → List ClusterNode
replica_followers cluster partition replication_factor =
    without_id cluster.responding_broker_id
      (replicas cluster.nodes (partition % length cluster.nodes) 0 replication_factor)

unfoldable pub is_partition_replica : ClusterMetadata → ℕ → ℕ → ℕ → Bool
is_partition_replica cluster broker_id partition replication_factor =
    has_id (replicas cluster.nodes (partition % length cluster.nodes) 0 replication_factor)
      broker_id

-- `max_by_key` on `(offset, Reverse(id))`: the later of two equal elements.
abbrev pub outranks : ℕ × ℕ → ℕ × ℕ → Bool
outranks (id, offset) (id', offset') = ltb offset' offset || ((offset == offset') && ltb id id')

abbrev pub max_by_key : Option (ℕ × ℕ) → List (ℕ × ℕ) → Option (ℕ × ℕ)
max_by_key best [] = best
max_by_key none (entry ∷ rest) = max_by_key (some entry) rest
max_by_key (some best) (entry ∷ rest) =
    max_by_key (some (if outranks best entry then best else entry)) rest

abbrev pub at_least : ℕ → List (ℕ × ℕ) → List (ℕ × ℕ)
at_least high_watermark [] = []
at_least high_watermark ((id, offset) ∷ rest) =
    let found = at_least high_watermark rest in
    if leb high_watermark offset then (id, offset) ∷ found else found

abbrev pub id_of : Option (ℕ × ℕ) → Option ℕ
id_of none = none
id_of (some (id, offset)) = some id

unfoldable pub choose_automatic_candidate : List (ℕ × ℕ) → ℕ → ℕ → Option ℕ
choose_automatic_candidate offsets min_in_sync_replicas high_watermark =
    if ltb (length offsets) min_in_sync_replicas
    then none
    else id_of (max_by_key none (at_least high_watermark offsets))

abbrev pub or_zero : Option ℕ → ℕ
or_zero none = 0
or_zero (some n) = n

-- The partition, and the counters of the topics without a key. `hash` is `crc32fast::hash`.
unfoldable pub select_partition :
    (Bytes → ℕ) → ℕ → List (Bytes × ℕ) → Bytes → Option Bytes → ℕ × List (Bytes × ℕ)
select_partition hash partition_count round_robin topic (some key) =
    (hash key % partition_count, round_robin)
select_partition hash partition_count round_robin topic none =
    let partition = or_zero (lookup topic round_robin) in
    (partition, insert topic ((partition + 1) % partition_count) round_robin)

pub has_id-without_id :
    (nodes : List ClusterNode) (id other : ℕ)
    → has_id (without_id id nodes) other ≡ has_id nodes other && not (other == id)
has_id-without_id [] id other = refl
has_id-without_id (node ∷ nodes) id other = ground (arith, has_id-without_id nodes id other)

-- If a topic has partitions and its counter is below their number, then the partition that a
-- record goes to is one of the topic's, with or without a key, and the counter stays below their
-- number.
pub select_partition-bound :
    (hash : Bytes → ℕ) (partition_count : ℕ) (round_robin : List (Bytes × ℕ)) (topic : Bytes)
    (key : Option Bytes)
    → 0 < partition_count
    → or_zero (lookup topic round_robin) < partition_count
    → ((select_partition hash partition_count round_robin topic key).0 < partition_count)
      × (or_zero (lookup topic ((select_partition hash partition_count round_robin topic key).1))
          < partition_count)
unfolding select_partition
select_partition-bound hash partition_count round_robin topic (some key) some_partition below =
    (omega arith, below)
select_partition-bound hash partition_count round_robin topic none some_partition below = (
  below,
  rw
      (lookup-insert_self topic ((or_zero (lookup topic round_robin) + 1) % partition_count)
        round_robin)
      (omega arith),
)
