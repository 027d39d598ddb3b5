-- ===== src/Broker/Replicas.antt =====
-- Where the replicas of a partition stand among the nodes of the cluster, in crates/broker/src/lib.rs.
use native.Mathlib.Nat.{mod-add-mod}
use sevlamq.Prelude.{
  ==_iff, Bool-cases, List, Option-cases, ap, arith, get_elem?, inl, inr, length, refl, some, subst,
  suc, sym, true, zero, ℕ, ◌%◌, ◌+◌, ◌<◌, ◌==◌, ◌↔◌, ◌∙◌, ◌≡◌, ◌≢◌, ◌≤◌,
}
use sevlamq.Protocol.Types.{ClusterMetadata, ClusterNode}
use sevlamq.Broker.Placement.{
  has_id, has_id-without_id, is_partition_replica, replica_followers, replicas, without_id,
}

-- The node so many places after the node of the partition's number, on the ring of the nodes, has the
-- id.
abbrev StandsAt : List ClusterNode → ℕ → ℕ → ℕ → Type 0
StandsAt nodes place offset id =
    (node : ClusterNode) × (get_elem? nodes ((place + offset) % length nodes) ≡ some node)
    × (node.id ≡ id)

-- One of the nodes that follow each other on the ring, as many as the replication factor, from the one
-- of the partition's number on.
abbrev pub IsReplica : ClusterMetadata → ℕ → ℕ → ℕ → Type 0
IsReplica cluster partition replication_factor id =
    (offset : ℕ) × (offset < replication_factor) × StandsAt cluster.nodes partition offset id

abbrev InRange : List ClusterNode → ℕ → ℕ → ℕ → ℕ → Type 0
InRange nodes place first count id =
    (offset : ℕ) × (first ≤ offset) × (offset < first + count) × StandsAt nodes place offset id

replicas-InRange :
    (nodes : List ClusterNode) (place first count id : ℕ)
    → has_id (replicas nodes place first count) id ≡ true
    → InRange nodes place first count id
unfolding replicas
replicas-InRange nodes place first zero id = λ e. cc
replicas-InRange nodes place first (suc count) id =
    elim (Option-cases (get_elem? nodes ((place + first) % length nodes))) [
      | inl beyond ↦ rw beyond (λ e. later (replicas-InRange nodes place (first + 1) count id e))
      | inr (node, at) ↦ elim (Bool-cases (node.id == id)) [
        | inl same ↦
            rw (at, same)
              λ e. (first, omega arith, omega arith, (node, at, (==_iff node.id id).0 same))
        | inr other ↦
            rw (at, other) (λ e. later (replicas-InRange nodes place (first + 1) count id e))
      ]
    ]
  where
    later : InRange nodes place (first + 1) count id → InRange nodes place first (suc count) id
    later (offset, low, high, stands) = (offset, omega arith, omega arith, stands)

has_id-first :
    (nodes : List ClusterNode) (place first count id : ℕ)
    → StandsAt nodes place first id
    → has_id (replicas nodes place first (suc count)) id ≡ true
unfolding replicas
has_id-first nodes place first count id (node, at, same) = rw (at, (==_iff node.id id).1 same) refl

has_id-later :
    (nodes : List ClusterNode) (place first count id : ℕ)
    → has_id (replicas nodes place (first + 1) count) id ≡ true
    → has_id (replicas nodes place first (suc count)) id ≡ true
unfolding replicas
has_id-later nodes place first count id h =
    elim (Option-cases (get_elem? nodes ((place + first) % length nodes))) [
      | inl beyond ↦ rw beyond h
      | inr (node, at) ↦ rw at (ground (arith, h))
    ]

InRange-replicas :
    (nodes : List ClusterNode) (place first count id : ℕ)
    → InRange nodes place first count id
    → has_id (replicas nodes place first count) id ≡ true
InRange-replicas nodes place first zero id (offset, low, high, stands) = absurd (omega arith)
InRange-replicas nodes place first (suc count) id (offset, low, high, stands) =
    elim (Bool-cases (first == offset)) [
      | inl same ↦
          has_id-first nodes place first count id
            (subst (λ o. StandsAt nodes place o id) (sym ((==_iff first offset).0 same)) stands)
      | inr other ↦ has_id-later nodes place first count id (
          InRange-replicas nodes place (first + 1) count id
            (offset, ground (arith, other), omega arith, stands))
    ]

-- The place of the partition's number comes to the same as its remainder.
StandsAt-mod :
    (nodes : List ClusterNode) (partition offset id : ℕ)
    → StandsAt nodes (partition % length nodes) offset id ≡ StandsAt nodes partition offset id
StandsAt-mod nodes partition offset id =
    ap (λ i. (node : ClusterNode) × (get_elem? nodes i ≡ some node) × (node.id ≡ id))
      (mod-add-mod partition (length nodes) offset)

in_ring :
    (cluster : ClusterMetadata) (partition replication_factor id : ℕ)
    → (has_id (replicas cluster.nodes (partition % length cluster.nodes) 0 replication_factor) id
        ≡ true)
      ↔ IsReplica cluster partition replication_factor id
in_ring cluster partition replication_factor id = (there, back)
  where
    there :
        has_id (replicas cluster.nodes (partition % length cluster.nodes) 0 replication_factor) id
          ≡ true
        → IsReplica cluster partition replication_factor id
    there e =
        let (offset, low, high, stands) =
          replicas-InRange cluster.nodes (partition % length cluster.nodes) 0 replication_factor id
            e in
        (
          offset,
          omega arith,
          subst (λ t. t) (StandsAt-mod cluster.nodes partition offset id) stands,
        )

    back :
        IsReplica cluster partition replication_factor id
        → has_id (replicas cluster.nodes (partition % length cluster.nodes) 0 replication_factor) id
          ≡ true
    back (offset, below, stands) =
        InRange-replicas cluster.nodes (partition % length cluster.nodes) 0 replication_factor id (
          offset,
          omega arith,
          omega arith,
          subst (λ t. t) (sym (StandsAt-mod cluster.nodes partition offset id)) stands,
        )

-- A broker is a replica of a partition exactly if its node stands on the ring of the nodes among the
-- ones that follow from the place of the partition's number on, as many as the replication factor. The
-- followers that a broker sends a record to are exactly these other than itself.
pub replica_followers-IsReplica :
    (cluster : ClusterMetadata) (partition replication_factor id : ℕ)
    → ((is_partition_replica cluster id partition replication_factor ≡ true)
        ↔ IsReplica cluster partition replication_factor id)
      × ((has_id (replica_followers cluster partition replication_factor) id ≡ true) ↔ (
          IsReplica cluster partition replication_factor id × (id ≢ cluster.responding_broker_id)))
unfolding is_partition_replica replica_followers
replica_followers-IsReplica cluster partition replication_factor id =
    (in_ring cluster partition replication_factor id, (there, back))
  where
    followers : List ClusterNode
    followers = replicas cluster.nodes (partition % length cluster.nodes) 0 replication_factor

    there :
        has_id (without_id cluster.responding_broker_id followers) id ≡ true
        → IsReplica cluster partition replication_factor id × (id ≢ cluster.responding_broker_id)
    there e =
        let both = sym (has_id-without_id followers cluster.responding_broker_id id) ∙ e in
        (
          (in_ring cluster partition replication_factor id).0 (ground (arith, both)),
          ground (arith, both),
        )

    back :
        IsReplica cluster partition replication_factor id × (id ≢ cluster.responding_broker_id)
        → has_id (without_id cluster.responding_broker_id followers) id ≡ true
    back (replica, other) =
        has_id-without_id followers cluster.responding_broker_id id
        ∙ ground (arith, (in_ring cluster partition replication_factor id).1 replica, other)
