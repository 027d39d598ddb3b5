-- ===== src/Tests/Membership.antt =====
-- The membership of crates/common/src/lib.rs at concrete configurations.
use sevlamq.Prelude.{bytes_eq, nat_eq, pair_eq}
use sevlamq.Prelude.{[], ℕ, ◌+◌, bytes_beq, false, refl, true, ◌∷◌, ◌≡◌}
use sevlamq.Common.Config.{
  ClusterConfig, ClusterNodeConfig, Config, check_nodes, checked_add, cluster_nodes, contains, err,
  insert_by_id, insert_endpoints, invalid_cluster, invalid_replication_policy, local_broker_missing,
  nodes_or_self, ok, sort_by_id,
}
use sevlamq.Common.Config.Valid.{IsCluster, cluster_nodes-IsCluster}

abbrev node : ℕ → ℕ → ClusterNodeConfig
node id port = record {
  id = id;
  host = b'h' ∷ [];
  port = port;
  admin_port = port + 1;
  replication_port = port + 2;
}

abbrev configuration : ClusterConfig → Config
configuration cluster = record {
  broker = record {
    host = b'h' ∷ [];
    port = 7400;
    data_dir = b'd' ∷ [];
    max_segment_bytes = 1024;
    index_interval_bytes = 64;
    default_partition_count = 3;
    group_session_timeout_ms = 10000;
    retention_bytes = 0;
    retention_ms = 0;
    storage_queue_capacity = 16;
    storage_enqueue_timeout_ms = 100;
    auto_create_topics = false;
  };
  admin = record { host = b'h' ∷ []; port = 7401 };
  logging = record { json = false };
  cluster = cluster;
}

abbrev two_nodes : Config
two_nodes = configuration (record {
  broker_id = 2;
  replication_factor = 2;
  min_in_sync_replicas = 1;
  nodes = node 2 20 ∷ node 1 10 ∷ [];
})

two_nodes_sorted : cluster_nodes (λ host port. true) two_nodes ≡ ok (node 1 10 ∷ node 2 20 ∷ [])
unfolding cluster_nodes nodes_or_self check_nodes contains insert_endpoints insert_by_id sort_by_id
    bytes_beq
two_nodes_sorted = refl

cluster_nodes-IsCluster_example :
    IsCluster (λ host port. true) two_nodes (node 1 10 ∷ node 2 20 ∷ [])
cluster_nodes-IsCluster_example =
    cluster_nodes-IsCluster (λ host port. true) two_nodes (node 1 10 ∷ node 2 20 ∷ [])
      two_nodes_sorted

-- The broker of the test `validates_static_cluster_membership` is not a node.
missing_broker :
    cluster_nodes
      (λ host port. true)
      (configuration (record {
        broker_id = 2;
        replication_factor = 1;
        min_in_sync_replicas = 1;
        nodes = node 1 7400 ∷ [];
      }))
    ≡ err local_broker_missing
unfolding cluster_nodes nodes_or_self check_nodes contains insert_endpoints bytes_beq
missing_broker = refl

-- One broker cannot keep two replicas.
too_many_replicas :
    cluster_nodes
      (λ host port. true)
      (configuration
        (record { broker_id = 1; replication_factor = 2; min_in_sync_replicas = 1; nodes = [] }))
    ≡ err invalid_replication_policy
unfolding cluster_nodes nodes_or_self checked_add check_nodes contains insert_endpoints bytes_beq
too_many_replicas = refl

-- Two nodes with one address.
same_address :
    cluster_nodes
      (λ host port. true)
      (configuration (record {
        broker_id = 1;
        replication_factor = 1;
        min_in_sync_replicas = 1;
        nodes = node 1 10 ∷ node 2 12 ∷ [];
      }))
    ≡ err invalid_cluster
unfolding cluster_nodes nodes_or_self check_nodes contains insert_endpoints bytes_beq
same_address = refl
