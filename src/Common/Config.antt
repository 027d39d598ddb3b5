-- ===== src/Common/Config.antt =====
-- `Config::cluster_nodes` of crates/common/src/lib.rs: the static membership of the cluster.
pub mod Sorting
pub mod Valid
use sevlamq.Prelude.{bytes_eq, nat_eq, pair_eq}
use sevlamq.Prelude.{
  ap, ◌≡◌, all, Bool, Eq, List, Option, [], false, if◌then◌else◌, length, ltb, none, not, some,
  true, ℕ, ◌&&◌, ◌+◌, ◌==◌, ◌^◌, ◌||◌, ◌≟◌, ◌∷◌,
}

abbrev pub Bytes : Type 0
Bytes = List ℕ

pub record ClusterNodeConfig : Type 0 where
  pub id : ℕ
  pub host : Bytes
  pub port : ℕ
  pub admin_port : ℕ
  pub replication_port : ℕ

pub record ClusterConfig : Type 0 where
  pub broker_id : ℕ
  pub replication_factor : ℕ
  pub min_in_sync_replicas : ℕ
  pub nodes : List ClusterNodeConfig

pub record AdminConfig : Type 0 where
  pub host : Bytes
  pub port : ℕ

pub record LoggingConfig : Type 0 where
  pub json : Bool

pub record BrokerConfig : Type 0 where
  pub host : Bytes
  pub port : ℕ
  pub data_dir : Bytes
  pub max_segment_bytes : ℕ
  pub index_interval_bytes : ℕ
  pub default_partition_count : ℕ
  pub group_session_timeout_ms : ℕ
  pub retention_bytes : ℕ
  pub retention_ms : ℕ
  pub storage_queue_capacity : ℕ
  pub storage_enqueue_timeout_ms : ℕ
  pub auto_create_topics : Bool

pub record Config : Type 0 where
  pub broker : BrokerConfig
  pub admin : AdminConfig
  pub logging : LoggingConfig
  pub cluster : ClusterConfig

pub data ConfigError : Type 0 where
  invalid_cluster : ConfigError
  local_broker_missing : ConfigError
  invalid_replication_policy : ConfigError

pub data Result : Type 0 where
  ok : List ClusterNodeConfig → Result
  err : ConfigError → Result

nodes_of : List ClusterNodeConfig → Result → List ClusterNodeConfig
nodes_of others (ok nodes) = nodes
nodes_of others (err e) = others

pub ok_injective : {a b : List ClusterNodeConfig} → ok a ≡ ok b → a ≡ b
unfolding nodes_of
ok_injective {a} e = ap (nodes_of a) e

module _ {ℓ} {A : Type ℓ} ⦃e : Eq A⦄ where
  unfoldable pub contains : A → List A → Bool
  contains a [] = false
  contains a (b ∷ rest) = (b ≟ a) || contains a rest

-- A port is a `u16`.
unfoldable pub checked_add : ℕ → ℕ → Option ℕ
checked_add a b = if ltb (a + b) (2 ^ 16) then some (a + b) else none

abbrev pub self_node : Config → ℕ → ClusterNodeConfig
self_node c replication_port = record {
  id = c.cluster.broker_id;
  host = c.broker.host;
  port = c.broker.port;
  admin_port = c.admin.port;
  replication_port = replication_port;
}

-- The nodes of the configuration, or the broker itself where it names none.
unfoldable pub nodes_or_self : Config → List ClusterNodeConfig → Option (List ClusterNodeConfig)
nodes_or_self c [] = elim (checked_add c.broker.port 100) [
  | none ↦ none
  | some replication_port ↦ some (self_node c replication_port ∷ [])
]
nodes_or_self c (node ∷ rest) = some (node ∷ rest)

abbrev pub ports : ClusterNodeConfig → List ℕ
ports node = node.port ∷ node.admin_port ∷ node.replication_port ∷ []

-- The three `endpoints.insert` of a node, none where an endpoint was there.
unfoldable pub insert_endpoints : Bytes → List ℕ → List (Bytes × ℕ) → Option (List (Bytes × ℕ))
insert_endpoints host [] endpoints = some endpoints
insert_endpoints host (port ∷ rest) endpoints =
    if contains (host, port) endpoints
    then none
    else insert_endpoints host rest ((host, port) ∷ endpoints)

-- The loop over the nodes, with the ids that it has seen at its end, none where a node is refused.
-- Whether a host and a port make a socket address, which the standard library parses, is an argument.
unfoldable pub check_nodes :
    (Bytes → ℕ → Bool) → List ClusterNodeConfig → List ℕ → List (Bytes × ℕ) → Option (List ℕ)
check_nodes parses [] ids endpoints = some ids
check_nodes parses (node ∷ rest) ids endpoints = elim ((node.id == 0) || contains node.id ids) [
  | true ↦ none
  | false ↦ elim (insert_endpoints node.host (ports node) endpoints) [
    | none ↦ none
    | some seen ↦ elim (all (parses node.host) (ports node)) [
      | true ↦ check_nodes parses rest (node.id ∷ ids) seen
      | false ↦ none
    ]
  ]
]

abbrev pub refuses_policy : ClusterConfig → ℕ → Bool
refuses_policy cluster count =
    (cluster.replication_factor == 0)
    || (ltb count cluster.replication_factor
        || ((cluster.min_in_sync_replicas == 0)
            || ltb cluster.replication_factor cluster.min_in_sync_replicas))

unfoldable pub insert_by_id : ClusterNodeConfig → List ClusterNodeConfig → List ClusterNodeConfig
insert_by_id node [] = node ∷ []
insert_by_id node (other ∷ rest) =
    if ltb other.id node.id then other ∷ insert_by_id node rest else node ∷ other ∷ rest

-- `sort_unstable_by_key`, where no two ids are equal.
unfoldable pub sort_by_id : List ClusterNodeConfig → List ClusterNodeConfig
sort_by_id [] = []
sort_by_id (node ∷ rest) = insert_by_id node (sort_by_id rest)

unfoldable pub cluster_nodes : (Bytes → ℕ → Bool) → Config → Result
cluster_nodes parses c = elim (nodes_or_self c c.cluster.nodes) [
  | none ↦ err invalid_cluster
  | some nodes ↦ elim (check_nodes parses nodes [] []) [
    | none ↦ err invalid_cluster
    | some ids ↦
        if not (contains c.cluster.broker_id ids)
        then err local_broker_missing
        else if refuses_policy c.cluster (length nodes)
        then err invalid_replication_policy
        else ok (sort_by_id nodes)
  ]
]
