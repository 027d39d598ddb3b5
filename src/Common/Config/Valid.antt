-- ===== src/Common/Config/Valid.antt =====
-- The cluster that `Config::cluster_nodes` of crates/common/src/lib.rs lets through.
use mathlib.Core.List.{Permᴰ}
use mathlib.Core.Option.{some_inj}
use sevlamq.Prelude.{bytes_eq, nat_eq, pair_eq}
use sevlamq.Prelude.{
  subst, sym, ==_iff, All, all, Bool, Bool-cases, List, Option-cases, [], arith, false, inl, inr,
  length, some, true, ℕ, ◌==◌, ◌||◌, ◌<◌, ◌≤◌, ◌∷◌, ◌≡◌, ◌⊎◌,
}
use sevlamq.Common.Config.Sorting.{
  All-map, All-sort_by_id, Distinct, HasId, HasId-sort_by_id, Increasing, Increasing-sort_by_id,
  Perm-sort_by_id, length-Perm,
}
use sevlamq.Common.Config.{
  Bytes, ClusterNodeConfig, Config, check_nodes, cluster_nodes, contains, insert_endpoints,
  nodes_or_self, ok, ok_injective, ports, refuses_policy, sort_by_id,
}

-- A node with an id and three addresses that parse.
abbrev pub IsNode : (Bytes → ℕ → Bool) → ClusterNodeConfig → Type 0
IsNode parses n = (0 < n.id) × (all (parses n.host) (ports n) ≡ true)

-- The configured nodes in the order of their ids, the broker among them, with enough of them for the
-- replication factor.
pub record IsCluster (parses : Bytes → ℕ → Bool) (c : Config) (nodes : List ClusterNodeConfig)
    : Type 0 where
  pub given : List ClusterNodeConfig
  pub configured : nodes_or_self c c.cluster.nodes ≡ some given
  pub same : Permᴰ nodes given
  pub increasing : Increasing nodes
  pub valid : All (IsNode parses) nodes
  pub has_broker : HasId c.cluster.broker_id nodes
  pub factor : (0 < c.cluster.replication_factor) × (c.cluster.replication_factor ≤ length nodes)
  pub in_sync :
      (0 < c.cluster.min_in_sync_replicas)
      × (c.cluster.min_in_sync_replicas ≤ c.cluster.replication_factor)

-- What the loop over the nodes has found out where it ends.
record Checked (parses : Bytes → ℕ → Bool) (nodes : List ClusterNodeConfig) (ids found : List ℕ)
    : Type 0 where
  fresh : All (λ n. contains n.id ids ≡ false) nodes
  distinct : Distinct nodes
  nodes_valid : All (IsNode parses) nodes
  known : (k : ℕ) → contains k found ≡ true → (contains k ids ≡ true) ⊎ HasId k nodes

check_nodes-Checked :
    (parses : Bytes → ℕ → Bool) (nodes : List ClusterNodeConfig) (ids found : List ℕ)
    (endpoints : List (Bytes × ℕ))
    → check_nodes parses nodes ids endpoints ≡ some found
    → Checked parses nodes ids found
unfolding check_nodes contains
check_nodes-Checked parses [] ids found endpoints = λ e. record {
  fresh = tt;
  distinct = tt;
  nodes_valid = tt;
  known = λ k h. inl (subst (λ l. contains k l ≡ true) (sym (some_inj.0 e)) h);
}
check_nodes-Checked parses (n ∷ rest) ids found endpoints =
    elim (Bool-cases ((n.id == 0) || contains n.id ids)) [
      | inl refused ↦ rw (check_nodes, refused) (λ e. cc)
      | inr new ↦ elim (Option-cases (insert_endpoints n.host (ports n) endpoints)) [
        | inl taken ↦ rw (check_nodes, new, taken) (λ e. cc)
        | inr (seen, free) ↦ elim (Bool-cases (all (parses n.host) (ports n))) [
          | inr bad ↦ rw (check_nodes, new, free, bad) (λ e. cc)
          | inl good ↦
              rw (check_nodes, new, free, good)
                (λ e. accepted new good (check_nodes-Checked parses rest (n.id ∷ ids) found seen e))
        ]
      ]
    ]
  where
    accepted :
        ((n.id == 0) || contains n.id ids) ≡ false
        → all (parses n.host) (ports n) ≡ true
        → Checked parses rest (n.id ∷ ids) found
        → Checked parses (n ∷ rest) ids found
    accepted new good r = record {
      fresh = (ground (arith, new), All-map _ _ rest (λ m h. ground (arith, h)) r.fresh);
      distinct = (All-map _ _ rest (λ m h. ground (arith, h)) r.fresh, r.distinct);
      nodes_valid = ((ground (arith, new), good), r.nodes_valid);
      known = λ k h. known k (r.known k h);
    }
      where
        known :
            (k : ℕ)
            → (((n.id == k) || contains k ids) ≡ true) ⊎ HasId k rest
            → (contains k ids ≡ true) ⊎ HasId k (n ∷ rest)
        known k (inr has) = inr (inr has)
        known k (inl seen) = elim (Bool-cases (n.id == k)) [
          | inl same ↦ inr (inl ((==_iff n.id k).0 same))
          | inr other ↦ inl (ground (arith, other, seen))
        ]

-- Where `cluster_nodes` succeeds, it returns the configured nodes, or the broker alone where there are
-- none, in the strict order of their ids, each with an id above 0 and addresses that parse, the broker
-- among them; the replication factor is above 0 and not above their number, and the minimum of in-sync
-- replicas is above 0 and not above the factor.
pub cluster_nodes-IsCluster :
    (parses : Bytes → ℕ → Bool) (c : Config) (nodes : List ClusterNodeConfig)
    → cluster_nodes parses c ≡ ok nodes
    → IsCluster parses c nodes
unfolding cluster_nodes contains
cluster_nodes-IsCluster parses c nodes = elim (Option-cases (nodes_or_self c c.cluster.nodes)) [
  | inl alone ↦ rw (cluster_nodes, alone) (λ e. cc)
  | inr (given, is_given) ↦ elim (Option-cases (check_nodes parses given [] [])) [
    | inl refused ↦ rw (cluster_nodes, is_given, refused) (λ e. cc)
    | inr (ids, checked) ↦ elim (Bool-cases (contains c.cluster.broker_id ids)) [
      | inr missing ↦ rw (cluster_nodes, is_given, checked, missing) (λ e. cc)
      | inl there ↦ elim (Bool-cases (refuses_policy c.cluster (length given))) [
        | inl policy ↦ rw (cluster_nodes, is_given, checked, there, policy) (λ e. cc)
        | inr fits ↦
            rw (cluster_nodes, is_given, checked, there, fits)
              (λ e. subst (IsCluster parses c) (ok_injective e) (
                sorted given ids is_given (check_nodes-Checked parses given [] ids [] checked) there
                  fits))
      ]
    ]
  ]
]
  where
    sorted :
        (given : List ClusterNodeConfig) (ids : List ℕ)
        → nodes_or_self c c.cluster.nodes ≡ some given
        → Checked parses given [] ids
        → contains c.cluster.broker_id ids ≡ true
        → refuses_policy c.cluster (length given) ≡ false
        → IsCluster parses c (sort_by_id given)
    sorted given ids is_given r there fits = record {
      given = given;
      configured = is_given;
      same = Perm-sort_by_id given;
      increasing = Increasing-sort_by_id given r.distinct;
      valid = All-sort_by_id (IsNode parses) given r.nodes_valid;
      has_broker = HasId-sort_by_id _ given (found (r.known c.cluster.broker_id there));
      factor = ground (arith, fits, length-Perm (sort_by_id given) given (Perm-sort_by_id given));
      in_sync = ground (arith, fits);
    }
      where
        found :
            (contains c.cluster.broker_id [] ≡ true) ⊎ HasId c.cluster.broker_id given
            → HasId c.cluster.broker_id given
        found (inl h) = cc
        found (inr has) = has
