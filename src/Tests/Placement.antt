-- ===== src/Tests/Placement.antt =====
-- The placement of replicas of crates/broker/src/lib.rs with three brokers.
use sevlamq.Prelude.{
  ◌↔◌, ◌≢◌, true, List, [], arith, length, lookup, none, refl, some, ℕ, ◌<◌, ◌∷◌, ◌≡◌, ◌≤◌,
}
use sevlamq.Prelude.{bytes_eq}
use sevlamq.Protocol.Types.{ClusterMetadata, ClusterNode}
use sevlamq.Broker.Placement.{
  choose_automatic_candidate, has_id, is_partition_replica, or_zero, replica_followers,
  select_partition, select_partition-bound,
}
use sevlamq.Broker.Replicas.{IsReplica, replica_followers-IsReplica}
use sevlamq.Broker.Candidate.{IsBest, choose_automatic_candidate-IsBest}

abbrev broker : ℕ → ClusterNode
broker id = record { id = id; host = []; port = 1; admin_port = 1; replication_port = 1 }

abbrev cluster : ClusterMetadata
cluster = record { responding_broker_id = 2; nodes = broker 1 ∷ broker 2 ∷ broker 3 ∷ [] }

replica_followers-IsReplica_example :
    ((is_partition_replica cluster 3 1 2 ≡ true) ↔ IsReplica cluster 1 2 3)
    × ((has_id (replica_followers cluster 1 2) 3 ≡ true)
        ↔ (IsReplica cluster 1 2 3 × (3 ≢ cluster.responding_broker_id)))
replica_followers-IsReplica_example = replica_followers-IsReplica cluster 1 2 3

abbrev answers : List (ℕ × ℕ)
answers = (3, 7) ∷ (1, 9) ∷ (2, 9) ∷ []

chosen : choose_automatic_candidate answers 2 8 ≡ some 1
unfolding choose_automatic_candidate
chosen = refl

choose_automatic_candidate-IsBest_example : IsBest answers 8 1 × (2 ≤ length answers)
choose_automatic_candidate-IsBest_example = choose_automatic_candidate-IsBest answers 2 8 1 chosen

select_partition-bound_example :
    ((select_partition length 3 [] (b't' ∷ []) none).0 < 3)
    × (or_zero (lookup (b't' ∷ []) ((select_partition length 3 [] (b't' ∷ []) none).1)) < 3)
unfolding lookup
select_partition-bound_example =
    select_partition-bound length 3 [] (b't' ∷ []) none (omega arith) (omega arith)
