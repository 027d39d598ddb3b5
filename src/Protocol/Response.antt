-- ===== src/Protocol/Response.antt =====
-- The responses of crates/protocol/src/lib.rs.
pub mod Encode
pub mod Decode
pub mod Safety
pub mod NoPanic
pub mod RoundTrip
use sevlamq.Prelude.{List, Option, ℕ}
use sevlamq.Protocol.Types.{
  Bytes, ProduceAck, FetchedRecord, TopicMetadata, ClusterMetadata, PartitionLeadership,
}

pub record JoinGroupResponse : Type 0 where
  pub generation : ℕ
  pub partitions : List ℕ

pub record FetchResponse : Type 0 where
  pub records : List FetchedRecord

pub data Response : Type 0 where
  produce_ack : ProduceAck → Response
  produce_batch_ack : List ProduceAck → Response
  fetch : FetchResponse → Response
  join_group : JoinGroupResponse → Response
  group_ack : Response
  committed_offset : Option ℕ → Response
  topics : List TopicMetadata → Response
  cluster_metadata : ClusterMetadata → Response
  leadership_changed : PartitionLeadership → Response
  partition_status : ℕ → Response
  error : Bytes → Response
