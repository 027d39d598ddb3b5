-- ===== src/Protocol/Types.antt =====
-- The limits, the opcodes and the wire types of crates/protocol/src/lib.rs. A `String`, a `Bytes`
-- and a buffer are lists of bytes; a fixed-width integer is a number.
use sevlamq.Prelude.{ℕ, ◌*◌, Bool, List, Option}

abbrev pub Bytes : Type 0
Bytes = List ℕ

abbrev pub max_topic_name : ℕ
max_topic_name = 249

abbrev pub max_key_size : ℕ
max_key_size = 65535

abbrev pub max_message_size : ℕ
max_message_size = 1024 * 1024

abbrev pub max_frame_size : ℕ
max_frame_size = 4 * 1024 * 1024

abbrev pub max_batch_messages : ℕ
max_batch_messages = 1000

abbrev pub max_uncompressed_batch_size : ℕ
max_uncompressed_batch_size = 3 * 1024 * 1024

abbrev pub max_fetch_bytes : ℕ
max_fetch_bytes = 3 * 1024 * 1024

abbrev pub max_fetch_wait_ms : ℕ
max_fetch_wait_ms = 30000

abbrev pub max_cluster_nodes : ℕ
max_cluster_nodes = 1024

abbrev pub frame_header_size : ℕ
frame_header_size = 4

pub data AckMode : Type 0 where
  leader durable : AckMode

pub data Compression : Type 0 where
  uncompressed zstd : Compression

pub record ProducerIdentity : Type 0 where
  pub id : Bytes
  pub sequence : ℕ

pub record ProduceRequest : Type 0 where
  pub topic : Bytes
  pub key : Bytes
  pub payload : Bytes
  pub ack_mode : AckMode
  pub producer : Option ProducerIdentity
  pub partition : Option ℕ

pub record BatchRecord : Type 0 where
  pub key : Bytes
  pub payload : Bytes

pub record ProduceBatchRequest : Type 0 where
  pub topic : Bytes
  pub records : List BatchRecord
  pub ack_mode : AckMode
  pub compression : Compression
  pub partition : Option ℕ

pub record FetchRequest : Type 0 where
  pub topic : Bytes
  pub partition : ℕ
  pub offset : ℕ
  pub max_bytes : ℕ
  pub max_wait_ms : ℕ

pub record GroupMemberRequest : Type 0 where
  pub group : Bytes
  pub topic : Bytes
  pub member : Bytes

pub record GroupGenerationRequest : Type 0 where
  pub group : Bytes
  pub topic : Bytes
  pub member : Bytes
  pub generation : ℕ

pub record CommitOffsetRequest : Type 0 where
  pub group : Bytes
  pub topic : Bytes
  pub member : Bytes
  pub generation : ℕ
  pub partition : ℕ
  pub offset : ℕ

pub record FetchCommittedOffsetRequest : Type 0 where
  pub group : Bytes
  pub topic : Bytes
  pub partition : ℕ

pub record GroupFetchRequest : Type 0 where
  pub group : Bytes
  pub topic : Bytes
  pub member : Bytes
  pub generation : ℕ
  pub partition : ℕ
  pub offset : ℕ
  pub max_bytes : ℕ
  pub max_wait_ms : ℕ

pub record CreateTopicRequest : Type 0 where
  pub topic : Bytes
  pub partitions : ℕ

pub record PartitionLeadership : Type 0 where
  pub partition : ℕ
  pub leader_id : ℕ
  pub leader_epoch : ℕ
  pub high_watermark : ℕ

pub record PromoteLeaderRequest : Type 0 where
  pub topic : Bytes
  pub partition : ℕ
  pub leader_id : ℕ

pub record ApplyLeadershipRequest : Type 0 where
  pub topic : Bytes
  pub leadership : PartitionLeadership

pub record PartitionStatusRequest : Type 0 where
  pub topic : Bytes
  pub partition : ℕ

pub data Request : Type 0 where
  produce : ProduceRequest → Request
  produce_batch : ProduceBatchRequest → Request
  fetch : FetchRequest → Request
  join_group : GroupMemberRequest → Request
  heartbeat : GroupGenerationRequest → Request
  leave_group : GroupGenerationRequest → Request
  commit_offset : CommitOffsetRequest → Request
  fetch_committed_offset : FetchCommittedOffsetRequest → Request
  group_fetch : GroupFetchRequest → Request
  create_topic : CreateTopicRequest → Request
  list_topics : Request
  describe_topic : Bytes → Request
  cluster_metadata : Request
  promote_leader : PromoteLeaderRequest → Request
  apply_leadership : ApplyLeadershipRequest → Request
  partition_status : PartitionStatusRequest → Request

pub record ReplicateRecord : Type 0 where
  pub topic : Bytes
  pub partition : ℕ
  pub offset : ℕ
  pub timestamp_ms : ℕ
  pub key : Option Bytes
  pub value : Bytes
  pub durable : Bool
  pub leader_id : ℕ
  pub leader_epoch : ℕ

pub record ReplicateAck : Type 0 where
  pub partition : ℕ
  pub next_offset : ℕ

pub record ProduceAck : Type 0 where
  pub partition : ℕ
  pub offset : ℕ

pub record FetchedRecord : Type 0 where
  pub offset : ℕ
  pub timestamp_ms : ℕ
  pub key : Option Bytes
  pub value : Bytes

pub record ClusterNode : Type 0 where
  pub id : ℕ
  pub host : Bytes
  pub port : ℕ
  pub admin_port : ℕ
  pub replication_port : ℕ

pub record ClusterMetadata : Type 0 where
  pub responding_broker_id : ℕ
  pub nodes : List ClusterNode

pub record TopicMetadata : Type 0 where
  pub topic : Bytes
  pub partitions : ℕ
  pub leaders : List ℕ
  pub leader_epochs : List ℕ
  pub high_watermarks : List ℕ
