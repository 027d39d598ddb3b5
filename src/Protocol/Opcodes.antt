-- ===== src/Protocol/Opcodes.antt =====
-- The opcodes of crates/protocol/src/lib.rs, the first byte of a frame.
use sevlamq.Prelude.{ℕ}

abbrev pub produce : ℕ
produce = 0x01

abbrev pub produce_ack : ℕ
produce_ack = 0x02

abbrev pub produce_batch : ℕ
produce_batch = 0x03

abbrev pub produce_batch_ack : ℕ
produce_batch_ack = 0x04

abbrev pub fetch : ℕ
fetch = 0x10

abbrev pub fetch_response : ℕ
fetch_response = 0x11

abbrev pub join_group : ℕ
join_group = 0x20

abbrev pub join_group_response : ℕ
join_group_response = 0x21

abbrev pub heartbeat : ℕ
heartbeat = 0x22

abbrev pub leave_group : ℕ
leave_group = 0x23

abbrev pub commit_offset : ℕ
commit_offset = 0x24

abbrev pub fetch_committed_offset : ℕ
fetch_committed_offset = 0x25

abbrev pub group_ack : ℕ
group_ack = 0x26

abbrev pub committed_offset_response : ℕ
committed_offset_response = 0x27

abbrev pub error_response : ℕ
error_response = 0x7f

abbrev pub group_fetch : ℕ
group_fetch = 0x28

abbrev pub create_topic : ℕ
create_topic = 0x30

abbrev pub list_topics : ℕ
list_topics = 0x31

abbrev pub describe_topic : ℕ
describe_topic = 0x32

abbrev pub topics_response : ℕ
topics_response = 0x33

abbrev pub cluster_metadata : ℕ
cluster_metadata = 0x40

abbrev pub cluster_metadata_response : ℕ
cluster_metadata_response = 0x41

abbrev pub promote_leader : ℕ
promote_leader = 0x42

abbrev pub apply_leadership : ℕ
apply_leadership = 0x43

abbrev pub leadership_changed : ℕ
leadership_changed = 0x44

abbrev pub partition_status : ℕ
partition_status = 0x45

abbrev pub partition_status_response : ℕ
partition_status_response = 0x46

abbrev pub replicate_record : ℕ
replicate_record = 0x50

abbrev pub replicate_ack : ℕ
replicate_ack = 0x51
