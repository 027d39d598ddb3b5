-- ===== src/Lib.antt =====
-- SevlaMQ: a model of the broker and its theorems.
--
-- The program is a message broker. A client sends requests over TCP in frames; the codec of
-- crates/protocol/src/lib.rs turns them into values of `Request` and back. The broker of
-- crates/broker/src serves them: the group coordinator of groups.rs shares the partitions of a
-- topic among the members of a consumer group and keeps their offsets in files; the registry of
-- leadership.rs keeps the leader and the epoch of each partition. The records of a partition lie in a
-- log of segment files, which crates/storage/src/lib.rs appends to, reads and recovers.
--
-- Prelude and its children hold what the parts share: Boolean tests, lists over the native numbers,
-- equality of keys as an instance (Keys) and hash maps as association lists (Map).
--
-- Protocol models crates/protocol/src/lib.rs. Types and Opcodes are its constants and wire types.
-- Reader and Writer are the two ways of using a buffer: a reader takes bytes from the front of one
-- and ends in a value, a `ProtocolError` or a panic, which is what the accessors of the `bytes`
-- crate do when too few bytes are left; a writer appends to one. Frame is `take_frame` and the
-- framing of `decode_request`; Validate has the validators and the constructors `new` of the
-- requests; Request.Encode, EncodeGroup, Decode and DecodeGroup have one function for each
-- encoder and decoder, under the source's names. Layout describes a frame as its fields one behind
-- the other; Request.RoundTrip and Safety hold the lemmas on the codec. Integers are natural
-- numbers, and a field of n bytes is written modulo 256^n. The UTF-8 test, zstd and the
-- allocator are parameters (Externals), and `IsLossless` is what zstd documents. The allocator stands
-- where `decode_topics_response` reserves memory for a number that the frame names without a bound; a
-- reservation that fails ends the program, as a panic does. Response.NoPanic is about both.
--
-- Protocol.Response is the codec of the responses and Protocol.Replication the one of the frames
-- between brokers, built from the same readers and writers: Encode, Decode, Safety and RoundTrip,
-- where Response.RoundTrip.Shape names the fields of each response.
--
-- Broker.Groups models crates/broker/src/groups.rs. Group has the state of one group with
-- `expire_members`, `rebalance` and the checks; Offsets has the offset files; Coordinator and Joining
-- have one function for each method of `GroupCoordinator`, which gives the result and the state that
-- the method leaves, errors included. The clock is an argument: one reading for each call. The file
-- system and the decimal notation of numbers are a parameter (Host), with the promises `IsHost`:
-- they are about regular files that no other process changes, and about ASCII texts.
-- Steps is the relation of all the operations in any order. The `u64` generation overflows to an
-- error as in the source. The lock around the coordinator makes its methods steps that do not
-- overlap, and its poisoning is left out.
--
-- Broker.Leadership models crates/broker/src/leadership.rs: Registry has one function for each method
-- of `LeadershipRegistry`, over the same Host; Runs is the relation of the methods in any order. A
-- method that fails to write the file keeps its change of the map, as in the source.
-- Broker.Placement has the functions of crates/broker/src/lib.rs that choose replicas, a new leader
-- and a partition; the checksum of crc32fast is an argument. Broker.Replicas describes the replicas by
-- their places on the ring of the nodes.
--
-- Storage models crates/storage/src/lib.rs for one partition. Types has the records, the limits and
-- the errors; Reader and Record are the format of a record (`encode_record`, `decode_record`); Files is
-- the directory of the partition as a list of files, with the calls of `std::fs` that the log makes: a
-- call fails where a file is missing or is there already, and a handle is the name of its file. Segment
-- has `recover_segment`, `discover_segments` and the index; Log has `PartitionLog` with `append` and
-- `rotate`; Read has `read`; Upkeep has `open`, `append_replica`, `truncate_to` and `apply_retention`.
-- An operation gives a result and the state that it leaves, errors included. Segment.Layout says what
-- the bytes of a segment are, and `Holds` of Log.Layout says which list of records a log stands for.
-- The checksum of crc32fast and the UTF-8 test are arguments (Checks); the age of a file is one of
-- `apply_retention`. The two loops over a buffer run on fuel, one round for each byte and one more:
-- each round takes a record off the buffer.
--
-- Every other loop is structural recursion, on the number of partitions, on a count read from a frame or
-- on a list.
--
-- Common.Config models `Config::cluster_nodes` of crates/common/src/lib.rs. A hash set is the list of
-- what was inserted, and the parser of addresses is an argument. The sort by id is an insertion sort;
-- the ids that reach it are distinct, so that every sort gives the same list.
--
-- Not modelled: `discover_partitions` of crates/storage and failures of a disk in it, the storage
-- worker and replication of crates/broker/src/lib.rs, the client, the metrics and the command line
-- tools; in crates/common the reading of the configuration file; in groups.rs the scan of the directory
-- at the start and the snapshot; and in leadership.rs the reading of the file at the start.
pub mod Prelude
pub mod Protocol
pub mod Storage
pub mod Broker
pub mod Common
pub mod Tests
