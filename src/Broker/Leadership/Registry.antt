-- ===== src/Broker/Leadership/Registry.antt =====
-- The leadership registry of crates/broker/src/leadership.rs: its entries, one function for each
-- operation, and the file that they are written to.
use sevlamq.Prelude.{
  Bool, List, Option, [], false, get_elem?, if◌then◌else◌, insert, length, lookup, ltb, none, not,
  some, suc, true, zero, ℕ, ◌%◌, ◌&&◌, ◌++◌, ◌+◌, ◌-◌, ◌==◌, ◌^◌, ◌||◌, ◌∷◌, ◌≟◌,
}
use sevlamq.Prelude.{nat_eq, bytes_eq, pair_eq, ◌≟◌}
use sevlamq.Protocol.Types.{Bytes, ClusterMetadata, ClusterNode, PartitionLeadership}
use sevlamq.Broker.Host.{FilePath, Host}
use sevlamq.Broker.Groups.Group.{bytes_ltb}

pub data LeadershipError : Type 0 where
  io stale_epoch : LeadershipError
  missing_partition unknown_broker : ℕ → LeadershipError

pub data Result {ℓ} (A : Type ℓ) : Type ℓ where
  ok : A → Result A
  err : LeadershipError → Result A

abbrev pub Entries : Type 0
Entries = List ((Bytes × ℕ) × PartitionLeadership)

-- The directory stands for the path of `leadership.meta` in it.
pub record LeadershipRegistry (host : Host) : Type 0 where
  pub directory : FilePath
  pub cluster : ClusterMetadata
  pub entries : Entries
  pub disk : host.Disk

-- `cluster.nodes[partition % cluster.nodes.len()].id`; a cluster has at least one node.
unfoldable pub deterministic_leader : ClusterMetadata → ℕ → ℕ
deterministic_leader cluster partition =
    elim (get_elem? cluster.nodes (partition % length cluster.nodes)) [
      | none ↦ 0
      | some node ↦ node.id
    ]

-- The order of the keys, by topic and then by partition.
abbrev pub key_ltb : Bytes × ℕ → Bytes × ℕ → Bool
key_ltb (a, p) (b, q) = bytes_ltb a b || (a ≟ b && ltb p q)

abbrev pub insert_sorted : (Bytes × ℕ) × PartitionLeadership → Entries → Entries
insert_sorted (k, l) [] = (k, l) ∷ []
insert_sorted (k, l) ((j, m) ∷ rest) =
    if key_ltb k j then (k, l) ∷ (j, m) ∷ rest else (j, m) ∷ insert_sorted (k, l) rest

abbrev pub sort : Entries → Entries
sort [] = []
sort (entry ∷ rest) = insert_sorted entry (sort rest)

abbrev pub is_node : List ClusterNode → ℕ → Bool
is_node [] id = false
is_node (node ∷ nodes) id = node.id == id || is_node nodes id

-- An update at or below the current epoch is refused unless it repeats the leader of the epoch and
-- does not lower the high watermark.
unfoldable pub is_stale : PartitionLeadership → PartitionLeadership → Bool
is_stale leadership current =
    ltb leadership.leader_epoch current.leader_epoch
    || ((leadership.leader_epoch == current.leader_epoch)
        && (not (leadership.leader_id == current.leader_id)
            || ltb leadership.high_watermark current.high_watermark))

abbrev pub same_leadership : PartitionLeadership → PartitionLeadership → Bool
same_leadership a b =
    ((a.partition == b.partition) && (a.leader_id == b.leader_id))
    && ((a.leader_epoch == b.leader_epoch) && (a.high_watermark == b.high_watermark))

abbrev pub initial_leadership : ClusterMetadata → ℕ → PartitionLeadership
initial_leadership cluster first = record {
  partition = first;
  leader_id = deterministic_leader cluster first;
  leader_epoch = 0;
  high_watermark = 0;
}

-- `for partition in first..first + count`: the entries that are missing, and whether there were any.
unfoldable pub ensure_loop : ClusterMetadata → Bytes → ℕ → ℕ → Entries → Entries × Bool
ensure_loop cluster topic first zero entries = (entries, false)
ensure_loop cluster topic first (suc count) entries = elim (lookup (topic, first) entries) [
  | some present ↦ ensure_loop cluster topic (first + 1) count entries
  | none ↦ (
    (ensure_loop cluster topic (first + 1) count
        (insert (topic, first) (initial_leadership cluster first) entries)).0,
    true,
  )
]

-- One line for each entry, its fields with tabs between them.
abbrev pub lines : (ℕ → Bytes) → Entries → Bytes
lines print [] = []
lines print (((topic, partition), l) ∷ rest) =
    topic
    ++ (b'\t' ∷ print l.partition
        ++ (b'\t' ∷ print l.leader_id
            ++ (b'\t' ∷ print l.leader_epoch
                ++ (b'\t' ∷ print l.high_watermark ++ (b'\n' ∷ lines print rest)))))

-- `leadership.meta`, and `with_extension("meta.tmp")` of it.
abbrev pub stem : Bytes
stem =
    b'l' ∷ b'e' ∷ b'a' ∷ b'd' ∷ b'e' ∷ b'r' ∷ b's' ∷ b'h' ∷ b'i' ∷ b'p' ∷ b'.' ∷ b'm' ∷ b'e' ∷ b't'
    ∷ b'a' ∷ []

abbrev pub meta_path : FilePath → FilePath
meta_path directory = directory ++ stem ∷ []

abbrev pub temporary_path : FilePath → FilePath
temporary_path directory = directory ++ (stem ++ (b'.' ∷ b't' ∷ b'm' ∷ b'p' ∷ [])) ∷ []

-- `collect` over the partitions: the entries in order, or the first that is missing.
abbrev pub collect_next :
    Result PartitionLeadership
    → Result (List PartitionLeadership)
    → Result (List PartitionLeadership)
collect_next (err e) rest = err e
collect_next (ok l) (err e) = err e
collect_next (ok l) (ok ls) = ok (l ∷ ls)

module _ (host : Host) where
  open host use {Disk, write_file, rename, print}

  abbrev pub renamed : Bool × Disk → Result (Unit {0}) × Disk
  renamed (true, disk) = (ok tt, disk)
  renamed (false, disk) = (err io, disk)

  abbrev pub written_meta : FilePath → Bool × Disk → Result (Unit {0}) × Disk
  written_meta directory (true, disk) =
      renamed (rename (temporary_path directory) (meta_path directory) disk)
  written_meta directory (false, disk) = (err io, disk)

  unfoldable pub persist_entries : FilePath → Entries → Disk → Result (Unit {0}) × Disk
  persist_entries directory entries disk =
      written_meta directory
        (write_file (temporary_path directory) (lines print (sort entries)) disk)

module _ {host : Host} where
  open host use {Disk}

  -- Writes the entries that stand in the map; they stay there if the write fails.
  abbrev pub persisted :
      Entries → LeadershipRegistry host → Result (Unit {0}) × LeadershipRegistry host
  persisted entries s =
      let done = persist_entries host s.directory entries s.disk in
      (done.0, record s { entries = entries; disk = done.1 })

  unfoldable pub ensure_topic :
      LeadershipRegistry host → Bytes → ℕ → Result (Unit {0}) × LeadershipRegistry host
  ensure_topic s topic partitions =
      let done = ensure_loop s.cluster topic 0 partitions s.entries in
      if done.1 then persisted (done.0) s else (ok tt, record s { entries = done.0 })

  unfoldable pub partition : LeadershipRegistry host → Bytes → ℕ → Result PartitionLeadership
  partition s topic number = elim (lookup (topic, number) s.entries) [
    | none ↦ err (missing_partition number)
    | some leadership ↦ ok leadership
  ]

  unfoldable pub collect_loop :
      LeadershipRegistry host → Bytes → ℕ → ℕ → Result (List PartitionLeadership)
  collect_loop s name first zero = ok []
  collect_loop s name first (suc count) =
      collect_next (partition s name first) (collect_loop s name (first + 1) count)

  abbrev pub topic_over :
      Bytes
      → ℕ
      → Result (Unit {0}) × LeadershipRegistry host
      → Result (List PartitionLeadership) × LeadershipRegistry host
  topic_over name partitions (err e, s) = (err e, s)
  topic_over name partitions (ok _, s) = (collect_loop s name 0 partitions, s)

  unfoldable pub topic :
      LeadershipRegistry host
      → Bytes
      → ℕ
      → Result (List PartitionLeadership) × LeadershipRegistry host
  topic s name partitions = topic_over name partitions (ensure_topic s name partitions)

  abbrev pub apply_over :
      LeadershipRegistry host
      → Bytes
      → PartitionLeadership
      → Option PartitionLeadership
      → Result (Unit {0}) × LeadershipRegistry host
  apply_over s topic leadership none =
      persisted (insert (topic, leadership.partition) leadership s.entries) s
  apply_over s topic leadership (some current) =
      if is_stale leadership current
      then (err stale_epoch, s)
      else if same_leadership leadership current
      then (ok tt, s)
      else persisted (insert (topic, leadership.partition) leadership s.entries) s

  unfoldable pub apply :
      LeadershipRegistry host
      → Bytes
      → PartitionLeadership
      → Result (Unit {0}) × LeadershipRegistry host
  apply s topic leadership =
      if is_node s.cluster.nodes leadership.leader_id
      then apply_over s topic leadership (lookup (topic, leadership.partition) s.entries)
      else (err (unknown_broker leadership.leader_id), s)

  -- The high watermark of an entry read from a file without that field is the largest `u64`.
  abbrev pub migrate_over :
      LeadershipRegistry host
      → Bytes
      → ℕ
      → ℕ
      → Option PartitionLeadership
      → Result (Unit {0}) × LeadershipRegistry host
  migrate_over s topic number high_watermark none = (err (missing_partition number), s)
  migrate_over s topic number high_watermark (some entry) =
      if entry.high_watermark == 2 ^ 64 - 1
      then persisted
          (insert (topic, number) (record entry { high_watermark = high_watermark }) s.entries) s
      else (ok tt, s)

  unfoldable pub migrate_high_watermark :
      LeadershipRegistry host → Bytes → ℕ → ℕ → Result (Unit {0}) × LeadershipRegistry host
  migrate_high_watermark s topic number high_watermark =
      migrate_over s topic number high_watermark (lookup (topic, number) s.entries)
