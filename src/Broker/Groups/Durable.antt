-- ===== src/Broker/Groups/Durable.antt =====
-- What the disk holds after a commit of crates/broker/src/groups.rs, under the promises of the host.
use sevlamq.Prelude.{arith, Bool, [], false, refl, some, true, ℕ, ◌++◌, ◌<◌, ◌^◌, ◌∷◌, ◌≡◌}
use sevlamq.Prelude.{nat_eq, bytes_eq, pair_eq}
use sevlamq.Protocol.Types.{Bytes}
use sevlamq.Broker.Host.{FilePath, Host, IsAscii, IsHost, contents}
use sevlamq.Broker.Groups.Group.{ConsumerGroup, Result, err, io, ok, validate_id}
use sevlamq.Broker.Groups.Offsets.{
  offset_path, parse_offset, persist_offset, temporary_path, then_disk,
}
use sevlamq.Broker.Groups.Coordinator.{
  GroupCoordinator, GroupIdentity, active_group, authorize, commit, commit_active, commit_checked,
  committed_offset, persisted,
}
use sevlamq.Broker.Groups.Commit.{err_not_ok}

IsAscii-line : (text : Bytes) → IsAscii text → IsAscii (text ++ b'\n' ∷ [])
IsAscii-line [] h = (omega arith, tt)
IsAscii-line (b ∷ text) (h, hs) = (h, IsAscii-line text hs)

module _ {host : Host} (laws : IsHost host) where
  open host use {Disk, read_to_string, create_dir_all, write_file, rename, sync_dir, print}

  then_disk-inv :
      (Holds : Disk → Type 0) (done : Bool × Disk) (next : Disk → Result (Unit {0}) × Disk)
      → (then_disk host done next).0 ≡ ok tt
      → (done.0 ≡ true → (next (done.1)).0 ≡ ok tt → Holds ((next (done.1)).1))
      → Holds ((then_disk host done next).1)
  then_disk-inv Holds (true, disk) next success holds = holds refl success
  then_disk-inv Holds (false, disk) next success holds = elim (err_not_ok io tt success) [ ]

  -- The file of the partition holds the offset after a write that succeeds.
  pub persist_offset-read :
      (root : FilePath) (group topic : Bytes) (partition offset : ℕ) (disk : Disk)
      → (persist_offset host root group topic partition offset disk).0 ≡ ok tt
      → read_to_string
          ((persist_offset host root group topic partition offset disk).1)
          (offset_path host root group topic partition)
        ≡ contents (print offset ++ b'\n' ∷ [])
  unfolding persist_offset
  persist_offset-read root group topic partition offset disk success =
      let directory = root ++ (group ∷ topic ∷ []) in
      let path = offset_path host root group topic partition in
      let temporary = temporary_path host root group topic partition in
      let text = print offset ++ b'\n' ∷ [] in
      let made = create_dir_all directory disk in
      let written = write_file temporary text (made.1) in
      let renamed = rename temporary path (written.1) in
      let synced = sync_dir directory (renamed.1) in
      then_disk-inv Holds made _ success λ _ success.
        then_disk-inv Holds written _ success λ is_written success.
          then_disk-inv Holds renamed _ success λ is_renamed success.
            then_disk-inv Holds synced _ success λ _ success.
              laws.read-sync_dir (renamed.1) directory path text (
                laws.read-rename (written.1) temporary path text
                  (laws.read-write_file (made.1) temporary text
                    (IsAscii-line (print offset) (laws.print-IsAscii offset)) is_written)
                  is_renamed)
    where
      Holds : Disk → Type 0
      Holds disk =
          read_to_string disk (offset_path host root group topic partition)
          ≡ contents (print offset ++ b'\n' ∷ [])

  persisted-disk :
      (identity : GroupIdentity) (partition offset : ℕ) (state : ConsumerGroup)
      (s : GroupCoordinator host) (done : Result (Unit {0}) × Disk)
      → (persisted identity partition offset state s done).0 ≡ ok tt
      → (done.0 ≡ ok tt)
        × ((persisted identity partition offset state s done).1.disk ≡ done.1)
        × ((persisted identity partition offset state s done).1.offsets_dir ≡ s.offsets_dir)
  persisted-disk identity partition offset state s (err e, disk) success =
      elim (err_not_ok e tt success) [ ]
  persisted-disk identity partition offset state s (ok _, disk) success = (refl, refl, refl)

  -- The offset that a coordinator reads for a partition.
  abbrev pub Reads : GroupCoordinator host → Bytes → Bytes → ℕ → ℕ → Type 0
  Reads s group topic partition offset =
      read_to_string s.disk (offset_path host s.offsets_dir group topic partition)
      ≡ contents (print offset ++ b'\n' ∷ [])

  commit_checked-Reads :
      (identity : GroupIdentity) (partition offset : ℕ) (state : ConsumerGroup)
      (s : GroupCoordinator host) (check : Result (Unit {0}))
      → (commit_checked identity partition offset state s check).0 ≡ ok tt
      → Reads
          ((commit_checked identity partition offset state s check).1)
          identity.group
          identity.topic
          partition
          offset
  commit_checked-Reads identity partition offset state s (err e) success =
      elim (err_not_ok e tt success) [ ]
  commit_checked-Reads identity partition offset state s (ok _) success =
      let done =
        persist_offset host s.offsets_dir identity.group identity.topic partition offset s.disk in
      let (wrote, same_disk, same_dir) =
        persisted-disk identity partition offset state s done success in
      rw (same_disk, same_dir)
        (persist_offset-read s.offsets_dir identity.group identity.topic partition offset s.disk
          wrote)

  commit_active-Reads :
      (identity : GroupIdentity) (partition offset : ℕ)
      (active : Result ConsumerGroup × GroupCoordinator host)
      → (commit_active identity partition offset active).0 ≡ ok tt
      → Reads
          ((commit_active identity partition offset active).1)
          identity.group
          identity.topic
          partition
          offset
  commit_active-Reads identity partition offset (err e, s) success =
      elim (err_not_ok e tt success) [ ]
  commit_active-Reads identity partition offset (ok state, s) success =
      commit_checked-Reads identity partition offset state s
        (authorize state identity.member identity.generation partition) success

  pub commit-Reads :
      (s : GroupCoordinator host) (identity : GroupIdentity) (partition offset now : ℕ)
      → (commit s identity partition offset now).0 ≡ ok tt
      → Reads
          ((commit s identity partition offset now).1)
          identity.group
          identity.topic
          partition
          offset
  unfolding commit
  commit-Reads s identity partition offset now success =
      commit_active-Reads identity partition offset
        (active_group s identity.group identity.topic now) success

  -- After a commit that succeeds, `committed_offset` returns the offset, for valid names, an
  -- offset in the range of `u64`, and a disk of directories and regular files that no other process
  -- changes (the promises of `IsHost`).
  pub committed_offset-commit :
      (s : GroupCoordinator host) (identity : GroupIdentity) (partition offset now : ℕ)
      → offset < 2 ^ 64
      → validate_id identity.group ≡ ok tt
      → validate_id identity.topic ≡ ok tt
      → (commit s identity partition offset now).0 ≡ ok tt
      → committed_offset
          ((commit s identity partition offset now).1)
          identity.group
          identity.topic
          partition
        ≡ ok (some offset)
  unfolding committed_offset parse_offset
  committed_offset-commit s identity partition offset now below group_ok topic_ok success = rw (
    committed_offset,
    group_ok,
    topic_ok,
    commit-Reads s identity partition offset now success,
    parse_offset,
    laws.parse-print offset below,
  )
