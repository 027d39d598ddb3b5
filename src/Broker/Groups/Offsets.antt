-- ===== src/Broker/Groups/Offsets.antt =====
-- The offset files of crates/broker/src/groups.rs.
use sevlamq.Prelude.{
  nat_eq, Bool, List, Option, [], false, insert, none, some, suc, true, zero, ℕ, ◌++◌, ◌+◌, ◌∷◌,
}
use sevlamq.Protocol.Types.{Bytes}
use sevlamq.Broker.Host.{Contents, FilePath, Host, contents, failed, not_found}
use sevlamq.Broker.Groups.Group.{Result, err, invalid_offset_file, io, ok}

module _ (host : Host) where
  open host use {
    Disk, read_to_string, create_dir_all, write_file, rename, sync_dir, print, parse_trimmed,
  }

  -- `offset_path`: the last component is `{partition}.offset`.
  unfoldable pub offset_path : FilePath → Bytes → Bytes → ℕ → FilePath
  offset_path root group topic partition =
      root ++ (group ∷ topic ∷ (print partition ++ extension) ∷ [])
    where
      extension : Bytes
      extension = b'.' ∷ b'o' ∷ b'f' ∷ b'f' ∷ b's' ∷ b'e' ∷ b't' ∷ []

  -- `with_extension("offset.tmp")` of that path.
  unfoldable pub temporary_path : FilePath → Bytes → Bytes → ℕ → FilePath
  temporary_path root group topic partition =
      root ++ (group ∷ topic ∷ (print partition ++ extension) ∷ [])
    where
      extension : Bytes
      extension = b'.' ∷ b'o' ∷ b'f' ∷ b'f' ∷ b's' ∷ b'e' ∷ b't' ∷ b'.' ∷ b't' ∷ b'm' ∷ b'p' ∷ []

  -- The next step of a chain of disk operations, each of which ends it where it fails.
  abbrev pub then_disk : Bool × Disk → (Disk → Result (Unit {0}) × Disk) → Result (Unit {0}) × Disk
  then_disk (true, disk) next = next disk
  then_disk (false, disk) next = (err io, disk)

  unfoldable pub persist_offset : FilePath → Bytes → Bytes → ℕ → ℕ → Disk → Result (Unit {0}) × Disk
  unfolding offset_path temporary_path
  persist_offset root group topic partition offset disk =
      let directory = root ++ (group ∷ topic ∷ []) in
      let path = offset_path root group topic partition in
      let temporary = temporary_path root group topic partition in
      then_disk (create_dir_all directory disk) λ disk.
        then_disk (write_file temporary (print offset ++ b'\n' ∷ []) disk) λ disk.
          then_disk (rename temporary path disk)
            λ disk. then_disk (sync_dir directory disk) λ disk. (ok tt, disk)

  -- What a read of an offset file says.
  unfoldable pub parse_offset : Contents → Result (Option ℕ)
  parse_offset (contents text) = elim (parse_trimmed text) [
    | none ↦ err invalid_offset_file
    | some offset ↦ ok (some offset)
  ]
  parse_offset not_found = ok none
  parse_offset failed = err io

  abbrev insert_found : ℕ → Option ℕ → List (ℕ × ℕ) → List (ℕ × ℕ)
  insert_found partition none offsets = offsets
  insert_found partition (some offset) offsets = insert partition offset offsets

  -- `for partition in first..first + count`
  unfoldable pub load_loop :
      FilePath → Bytes → Bytes → Disk → ℕ → ℕ → List (ℕ × ℕ) → Result (List (ℕ × ℕ))
  unfolding parse_offset offset_path
  load_loop root group topic disk first zero offsets = ok offsets
  load_loop root group topic disk first (suc count) offsets =
      elim (parse_offset (read_to_string disk (offset_path root group topic first))) [
        | err e ↦ err e
        | ok found ↦
            load_loop root group topic disk (first + 1) count (insert_found first found offsets)
      ]

  unfoldable pub load_offsets : FilePath → Bytes → Bytes → ℕ → Disk → Result (List (ℕ × ℕ))
  unfolding load_loop
  load_offsets root group topic partition_count disk =
      load_loop root group topic disk 0 partition_count []
