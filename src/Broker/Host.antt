-- ===== src/Broker/Host.antt =====
-- What the group coordinator takes from the standard library: files, and decimal numbers.
use sevlamq.Prelude.{All, ℕ, ◌^◌, ◌<◌, ◌≡◌, Bool, true, Option, some, List, [], ◌∷◌, ◌++◌}
use sevlamq.Protocol.Types.{Bytes}

-- A path is the list of its components.
abbrev pub FilePath : Type 0
FilePath = List Bytes

pub data Contents : Type 0 where
  contents : Bytes → Contents
  not_found failed : Contents

-- An operation says whether it succeeded, and leaves the disk that it leaves either way.
pub record Host : Type 1 where
  pub Disk : Type 0
  pub read_to_string : Disk → FilePath → Contents
  pub create_dir_all : FilePath → Disk → Bool × Disk
  -- `File::create`, the write and `sync_all`.
  pub write_file : FilePath → Bytes → Disk → Bool × Disk
  pub rename : FilePath → FilePath → Disk → Bool × Disk
  -- `File::open` on a directory and `sync_all`.
  pub sync_dir : FilePath → Disk → Bool × Disk
  -- `{n}` of a format string, and `parse` of a trimmed text as a `u64`.
  pub print : ℕ → Bytes
  pub parse_trimmed : Bytes → Option ℕ

abbrev pub IsAscii : Bytes → Type 0
IsAscii text = All (λ b. b < 128) text

-- What the operations promise where they succeed, on a disk of directories and regular files that no
-- other process changes. A text is read back where it is ASCII, which is UTF-8: `read_to_string`
-- refuses other bytes. A renamed file has the text that it had. To synchronise a directory changes no
-- file. Numbers are printed in ASCII.
pub record IsHost (host : Host) : Type 0 where
  pub read-write_file :
      (d : host.Disk) (p : FilePath) (text : Bytes)
      → IsAscii text
      → (host.write_file p text d).0 ≡ true
      → host.read_to_string (host.write_file p text d).1 p ≡ contents text
  pub read-rename :
      (d : host.Disk) (from to : FilePath) (text : Bytes)
      → host.read_to_string d from ≡ contents text
      → (host.rename from to d).0 ≡ true
      → host.read_to_string (host.rename from to d).1 to ≡ contents text
  pub read-sync_dir :
      (d : host.Disk) (dir p : FilePath) (text : Bytes)
      → host.read_to_string d p ≡ contents text
      → host.read_to_string (host.sync_dir dir d).1 p ≡ contents text
  pub print-IsAscii : (n : ℕ) → IsAscii (host.print n)
  pub parse-print : (n : ℕ) → n < 2 ^ 64 → host.parse_trimmed (host.print n ++ b'\n' ∷ []) ≡ some n
