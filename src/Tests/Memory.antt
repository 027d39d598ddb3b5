-- ===== src/Tests/Memory.antt =====
-- A disk in memory, for the runs of crates/broker/src.
use sevlamq.Prelude.{
  ◌∙◌, Bool, List, [], ap, arith, bytes_beq_iff, false, if◌then◌else◌, refl, some, suc, true, zero,
  ℕ, ◌&&◌, ◌++◌, ◌==◌, ◌∷◌, ◌≟◌, ◌≡◌,
}
use sevlamq.Prelude.{bytes_beq_iff, nat_eq, bytes_eq, pair_eq, ◌≟◌}
use sevlamq.Protocol.Types.{Bytes}
use sevlamq.Broker.Host.{Host, IsAscii, IsHost, Contents, contents, not_found, failed, FilePath}

-- The paths of the files, compared component by component.
abbrev pub path_beq : FilePath → FilePath → Bool
path_beq [] [] = true
path_beq (a ∷ p) (b ∷ q) = a ≟ b && path_beq p q
path_beq _ _ = false

-- A disk is a list of files, the newest first.
abbrev pub find : List (FilePath × Bytes) → FilePath → Contents
find [] p = not_found
find ((q, text) ∷ rest) p = if path_beq q p then contents text else find rest p

-- Numbers are written in base one, which is enough for the promise.
abbrev pub ones : ℕ → Bytes
ones zero = []
ones (suc n) = b'1' ∷ ones n

abbrev pub count_ones : Bytes → ℕ
count_ones [] = 0
count_ones (b ∷ rest) = if b == b'1' then suc (count_ones rest) else count_ones rest

abbrev pub rename_file :
    FilePath → FilePath → List (FilePath × Bytes) → Contents → Bool × List (FilePath × Bytes)
rename_file from to disk (contents text) = (true, (to, text) ∷ disk)
rename_file from to disk not_found = (false, disk)
rename_file from to disk failed = (false, disk)

abbrev pub memory : Host
memory = record {
  Disk = List (FilePath × Bytes);
  read_to_string = find;
  create_dir_all = λ dir disk. (true, disk);
  write_file = λ path text disk. (true, (path, text) ∷ disk);
  rename = λ from to disk. rename_file from to disk (find disk from);
  sync_dir = λ dir disk. (true, disk);
  print = ones;
  parse_trimmed = λ text. some (count_ones text);
}

path_beq_self : (p : FilePath) → path_beq p p ≡ true
path_beq_self [] = refl
path_beq_self (a ∷ p) = ground (arith, bytes_beq_iff a a, path_beq_self p)

rename_file-find :
    (from to : FilePath) (disk : List (FilePath × Bytes)) (found : Contents)
    → (rename_file from to disk found).0 ≡ true
    → find ((rename_file from to disk found).1) to ≡ found
rename_file-find from to disk (contents text) h = rw (path_beq_self to)
rename_file-find from to disk not_found h = ground (arith, h)
rename_file-find from to disk failed h = ground (arith, h)

count_ones-ones : (n : ℕ) → count_ones (ones n ++ b'\n' ∷ []) ≡ n
count_ones-ones zero = refl
count_ones-ones (suc n) = ap suc (count_ones-ones n)

ones-IsAscii : (n : ℕ) → IsAscii (ones n)
ones-IsAscii zero = tt
ones-IsAscii (suc n) = (omega arith, ones-IsAscii n)

pub memory-IsHost : IsHost memory
memory-IsHost = record {
  read-write_file = λ d p text ascii h. rw (path_beq_self p);
  read-rename = λ d from to text e h. rename_file-find from to d (find d from) h ∙ e;
  read-sync_dir = λ d dir p text e. e;
  print-IsAscii = ones-IsAscii;
  parse-print = λ n h. ap some (count_ones-ones n);
}
