-- ===== src/Storage/Files.antt =====
-- The directory of a partition as crates/storage/src/lib.rs uses it: its files, each with its stem,
-- its extension and its bytes, and the calls of `std::fs`. A call fails where the file is missing, or
-- where it is there already.
use sevlamq.Prelude.{bytes_eq, pair_eq}
use sevlamq.Prelude.{
  Bool, List, Option, Option-cases, [], ap, false, if◌then◌else◌, inl, inr, insert, lookup,
  lookup-insert_miss, lookup-insert_self, none, refl, some, take, true, ℕ, ◌++◌, ◌∷◌, ◌≟◌, ◌≡◌,
}
use sevlamq.Protocol.Types.{Bytes}
use sevlamq.Storage.Types.{Result, StorageError, err, io, ok, ok_injective, panic}

abbrev pub FileName : Type 0
FileName = Bytes × Bytes

abbrev pub Files : Type 0
Files = List (FileName × Bytes)

-- Code that changes a state `S` and may fail. The change stays where it fails.
abbrev pub Action : Type 0 → Type 0 → Type 0
Action S A = S → Result A × S

module _ {S A B : Type 0} where
  abbrev pub next : Result A × S → (A → Action S B) → Result B × S
  next (ok a, s) f = f a s
  next (err e, s) f = (err e, s)
  next (panic, s) f = (panic, s)

  infixl 5 ◌>>=◌ ◌>>◌
  abbrev pub ◌>>=◌ : Action S A → (A → Action S B) → Action S B
  ◌>>=◌ m f s = next (m s) f

  abbrev pub ◌>>◌ : Action S A → Action S B → Action S B
  m >> n = m >>= λ _. n

module _ {S A : Type 0} where
  abbrev pub pure : A → Action S A
  pure a s = (ok a, s)

  -- A result that does not depend on the state.
  abbrev pub lift : Result A → Action S A
  lift r s = (r, s)

  -- A result that is read off the state.
  abbrev pub read_state : (S → Result A) → Action S A
  read_state f s = (f s, s)

-- `option.ok_or(e)?`
abbrev pub if_some {ℓ} : {A : Type ℓ} → StorageError → Option A → Result A
if_some e none = err e
if_some e (some a) = ok a

abbrev pub when : {S : Type 0} → Bool → Action S Unit → Action S Unit
when true m = m
when false m = pure tt

abbrev pub modify : {S : Type 0} → (S → S) → Action S Unit
modify f s = (ok tt, f s)

unfoldable pub erase : FileName → Files → Files
erase name [] = []
erase name ((other, bytes) ∷ files) =
    let rest = erase name files in if other ≟ name then rest else (other, bytes) ∷ rest

abbrev pub read_file : FileName → Files → Result Bytes
read_file name files = if_some io (lookup name files)

-- `create_new(true)`
abbrev pub create_new : FileName → Action Files Unit
create_new name files = elim (lookup name files) [
  | none ↦ (ok tt, insert name [] files)
  | some bytes ↦ (err io, files)
]

abbrev pub remove_file : FileName → Action Files Unit
remove_file name files = elim (lookup name files) [
  | none ↦ (err io, files)
  | some bytes ↦ (ok tt, erase name files)
]

-- `write_all` through a handle opened with `append(true)`. What is written to a file that was removed
-- is not in the directory.
abbrev pub append_file : FileName → Bytes → Files → Files
append_file name more files = elim (lookup name files) [
  | none ↦ files
  | some bytes ↦ insert name (bytes ++ more) files
]

-- `File::create`, with all that is written to it.
abbrev pub write_file : FileName → Bytes → Files → Files
write_file name bytes files = insert name bytes files

-- `set_len` to at most the length of the file.
abbrev pub set_len : FileName → ℕ → Action Files Unit
set_len name len files = elim (lookup name files) [
  | none ↦ (err io, files)
  | some bytes ↦ (ok tt, insert name (take len bytes) files)
]

-- Opening a handle fails where the file is missing.
abbrev pub open_file : FileName → Action Files Unit
open_file name files = elim (lookup name files) [
  | none ↦ (err io, files)
  | some bytes ↦ (ok tt, files)
]

-- What an action says that succeeds.
module _ {S A B : Type 0} where
  pub next-ok :
      (m : Result A × S) (f : A → Action S B) (b : B) (s' : S)
      → next m f ≡ (ok b, s')
      → (a : A) × (s : S) × (m ≡ (ok a, s)) × (f a s ≡ (ok b, s'))
  next-ok (ok a, s) f b s' h = (a, s, refl, h)
  next-ok (err e, s) f b s' h = cc
  next-ok (panic, s) f b s' h = cc

pub pair-ok :
    {S A : Type 0} (a a' : A) (s s' : S)
    → ◌≡◌ {A = Result A × S} (ok a, s) (ok a', s')
    → (a ≡ a') × (s ≡ s')
pair-ok a a' s s' h = (ok_injective a a' (ap (λ (r, t). r) h), ap (λ (r, t). t) h)

pub lookup-append_file_other :
    (name other : FileName) (more : Bytes) (files : Files)
    → (name ≟ other) ≡ false
    → lookup other (append_file name more files) ≡ lookup other files
lookup-append_file_other name other more files apart = elim (Option-cases (lookup name files)) [
  | inl e ↦ rw (append_file, e) refl
  | inr (bytes, e) ↦ rw (append_file, e) (lookup-insert_miss name other (bytes ++ more) files apart)
]

pub lookup-append_file_self :
    (name : FileName) (bytes more : Bytes) (files : Files)
    → lookup name files ≡ some bytes
    → lookup name (append_file name more files) ≡ some (bytes ++ more)
lookup-append_file_self name bytes more files e =
    rw (append_file, e) (lookup-insert_self name (bytes ++ more) files)

-- A result that leaves the state alone.
pub lift-ok :
    {S A B : Type 0} (r : Result A) (s : S) (f : A → Action S B) (b : B) (s' : S)
    → next (r, s) f ≡ (ok b, s')
    → (a : A) × (r ≡ ok a) × (f a s ≡ (ok b, s'))
lift-ok (ok a) s f b s' h = (a, refl, h)
lift-ok (err e) s f b s' h = cc
lift-ok panic s f b s' h = cc

pub create_new-fresh :
    (name : FileName) (files : Files)
    → lookup name files ≡ none
    → create_new name files ≡ (ok tt, insert name [] files)
create_new-fresh name files e = rw (create_new, e) refl

pub create_new-taken :
    (name : FileName) (bytes : Bytes) (files : Files)
    → lookup name files ≡ some bytes
    → create_new name files ≡ (err io, files)
create_new-taken name bytes files e = rw (create_new, e) refl

pub open_file-found :
    (name : FileName) (bytes : Bytes) (files : Files)
    → lookup name files ≡ some bytes
    → open_file name files ≡ (ok tt, files)
open_file-found name bytes files e = rw (open_file, e) refl
