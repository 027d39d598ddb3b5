-- ===== src/Broker/Groups/Group.antt =====
-- One consumer group of crates/broker/src/groups.rs: its members, their heartbeats, and the
-- distribution of the partitions. Time is an argument, one reading of the clock for each call.
use sevlamq.Prelude.{
  ◌≡◌, refl, ◌⊎◌, inl, inr, bytes_eq, Bool, List, Option, [], all, false, get_elem?, if◌then◌else◌,
  insert, is_empty, is_identifier_byte, leb, length, lookup, ltb, none, not, some, suc, true, zero,
  ℕ, ◌%◌, ◌&&◌, ◌++◌, ◌+◌, ◌-◌, ◌==◌, ◌^◌, ◌||◌, ◌∷◌, ◌≟◌,
}
use sevlamq.Protocol.Types.{Bytes}

pub data GroupError : Type 0 where
  invalid_id unknown_group unknown_member generation_overflow : GroupError
  invalid_offset_file io : GroupError
  stale_generation : ℕ → ℕ → GroupError
  partition_not_assigned : ℕ → GroupError

pub data Result {ℓ} (A : Type ℓ) : Type ℓ where
  ok : A → Result A
  err : GroupError → Result A

pub Result-cases {ℓ} :
    {A : Type ℓ} (r : Result A) → ((e : GroupError) × (r ≡ err e)) ⊎ ((a : A) × (r ≡ ok a))
Result-cases (err e) = inl (e, refl)
Result-cases (ok a) = inr (a, refl)

-- The members are a `BTreeMap`, in the order of their names, each with its last heartbeat.
pub record ConsumerGroup : Type 0 where
  pub generation : ℕ
  pub members : List (Bytes × ℕ)
  pub assignments : List (Bytes × List ℕ)
  pub committed_offsets : List (ℕ × ℕ)

abbrev pub new_group : List (ℕ × ℕ) → ConsumerGroup
new_group offsets = record {
  generation = 0;
  members = [];
  assignments = [];
  committed_offsets = offsets;
}

-- The order of `str`: by bytes.
unfoldable pub bytes_ltb : Bytes → Bytes → Bool
bytes_ltb [] [] = false
bytes_ltb [] (y ∷ ys) = true
bytes_ltb (x ∷ xs) [] = false
bytes_ltb (x ∷ xs) (y ∷ ys) = ltb x y || (x == y && bytes_ltb xs ys)

-- `BTreeMap::insert`
unfoldable pub insert_member : Bytes → ℕ → List (Bytes × ℕ) → List (Bytes × ℕ)
insert_member k v [] = (k, v) ∷ []
insert_member k v ((j, w) ∷ rest) =
    if j ≟ k
    then (k, v) ∷ rest
    else if bytes_ltb k j
    then (k, v) ∷ (j, w) ∷ rest
    else (j, w) ∷ insert_member k v rest

-- `BTreeMap::remove`
unfoldable pub remove_member : Bytes → List (Bytes × ℕ) → List (Bytes × ℕ)
remove_member k [] = []
remove_member k ((j, w) ∷ rest) = if j ≟ k then rest else (j, w) ∷ remove_member k rest

unfoldable pub retain_live : ℕ → ℕ → List (Bytes × ℕ) → List (Bytes × ℕ)
retain_live timeout now [] = []
retain_live timeout now ((k, last_seen) ∷ rest) =
    let live = retain_live timeout now rest in
    if leb (now - last_seen) timeout then (k, last_seen) ∷ live else live

-- Drops the members whose session has run out, and says whether there were any.
unfoldable pub expire_members : ConsumerGroup → ℕ → ℕ → ConsumerGroup × Bool
expire_members group timeout now =
    let live = retain_live timeout now group.members in
    (record group { members = live }, not (length group.members == length live))

abbrev pub keys {ℓ} : {V : Type ℓ} → List (Bytes × V) → List Bytes
keys [] = []
keys ((k, v) ∷ rest) = k ∷ keys rest

abbrev pub unwrap_or_empty : Option (List ℕ) → List ℕ
unwrap_or_empty none = []
unwrap_or_empty (some partitions) = partitions

-- `assignments.get(member).cloned().unwrap_or_default()`
abbrev pub assigned : List (Bytes × List ℕ) → Bytes → List ℕ
assigned assignments member = unwrap_or_empty (lookup member assignments)

-- `entry(members[index]).or_default().push(partition)`; the index is below the number of members.
abbrev pub push_partition : Option Bytes → ℕ → List (Bytes × List ℕ) → List (Bytes × List ℕ)
push_partition none partition assignments = assignments
push_partition (some member) partition assignments =
    insert member (assigned assignments member ++ partition ∷ []) assignments

-- `for partition in first..first + count`
unfoldable pub assign_loop : List Bytes → ℕ → ℕ → List (Bytes × List ℕ) → List (Bytes × List ℕ)
assign_loop names first zero assignments = assignments
assign_loop names first (suc count) assignments =
    assign_loop names (first + 1) count
      (push_partition (get_elem? names (first % length names)) first assignments)

abbrev pub distribute : List Bytes → ℕ → List (Bytes × List ℕ)
distribute [] count = []
distribute (name ∷ names) count = assign_loop (name ∷ names) 0 count []

-- A new generation, in which every partition has an owner if there are members.
unfoldable pub rebalance : ConsumerGroup → ℕ → Result (Unit {0}) × ConsumerGroup
rebalance group partition_count =
    if ltb (group.generation + 1) (2 ^ 64)
    then (
      ok tt,
      record group {
        generation = group.generation + 1;
        assignments = distribute (keys group.members) partition_count;
      },
    )
    else (err generation_overflow, group)

abbrev pub contains_key {ℓ} : {V : Type ℓ} → Bytes → List (Bytes × V) → Bool
contains_key k [] = false
contains_key k ((j, v) ∷ rest) = j ≟ k || contains_key k rest

unfoldable pub validate_member : ConsumerGroup → Bytes → ℕ → Result (Unit {0})
validate_member group member generation =
    if generation == group.generation
    then (if contains_key member group.members then ok tt else err unknown_member)
    else err (stale_generation group.generation generation)

abbrev pub contains : List ℕ → ℕ → Bool
contains [] partition = false
contains (p ∷ rest) partition = p == partition || contains rest partition

-- `assignments.get(member).is_some_and(|partitions| partitions.contains(&partition))`
abbrev pub owns : ConsumerGroup → Bytes → ℕ → Bool
owns group member partition = contains (assigned group.assignments member) partition

unfoldable pub validate_id : Bytes → Result (Unit {0})
validate_id value =
    if is_empty value || ltb 249 (length value) || not (all is_identifier_byte value)
    then err invalid_id
    else ok tt
