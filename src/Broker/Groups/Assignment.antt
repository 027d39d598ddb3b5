-- ===== src/Broker/Groups/Assignment.antt =====
-- How crates/broker/src/groups.rs distributes the partitions of a topic over the members of a group.
use sevlamq.Prelude.{
  ==_iff, Bool, Bool-cases, List, Option, [], ap, arith, bytes_beq_iff, false, get_elem?, inl, inr,
  leb, length, lookup-insert, lookup-nil, ltb, lt→ltb, none, refl, some, subst, suc, sym, true,
  zero, ℕ, ◌%◌, ◌&&◌, ◌++◌, ◌+◌, ◌<◌, ◌==◌, ◌^◌, ◌||◌, ◌∙◌, ◌∷◌, ◌≟◌, ◌≡◌,
}
use sevlamq.Prelude.{bytes_eq, bytes_beq_iff, ◌≟◌}
use sevlamq.Protocol.Types.{Bytes}
use sevlamq.Broker.Groups.Group.{
  ConsumerGroup, assign_loop, assigned, contains, contains_key, distribute, err,
  generation_overflow, keys, ok, owns, push_partition, rebalance,
}

abbrev pub is_member : Option Bytes → Bytes → Bool
is_member none member = false
is_member (some name) member = name ≟ member

-- The partition falls to the member in the round over the names.
abbrev pub due : List Bytes → Bytes → ℕ → Bool
due names member partition = is_member (get_elem? names (partition % length names)) member

contains-append_one :
    (xs : List ℕ) (p q : ℕ) → contains (xs ++ p ∷ []) q ≡ contains xs q || (p == q)
contains-append_one [] p q = ground arith
contains-append_one (x ∷ xs) p q = ground (arith, contains-append_one xs p q)

contains-push_partition :
    (owner : Option Bytes) (p : ℕ) (assignments : List (Bytes × List ℕ)) (member : Bytes) (q : ℕ)
    → contains (assigned (push_partition owner p assignments) member) q
      ≡ contains (assigned assignments member) q || (is_member owner member && (p == q))
contains-push_partition none p assignments member q = ground arith
contains-push_partition (some name) p assignments member q = ground (
  arith,
  bytes_beq_iff name member,
  contains-append_one (assigned assignments name) p q,
  lookup-insert name member (assigned assignments name ++ p ∷ []) assignments,
)

-- A range that starts one later, and its first element.
range_suc :
    (holds : ℕ → Bool) (before : Bool) (first count q : ℕ)
    → (before || (holds first && (first == q)))
        || ((leb (first + 1) q && ltb q (first + 1 + count)) && holds q)
      ≡ before || ((leb first q && ltb q (first + suc count)) && holds q)
range_suc holds before first count q = elim (Bool-cases (first == q)) [
  | inl same ↦
      (let first≡q = (==_iff first q).0 same in
        subst
          (λ n.
            (before || (holds n && (n == q)))
              || ((leb (n + 1) q && ltb q (n + 1 + count)) && holds q)
            ≡ before || ((leb n q && ltb q (n + suc count)) && holds q))
          (sym first≡q) (ground arith))
  | inr differ ↦ ground arith
]

contains-assign_loop :
    (names : List Bytes) (first count : ℕ) (assignments : List (Bytes × List ℕ)) (member : Bytes)
    (q : ℕ)
    → contains (assigned (assign_loop names first count assignments) member) q
      ≡ contains (assigned assignments member) q
        || ((leb first q && ltb q (first + count)) && due names member q)
unfolding assign_loop
contains-assign_loop names first zero assignments member q = ground arith
contains-assign_loop names first (suc count) assignments member q =
    contains-assign_loop names (first + 1) count
      (push_partition (get_elem? names (first % length names)) first assignments) member q
    ∙ (ap
          (λ before.
            before || ((leb (first + 1) q && ltb q (first + 1 + count)) && due names member q))
          (contains-push_partition (get_elem? names (first % length names)) first assignments member
            q)
        ∙ range_suc (due names member) (contains (assigned assignments member) q) first count q)

pub contains-distribute :
    (names : List Bytes) (count : ℕ) (member : Bytes) (q : ℕ)
    → contains (assigned (distribute names count) member) q ≡ (ltb q count && due names member q)
contains-distribute [] count member q = ground (arith, lookup-nil {V = List ℕ} member)
contains-distribute (name ∷ names) count member q =
    contains-assign_loop (name ∷ names) 0 count [] member q
    ∙ ground (arith, lookup-nil {V = List ℕ} member)

pub rebalance_ok :
    (group : ConsumerGroup) (count : ℕ)
    → group.generation + 1 < 2 ^ 64
    → rebalance group count ≡ (
      ok tt,
      record group {
        generation = group.generation + 1;
        assignments = distribute (keys group.members) count;
      },
    )
unfolding rebalance
rebalance_ok group count fits = rw (lt→ltb (group.generation + 1) (2 ^ 64) fits)

pub rebalance_overflow :
    (group : ConsumerGroup) (count : ℕ)
    → ltb (group.generation + 1) (2 ^ 64) ≡ false
    → rebalance group count ≡ (err generation_overflow, group)
unfolding rebalance
rebalance_overflow group count full = rw full

-- After a rebalance whose generation does not overflow, a member owns a partition exactly if the
-- partition is one of the topic's and falls to the member in the round, which the members make in
-- the order of their names.
pub owns-rebalance :
    (group : ConsumerGroup) (count : ℕ) (member : Bytes) (q : ℕ)
    → group.generation + 1 < 2 ^ 64
    → owns ((rebalance group count).1) member q ≡ (ltb q count && due (keys group.members) member q)
owns-rebalance group count member q fits =
    rw (rebalance_ok group count fits, contains-distribute (keys group.members) count member q)

is_member_unique :
    (owner : Option Bytes) (a b : Bytes)
    → is_member owner a ≡ true
    → is_member owner b ≡ true
    → a ≡ b
is_member_unique none a b h k = ground arith
is_member_unique (some name) a b h k = ground (arith, bytes_beq_iff name a, bytes_beq_iff name b)

-- No partition has two owners.
abbrev pub IsExclusive : ConsumerGroup → Type 0
IsExclusive group = (a b : Bytes) (q : ℕ) → owns group a q ≡ true → owns group b q ≡ true → a ≡ b

and_right : (a b : Bool) → a && b ≡ true → b ≡ true
and_right a b h = ground arith

-- A rebalance leaves no partition with two owners, whatever the members, the number of partitions
-- and the earlier distribution are, as long as the generation does not overflow.
pub rebalance_exclusive :
    (group : ConsumerGroup) (count : ℕ) (a b : Bytes) (q : ℕ)
    → group.generation + 1 < 2 ^ 64
    → owns ((rebalance group count).1) a q ≡ true
    → owns ((rebalance group count).1) b q ≡ true
    → a ≡ b
rebalance_exclusive group count a b q fits owns_a owns_b =
    is_member_unique (get_elem? (keys group.members) (q % length (keys group.members))) a b
      (due_of_owner a owns_a) (due_of_owner b owns_b)
  where
    due_of_owner :
        (member : Bytes)
        → owns ((rebalance group count).1) member q ≡ true
        → due (keys group.members) member q ≡ true
    due_of_owner member owned =
        and_right (ltb q count) (due (keys group.members) member q)
          (sym (owns-rebalance group count member q fits) ∙ owned)

get_elem?_below :
    (names : List Bytes) (i : ℕ)
    → i < length names
    → (name : Bytes) × (get_elem? names i ≡ some name)
get_elem?_below [] i h = ground arith
get_elem?_below (name ∷ names) zero h = (name, refl)
get_elem?_below (name ∷ names) (suc i) h = get_elem?_below names i (omega arith)

length-keys : (members : List (Bytes × ℕ)) → length (keys members) ≡ length members
length-keys [] = refl
length-keys ((name, seen) ∷ rest) = ap suc (length-keys rest)

contains_key-get_elem? :
    (members : List (Bytes × ℕ)) (i : ℕ) (name : Bytes)
    → get_elem? (keys members) i ≡ some name
    → contains_key name members ≡ true
contains_key-get_elem? [] i name h = ground arith
contains_key-get_elem? ((first, seen) ∷ rest) zero name h = ground (arith, bytes_beq_iff first name)
contains_key-get_elem? ((first, seen) ∷ rest) (suc i) name h =
    ground (arith, contains_key-get_elem? rest i name)

-- After a rebalance whose generation does not overflow, of a group with members, every partition
-- of the topic has an owner, which is one of the members.
pub owner-rebalance :
    (group : ConsumerGroup) (count q : ℕ)
    → group.generation + 1 < 2 ^ 64
    → q < count
    → 0 < length group.members
    → (member : Bytes) × (owns ((rebalance group count).1) member q ≡ true)
      × (contains_key member group.members ≡ true)
owner-rebalance group count q fits below some_member =
    let (name, at) =
      get_elem?_below (keys group.members) (q % length (keys group.members)) in_range in
    (
      name,
      rw (owns-rebalance group count name q fits, lt→ltb q count below, at)
          ((bytes_beq_iff name name).1 refl),
      contains_key-get_elem? group.members (q % length (keys group.members)) name at,
    )
  where
    in_range : q % length (keys group.members) < length (keys group.members)
    in_range = rw (length-keys group.members) (omega arith)
