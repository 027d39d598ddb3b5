-- ===== src/Broker/Groups/Evolution.antt =====
-- How the operations of crates/broker/src/groups.rs change the map of all the groups.
use sevlamq.Prelude.{
  Bool, Bool-cases, List, Option, arith, false, if◌then◌else◌, inl, inr, insert, lookup,
  lookup-cons, lookup-insert_hit, lookup-insert_miss, lookup-nil, none, pair_beq_iff, refl, some,
  subst, sym, true, ℕ, ◌∙◌, ◌∷◌, ◌≟◌, ◌≡◌,
}
use sevlamq.Prelude.{nat_eq, bytes_eq, pair_eq, pair_beq_iff, ◌≟◌}
use sevlamq.Protocol.Types.{Bytes}
use sevlamq.Broker.Groups.Group.{ConsumerGroup, new_group}
use sevlamq.Broker.Groups.Coordinator.{Groups}
use sevlamq.Broker.Groups.Assignment.{IsExclusive}
use sevlamq.Broker.Groups.Fencing.{Keeps, Keeps-members, Keeps-trans}

-- Every group stays, and is kept.
abbrev pub Evolves : Groups → Groups → Type 0
Evolves gs hs =
    (key : Bytes × Bytes) (old : ConsumerGroup)
    → lookup key gs ≡ some old
    → (new : ConsumerGroup) × (lookup key hs ≡ some new) × Keeps old new

pub Evolves-refl : (gs : Groups) → Evolves gs gs
Evolves-refl gs key old found = (old, found, Keeps-members old old.members)

pub Evolves-trans : (gs hs is : Groups) → Evolves gs hs → Evolves hs is → Evolves gs is
Evolves-trans gs hs is first second key old found =
    let (middle, found', keeps) = first key old found in
    let (new, found'', keeps') = second key middle found' in
    (new, found'', Keeps-trans old middle new keeps keeps')

pub some_injective : (a b : ConsumerGroup) → some a ≡ some b → a ≡ b
some_injective a b h = ground arith

-- No group has a partition with two owners.
abbrev pub AllExclusive : Groups → Type 0
AllExclusive gs =
    (key : Bytes × Bytes) (group : ConsumerGroup) → lookup key gs ≡ some group → IsExclusive group

pub AllExclusive-insert :
    (gs : Groups) (key : Bytes × Bytes) (new : ConsumerGroup)
    → AllExclusive gs
    → IsExclusive new
    → AllExclusive (insert key new gs)
AllExclusive-insert gs key new exclusive exclusive_new key' group found =
    elim (Bool-cases (key ≟ key')) [
      | inl same ↦
          subst IsExclusive
            (some_injective new group (sym (lookup-insert_hit key key' new gs same) ∙ found))
            exclusive_new
      | inr other ↦ exclusive key' group (sym (lookup-insert_miss key key' new gs other) ∙ found)
    ]

pub Evolves-insert :
    (gs : Groups) (key : Bytes × Bytes) (new : ConsumerGroup)
    → ((old : ConsumerGroup) → lookup key gs ≡ some old → Keeps old new)
    → Evolves gs (insert key new gs)
Evolves-insert gs key new keeps key' old found = elim (Bool-cases (key ≟ key')) [
  | inl same ↦ (
    new,
    lookup-insert_hit key key' new gs same,
    keeps old (subst (λ k. lookup k gs ≡ some old) (sym ((pair_beq_iff key key').0 same)) found),
  )
  | inr other ↦
      (old, lookup-insert_miss key key' new gs other ∙ found, Keeps-members old old.members)
]

-- Both, as the operations keep them.
abbrev pub Preserves : Groups → Groups → Type 0
Preserves gs hs = Evolves gs hs × (AllExclusive gs → AllExclusive hs)

pub Preserves-trans : (gs hs is : Groups) → Preserves gs hs → Preserves hs is → Preserves gs is
Preserves-trans gs hs is (evolves, keep) (evolves', keep') =
    (Evolves-trans gs hs is evolves evolves', λ exclusive. keep' (keep exclusive))

-- A group that is there gets a state that keeps it.
pub Preserves-insert :
    (gs : Groups) (key : Bytes × Bytes) (old new : ConsumerGroup)
    → lookup key gs ≡ some old
    → Keeps old new
    → Preserves gs (insert key new gs)
Preserves-insert gs key old new found keeps = (
  Evolves-insert gs key new λ old' found'.
      subst (λ group. Keeps group new) (some_injective old old' (sym found ∙ found')) keeps,
  λ exclusive. AllExclusive-insert gs key new exclusive (keeps.1 (exclusive key old found)),
)

new_group-IsExclusive : (offsets : List (ℕ × ℕ)) → IsExclusive (new_group offsets)
new_group-IsExclusive offsets a b q h k = ground (arith, lookup-nil {V = List ℕ} a)

-- A group that is not there starts without owners.
pub Preserves-insert_new :
    (gs : Groups) (key : Bytes × Bytes) (offsets : List (ℕ × ℕ)) (new : ConsumerGroup)
    → lookup key gs ≡ none
    → Keeps (new_group offsets) new
    → Preserves gs (insert key new gs)
Preserves-insert_new gs key offsets new absent keeps = (
  Evolves-insert gs key new λ old found. ground (arith, absent, found),
  λ exclusive. AllExclusive-insert gs key new exclusive (keeps.1 (new_group-IsExclusive offsets)),
)

-- The same groups, each kept: what a loop over all the groups does.
abbrev Kept : Option ConsumerGroup → Option ConsumerGroup → Type 0
Kept none after = after ≡ none
Kept (some old) after = (new : ConsumerGroup) × (after ≡ some new) × Keeps old new

Kept-refl : (before : Option ConsumerGroup) → Kept before before
Kept-refl none = refl
Kept-refl (some old) = (old, refl, Keeps-members old old.members)

Kept-IsExclusive :
    (before after : Option ConsumerGroup)
    → Kept before after
    → ((old : ConsumerGroup) → before ≡ some old → IsExclusive old)
    → (new : ConsumerGroup) → after ≡ some new
    → IsExclusive new
Kept-IsExclusive none after kept exclusive new found = ground (arith, kept, found)
Kept-IsExclusive (some old) after (middle, same, keeps) exclusive new found =
    subst IsExclusive (some_injective middle new (sym same ∙ found)) (keeps.1 (exclusive old refl))

abbrev pub AllKept : Groups → Groups → Type 0
AllKept gs hs = (key : Bytes × Bytes) → Kept (lookup key gs) (lookup key hs)

pub AllKept-refl : (gs : Groups) → AllKept gs gs
AllKept-refl gs key = Kept-refl (lookup key gs)

Kept-if :
    (test : Bool) (old new : ConsumerGroup) (before after : Option ConsumerGroup)
    → Keeps old new
    → Kept before after
    → Kept (if test then some old else before) (if test then some new else after)
Kept-if true old new before after keeps kept = (new, refl, keeps)
Kept-if false old new before after keeps kept = kept

pub AllKept-cons :
    (key : Bytes × Bytes) (old new : ConsumerGroup) (gs hs : Groups)
    → Keeps old new
    → AllKept gs hs
    → AllKept ((key, old) ∷ gs) ((key, new) ∷ hs)
AllKept-cons key old new gs hs keeps kept key' =
    rw (lookup-cons key' key old gs, lookup-cons key' key new hs)
      (Kept-if (key ≟ key') old new (lookup key' gs) (lookup key' hs) keeps (kept key'))

pub AllKept-Preserves : (gs hs : Groups) → AllKept gs hs → Preserves gs hs
AllKept-Preserves gs hs kept = (
  λ key old found. subst (λ before. Kept before (lookup key hs)) found (kept key),
  λ exclusive key new found.
      Kept-IsExclusive (lookup key gs) (lookup key hs) (kept key) (exclusive key) new found,
)

pub Preserves-refl : (gs : Groups) → Preserves gs gs
Preserves-refl gs = AllKept-Preserves gs gs (AllKept-refl gs)
