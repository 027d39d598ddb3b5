-- ===== src/Broker/Groups/Fencing.antt =====
-- The generations of crates/broker/src/groups.rs: how the operations on one group change them.
use sevlamq.Prelude.{
  Bool, Bool-cases, List, arith, false, if◌then◌else◌, inl, inr, ltb, ltb→lt, refl, subst, sym,
  true, ℕ, ◌+◌, ◌<◌, ◌^◌, ◌∙◌, ◌≡◌, ◌≤◌, ◌⊎◌,
}
use sevlamq.Prelude.{bytes_eq}
use sevlamq.Protocol.Types.{Bytes}
use sevlamq.Broker.Groups.Group.{
  ConsumerGroup, Result, Result-cases, assigned, contains, err, expire_members, insert_member, ok,
  owns, rebalance, remove_member, validate_member,
}
use sevlamq.Broker.Groups.Coordinator.{beat, member_leaves, refresh}
use sevlamq.Broker.Groups.Joining.{member_joins, respond}
use sevlamq.Broker.Groups.Assignment.{
  IsExclusive, rebalance_exclusive, rebalance_ok, rebalance_overflow,
}

-- Either the generation rises, or the partitions stay with their owners.
abbrev pub Advances : ConsumerGroup → ConsumerGroup → Type 0
Advances old new =
    (old.generation < new.generation)
    ⊎ ((old.generation ≡ new.generation) × (old.assignments ≡ new.assignments))

pub Advances-refl : (group : ConsumerGroup) → Advances group group
Advances-refl group = inr (refl, refl)

pub Advances-trans : (a b c : ConsumerGroup) → Advances a b → Advances b c → Advances a c
Advances-trans a b c (inl h) (inl k) = inl (omega arith)
Advances-trans a b c (inl h) (inr (k, same)) = inl (omega arith)
Advances-trans a b c (inr (h, same)) (inl k) = inl (omega arith)
Advances-trans a b c (inr (h, same)) (inr (k, same')) = inr (h ∙ k, same ∙ same')

-- What the operations on a group keep: it advances, and no partition gets two owners.
abbrev pub Keeps : ConsumerGroup → ConsumerGroup → Type 0
Keeps old new = Advances old new × (IsExclusive old → IsExclusive new)

pub Keeps-trans : (a b c : ConsumerGroup) → Keeps a b → Keeps b c → Keeps a c
Keeps-trans a b c (advance, keep) (advance', keep') =
    (Advances-trans a b c advance advance', λ exclusive. keep' (keep exclusive))

-- A change of the members alone.
pub Keeps-members :
    (group : ConsumerGroup) (members : List (Bytes × ℕ))
    → Keeps group (record group { members = members })
Keeps-members group members = (inr (refl, refl), λ exclusive. exclusive)

pub Keeps-rebalance : (group : ConsumerGroup) (count : ℕ) → Keeps group ((rebalance group count).1)
Keeps-rebalance group count = elim (Bool-cases (ltb (group.generation + 1) (2 ^ 64))) [
  | inl below ↦
      (let fits = ltb→lt (group.generation + 1) (2 ^ 64) below in
        (
          rw (rebalance_ok group count fits) (inl (omega arith)),
          λ _ a b q. rebalance_exclusive group count a b q fits,
        ))
  | inr full ↦ rw (rebalance_overflow group count full) (Keeps-members group group.members)
]

-- A rebalance that takes place only if the test holds.
pub Keeps-if_rebalance :
    (test : Bool) (group changed : ConsumerGroup) (count : ℕ)
    → Keeps group changed
    → Keeps group ((if test then rebalance changed count else (ok tt, changed)).1)
Keeps-if_rebalance true group changed count keeps =
    Keeps-trans group changed ((rebalance changed count).1) keeps (Keeps-rebalance changed count)
Keeps-if_rebalance false group changed count keeps = keeps

pub Keeps-refresh :
    (timeout count now : ℕ) (group : ConsumerGroup)
    → Keeps group ((refresh timeout count now group).1)
unfolding refresh expire_members
Keeps-refresh timeout count now group =
    Keeps-if_rebalance ((expire_members group timeout now).1) group
      ((expire_members group timeout now).0) count
      (Keeps-members group ((expire_members group timeout now).0.members))

Keeps-respond :
    (member : Bytes) (group : ConsumerGroup) (done : Result (Unit {0}) × ConsumerGroup)
    → Keeps group (done.1)
    → Keeps group ((respond member done).1)
Keeps-respond member group (err e, state) keeps = keeps
Keeps-respond member group (ok _, state) keeps = keeps

pub Keeps-member_joins :
    (timeout count now : ℕ) (member : Bytes) (group : ConsumerGroup)
    → Keeps group ((member_joins timeout count now member group).1)
unfolding member_joins expire_members
Keeps-member_joins timeout count now member group = Keeps-respond member group _ (
    Keeps-if_rebalance _ group _ count (
      Keeps-members group
        (insert_member member now ((expire_members group timeout now).0.members))))

pub Advances-le : (old new : ConsumerGroup) → Advances old new → old.generation ≤ new.generation
Advances-le old new (inl h) = omega arith
Advances-le old new (inr (h, same)) = omega arith

-- Two owners of a partition in one generation are one, if the group was exclusive before.
pub owner_unique :
    (old new : ConsumerGroup) (a b : Bytes) (q : ℕ)
    → Advances old new
    → IsExclusive old
    → old.generation ≡ new.generation
    → owns old a q ≡ true
    → owns new b q ≡ true
    → a ≡ b
owner_unique old new a b q (inl rises) exclusive same owns_a owns_b = ground (arith, rises, same)
owner_unique old new a b q (inr (_, kept)) exclusive same owns_a owns_b =
    exclusive a b q owns_a
      (subst (λ assignments. contains (assigned assignments b) q ≡ true) (sym kept) owns_b)

pub Keeps-beat :
    (member : Bytes) (generation now : ℕ) (state : ConsumerGroup)
    → Keeps state ((beat member generation now state).1)
Keeps-beat member generation now state =
    elim (Result-cases (validate_member state member generation)) [
      | inl (e, refused) ↦ rw (beat, refused) (Keeps-members state state.members)
      | inr (_, valid) ↦
          rw (beat, valid) (Keeps-members state (insert_member member now state.members))
    ]

pub Keeps-member_leaves :
    (member : Bytes) (generation count : ℕ) (state : ConsumerGroup)
    → Keeps state ((member_leaves member generation count state).1)
Keeps-member_leaves member generation count state =
    elim (Result-cases (validate_member state member generation)) [
      | inl (e, refused) ↦ rw (member_leaves, refused) (Keeps-members state state.members)
      | inr (_, valid) ↦
          (let fewer = record state { members = remove_member member state.members } in
            rw (member_leaves, valid)
              (Keeps-trans state fewer ((rebalance fewer count).1)
                (Keeps-members state fewer.members) (Keeps-rebalance fewer count)))
    ]
