-- ===== src/Broker/Groups/Commit.antt =====
-- Who may commit an offset in crates/broker/src/groups.rs, over any run of the coordinator.
use sevlamq.Prelude.{
  ==_iff, ap, arith, lookup, lookup-insert_self, refl, some, subst, sym, true, ℕ, ◌<◌, ◌↔◌, ◌∙◌,
  ◌≡◌, ◌≢◌,
}
use sevlamq.Prelude.{nat_eq, bytes_eq, pair_eq}
use sevlamq.Broker.Host.{Host}
use sevlamq.Broker.Groups.Group.{
  ConsumerGroup, GroupError, Result, contains_key, err, ok, owns, validate_member,
}
use sevlamq.Broker.Groups.Coordinator.{
  GroupCoordinator, GroupIdentity, active_group, authorize, commit, commit_active, commit_checked,
  persisted, record_offset,
}
use sevlamq.Broker.Groups.Offsets.{persist_offset}
use sevlamq.Broker.Groups.Fencing.{Advances-le, owner_unique}
use sevlamq.Broker.Groups.Evolution.{AllExclusive, some_injective}
use sevlamq.Broker.Groups.Steps.{
  commits, then_step, commits, Step-Preserves, Steps, Steps-Preserves, then_step,
}

pub err_not_ok {ℓ} : {A : Type ℓ} (e : GroupError) (a : A) → err e ≢ ok a
err_not_ok e a h = ground (arith, h)

-- What a group holds that has authorized the member.
abbrev pub IsOwner : ConsumerGroup → GroupIdentity → ℕ → Type 0
IsOwner state identity partition =
    (identity.generation ≡ state.generation)
    × (owns state identity.member partition ≡ true)
    × (contains_key identity.member state.members ≡ true)

-- The checks of a commit and of a fetch pass exactly for a member of the group, in the group's
-- generation, that owns the partition.
pub authorize_iff :
    (state : ConsumerGroup) (identity : GroupIdentity) (partition : ℕ)
    → (authorize state identity.member identity.generation partition ≡ ok tt)
      ↔ IsOwner state identity partition
unfolding authorize validate_member
authorize_iff state identity partition = ground (arith, ==_iff identity.generation state.generation)

module _ {host : Host} where
  -- The group in the map authorizes the identity, and holds the offset.
  abbrev pub Committed : GroupCoordinator host → GroupIdentity → ℕ → ℕ → Type 0
  Committed s identity partition offset =
      (state : ConsumerGroup) × (lookup (identity.group, identity.topic) s.groups ≡ some state)
      × IsOwner state identity partition
      × (lookup partition state.committed_offsets ≡ some offset)

  persisted-Committed :
      (identity : GroupIdentity) (partition offset : ℕ) (state : ConsumerGroup)
      (s : GroupCoordinator host) (done : Result (Unit {0}) × host.Disk)
      → IsOwner state identity partition
      → (persisted identity partition offset state s done).0 ≡ ok tt
      → Committed ((persisted identity partition offset state s done).1) identity partition offset
  persisted-Committed identity partition offset state s (err e, disk) owner success =
      elim (err_not_ok e tt success) [ ]
  persisted-Committed identity partition offset state s (ok _, disk) owner success = (
    record_offset state partition offset,
    lookup-insert_self (identity.group, identity.topic) _ s.groups,
    owner,
    lookup-insert_self partition offset state.committed_offsets,
  )

  commit_checked-Committed :
      (identity : GroupIdentity) (partition offset : ℕ) (state : ConsumerGroup)
      (s : GroupCoordinator host) (check : Result (Unit {0}))
      → authorize state identity.member identity.generation partition ≡ check
      → (commit_checked identity partition offset state s check).0 ≡ ok tt
      → Committed
          ((commit_checked identity partition offset state s check).1)
          identity
          partition
          offset
  commit_checked-Committed identity partition offset state s (err e) same success =
      elim (err_not_ok e tt success) [ ]
  commit_checked-Committed identity partition offset state s (ok _) same success =
      persisted-Committed identity partition offset state s
        (persist_offset host s.offsets_dir identity.group identity.topic partition offset s.disk)
        ((authorize_iff state identity partition).0 same) success

  commit_active-Committed :
      (identity : GroupIdentity) (partition offset : ℕ)
      (active : Result ConsumerGroup × GroupCoordinator host)
      → (commit_active identity partition offset active).0 ≡ ok tt
      → Committed ((commit_active identity partition offset active).1) identity partition offset
  commit_active-Committed identity partition offset (err e, s) success =
      elim (err_not_ok e tt success) [ ]
  commit_active-Committed identity partition offset (ok state, s) success =
      commit_checked-Committed identity partition offset state s
        (authorize state identity.member identity.generation partition) refl success

  -- A commit that succeeds came from a member of the group, in the group's generation, that owns the
  -- partition; the group then holds the offset.
  pub commit-Committed :
      (s : GroupCoordinator host) (identity : GroupIdentity) (partition offset now : ℕ)
      → (commit s identity partition offset now).0 ≡ ok tt
      → Committed ((commit s identity partition offset now).1) identity partition offset
  unfolding commit
  commit-Committed s identity partition offset now success =
      commit_active-Committed identity partition offset
        (active_group s identity.group identity.topic now) success

  -- Once the group has a later generation than a commit names, that commit does not succeed,
  -- after any operations.
  pub commit_stale :
      (s t : GroupCoordinator host) (identity : GroupIdentity) (partition offset now : ℕ)
      (state : ConsumerGroup)
      → lookup (identity.group, identity.topic) s.groups ≡ some state
      → identity.generation < state.generation
      → Steps s t
      → (commit t identity partition offset now).0 ≢ ok tt
  commit_stale s t identity partition offset now state found stale steps success =
      let after = (commit t identity partition offset now).1 in
      let (new, found_new, (advances, keeps)) =
        (Steps-Preserves s after (then_step steps (commits t identity partition offset now))).0
          (identity.group, identity.topic) state found in
      let (last, found_last, owner, held) =
        commit-Committed t identity partition offset now success in
      let same =
        owner.0 ∙ ap (λ g. g.generation) (some_injective last new (sym found_last ∙ found_new)) in
      let rises = Advances-le state new advances in omega (arith, same, rises, stale)

  -- If no group has a partition with two owners, then two commits that succeed for one partition
  -- of one group and topic in one generation come from one member, whatever operations happen
  -- between them.
  pub commit_unique :
      (s t : GroupCoordinator host) (one two : GroupIdentity) (partition first second now later : ℕ)
      → AllExclusive s.groups
      → one.group ≡ two.group
      → one.topic ≡ two.topic
      → one.generation ≡ two.generation
      → (commit s one partition first now).0 ≡ ok tt
      → Steps ((commit s one partition first now).1) t
      → (commit t two partition second later).0 ≡ ok tt
      → one.member ≡ two.member
  commit_unique s t one two partition first second now later exclusive same_group same_topic
        same_generation success steps success' =
      let middle = (commit s one partition first now).1 in
      let after = (commit t two partition second later).1 in
      let (state, found, owner, held) = commit-Committed s one partition first now success in
      let (last, found_last, owner', held') =
        commit-Committed t two partition second later success' in
      let found' =
        subst (λ key. lookup key middle.groups ≡ some state) (λ i. (same_group i, same_topic i))
          found in
      let (new, found_new, (advances, keeps)) =
        (Steps-Preserves middle after (then_step steps (commits t two partition second later))).0
          (two.group, two.topic) state found' in
      let last≡new = some_injective last new (sym found_last ∙ found_new) in
      let exclusive_state =
        (Step-Preserves s middle (commits s one partition first now)).1 exclusive
          (one.group, one.topic) state found in
      owner_unique state new one.member two.member partition advances exclusive_state
        (sym owner.0 ∙ (same_generation ∙ (owner'.0 ∙ ap (λ g. g.generation) last≡new))) owner.1
        (subst (λ g. owns g two.member partition ≡ true) last≡new (owner'.1))
