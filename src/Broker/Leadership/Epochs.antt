-- ===== src/Broker/Leadership/Epochs.antt =====
-- The epochs of crates/broker/src/leadership.rs over any run of the registry.
use sevlamq.Prelude.{
  ◌≤◌, Bool-cases, Option-cases, arith, false, inl, inr, insert, lookup, lookup-insert_hit,
  lookup-insert_miss, ltb, ltb→lt, none, pair_beq_iff, refl, some, subst, suc, sym, true, zero, ℕ,
  ◌+◌, ◌<◌, ◌∙◌, ◌≟◌, ◌≡◌, ◌≢◌, ◌⊎◌,
}
use sevlamq.Prelude.{nat_eq, bytes_eq, pair_eq, pair_beq_iff, ◌≟◌}
use sevlamq.Protocol.Types.{Bytes, ClusterMetadata, PartitionLeadership}
use sevlamq.Broker.Leadership.Registry.{
  Entries, LeadershipError, Result, ensure_loop, err, initial_leadership, is_stale, ok,
  same_leadership,
}

-- Either the epoch rises, or the leader stays.
abbrev pub Succeeds : PartitionLeadership → PartitionLeadership → Type 0
Succeeds old new =
    (old.leader_epoch < new.leader_epoch)
    ⊎ ((old.leader_epoch ≡ new.leader_epoch) × (old.leader_id ≡ new.leader_id))

pub Succeeds-refl : (l : PartitionLeadership) → Succeeds l l
Succeeds-refl l = inr (refl, refl)

Succeeds-trans : (a b c : PartitionLeadership) → Succeeds a b → Succeeds b c → Succeeds a c
Succeeds-trans a b c (inl h) (inl k) = inl (omega arith)
Succeeds-trans a b c (inl h) (inr (k, same)) = inl (omega arith)
Succeeds-trans a b c (inr (h, same)) (inl k) = inl (omega arith)
Succeeds-trans a b c (inr (h, same)) (inr (k, same')) = inr (h ∙ k, same ∙ same')

pub fresh-Succeeds :
    (new current : PartitionLeadership) → is_stale new current ≡ false → Succeeds current new
unfolding is_stale
fresh-Succeeds new current h = elim (Bool-cases (ltb current.leader_epoch new.leader_epoch)) [
  | inl rises ↦ inl (ltb→lt current.leader_epoch new.leader_epoch rises)
  | inr stays ↦ inr (ground arith)
]

abbrev pub AllSucceed : Entries → Entries → Type 0
AllSucceed es fs =
    (key : Bytes × ℕ) (old : PartitionLeadership)
    → lookup key es ≡ some old
    → (new : PartitionLeadership) × (lookup key fs ≡ some new) × Succeeds old new

pub AllSucceed-refl : (es : Entries) → AllSucceed es es
AllSucceed-refl es key old found = (old, found, Succeeds-refl old)

pub AllSucceed-trans : (es fs gs : Entries) → AllSucceed es fs → AllSucceed fs gs → AllSucceed es gs
AllSucceed-trans es fs gs first second key old found =
    let (middle, found', succeeds) = first key old found in
    let (new, found'', succeeds') = second key middle found' in
    (new, found'', Succeeds-trans old middle new succeeds succeeds')

pub some_injective : (a b : PartitionLeadership) → some a ≡ some b → a ≡ b
some_injective a b h = ground arith

pub none_not_some : (a : PartitionLeadership) → none ≢ some a
none_not_some a h = ground arith

pub AllSucceed-insert :
    (es : Entries) (key : Bytes × ℕ) (new : PartitionLeadership)
    → ((old : PartitionLeadership) → lookup key es ≡ some old → Succeeds old new)
    → AllSucceed es (insert key new es)
AllSucceed-insert es key new succeeds key' old found = elim (Bool-cases (key ≟ key')) [
  | inl same ↦ (
    new,
    lookup-insert_hit key key' new es same,
    succeeds old (subst (λ k. lookup k es ≡ some old) (sym ((pair_beq_iff key key').0 same)) found),
  )
  | inr other ↦ (old, lookup-insert_miss key key' new es other ∙ found, Succeeds-refl old)
]

pub AllSucceed-ensure_loop :
    (cluster : ClusterMetadata) (topic : Bytes) (first count : ℕ) (es : Entries)
    → AllSucceed es ((ensure_loop cluster topic first count es).0)
unfolding ensure_loop
AllSucceed-ensure_loop cluster topic first zero es = AllSucceed-refl es
AllSucceed-ensure_loop cluster topic first (suc count) es =
    elim (Option-cases (lookup (topic, first) es)) [
      | inl absent ↦
          rw (ensure_loop, absent)
            (AllSucceed-trans es (insert (topic, first) (initial_leadership cluster first) es) _
              (AllSucceed-insert es (topic, first) (initial_leadership cluster first)
                λ old found. elim (none_not_some old (sym absent ∙ found)) [ ])
              (AllSucceed-ensure_loop cluster topic (first + 1) count
                (insert (topic, first) (initial_leadership cluster first) es)))
      | inr (old, present) ↦
          rw (ensure_loop, present) (AllSucceed-ensure_loop cluster topic (first + 1) count es)
    ]

pub err_not_ok : (e : LeadershipError) → ◌≢◌ {A = Result (Unit {0})} (err e) (ok tt)
err_not_ok e h = ground (arith, h)

pub same_leadership_lem : (a b : PartitionLeadership) → same_leadership a b ≡ true → b ≡ a
same_leadership_lem a b h = λ i. record {
  partition = same_partition i;
  leader_id = same_leader i;
  leader_epoch = same_epoch i;
  high_watermark = same_watermark i;
}
  where
    same_partition : b.partition ≡ a.partition
    same_partition = ground (arith, h)

    same_leader : b.leader_id ≡ a.leader_id
    same_leader = ground (arith, h)

    same_epoch : b.leader_epoch ≡ a.leader_epoch
    same_epoch = ground (arith, h)

    same_watermark : b.high_watermark ≡ a.high_watermark
    same_watermark = ground (arith, h)

pub same_epoch-Succeeds :
    (old new : PartitionLeadership)
    → Succeeds old new
    → old.leader_epoch ≡ new.leader_epoch
    → old.leader_id ≡ new.leader_id
same_epoch-Succeeds old new (inl rises) same = ground (arith, rises, same)
same_epoch-Succeeds old new (inr (_, kept)) same = kept

pub fresh_watermark :
    (new current : PartitionLeadership)
    → is_stale new current ≡ false
    → (current.leader_epoch < new.leader_epoch)
      ⊎ ((current.leader_epoch ≡ new.leader_epoch) × (current.high_watermark ≤ new.high_watermark))
unfolding is_stale
fresh_watermark new current h = elim (Bool-cases (ltb current.leader_epoch new.leader_epoch)) [
  | inl rises ↦ inl (ltb→lt current.leader_epoch new.leader_epoch rises)
  | inr stays ↦ inr (ground arith)
]
