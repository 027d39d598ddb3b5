-- ===== src/Broker/Leadership/Runs.antt =====
-- The runs of the registry of crates/broker/src/leadership.rs: any operations, in any order.
use sevlamq.Prelude.{
  arith, ◌⊎◌, ◌<◌, ◌≤◌, Bool, Option, ap, false, if◌then◌else◌, inr, lookup, lookup-insert_self,
  none, refl, some, subst, sym, true, ℕ, ◌-◌, ◌==◌, ◌^◌, ◌∙◌, ◌≡◌,
}
use sevlamq.Prelude.{nat_eq, bytes_eq, pair_eq}
use sevlamq.Protocol.Types.{Bytes, PartitionLeadership}
use sevlamq.Broker.Host.{Host}
use sevlamq.Broker.Leadership.Registry.{
  Entries, LeadershipRegistry, Result, apply, apply_over, ensure_loop, ensure_topic, is_node,
  is_stale, migrate_high_watermark, migrate_over, ok, same_leadership, stale_epoch, unknown_broker,
}
use sevlamq.Broker.Leadership.Epochs.{
  fresh_watermark, AllSucceed, AllSucceed-ensure_loop, AllSucceed-insert, AllSucceed-refl,
  AllSucceed-trans, Succeeds, err_not_ok, fresh-Succeeds, none_not_some, same_epoch-Succeeds,
  same_leadership_lem, some_injective,
}

module _ {host : Host} where
  -- An operation of the registry that may change it, whatever its arguments and its result are.
  pub data Step : LeadershipRegistry host → LeadershipRegistry host → Type 0 where
    ensures :
        (s : LeadershipRegistry host) (topic : Bytes) (partitions : ℕ)
        → Step s ((ensure_topic s topic partitions).1)
    applies :
        (s : LeadershipRegistry host) (topic : Bytes) (leadership : PartitionLeadership)
        → Step s ((apply s topic leadership).1)
    migrates :
        (s : LeadershipRegistry host) (topic : Bytes) (number high_watermark : ℕ)
        → Step s ((migrate_high_watermark s topic number high_watermark).1)

  pub data Steps : LeadershipRegistry host → LeadershipRegistry host → Type 0 where
    stay : (s : LeadershipRegistry host) → Steps s s
    then_step : {s t u : LeadershipRegistry host} → Steps s t → Step t u → Steps s u

  AllSucceed-if :
      (test : Bool) (es : Entries) (a b : Result (Unit {0}) × LeadershipRegistry host)
      → (test ≡ true → AllSucceed es (a.1.entries))
      → (test ≡ false → AllSucceed es (b.1.entries))
      → AllSucceed es ((if test then a else b).1.entries)
  AllSucceed-if true es a b holds fails = holds refl
  AllSucceed-if false es a b holds fails = fails refl

  AllSucceed-apply_over :
      (s : LeadershipRegistry host) (topic : Bytes) (l : PartitionLeadership)
      (found : Option PartitionLeadership)
      → lookup (topic, l.partition) s.entries ≡ found
      → AllSucceed s.entries ((apply_over s topic l found).1.entries)
  AllSucceed-apply_over s topic l none absent =
      AllSucceed-insert s.entries (topic, l.partition) l
        λ old found. elim (none_not_some old (sym absent ∙ found)) [ ]
  AllSucceed-apply_over s topic l (some current) present =
      AllSucceed-if (is_stale l current) s.entries _ _ (λ _. AllSucceed-refl s.entries)
        λ fresh.
          AllSucceed-if (same_leadership l current) s.entries _ _ (λ _. AllSucceed-refl s.entries)
            λ _.
              AllSucceed-insert s.entries (topic, l.partition) l
                λ old found.
                  subst (λ before. Succeeds before l)
                    (some_injective current old (sym present ∙ found))
                    (fresh-Succeeds l current fresh)

  AllSucceed-migrate_over :
      (s : LeadershipRegistry host) (topic : Bytes) (number high_watermark : ℕ)
      (found : Option PartitionLeadership)
      → lookup (topic, number) s.entries ≡ found
      → AllSucceed s.entries ((migrate_over s topic number high_watermark found).1.entries)
  AllSucceed-migrate_over s topic number high_watermark none absent = AllSucceed-refl s.entries
  AllSucceed-migrate_over s topic number high_watermark (some entry) present =
      AllSucceed-if (entry.high_watermark == 2 ^ 64 - 1) s.entries _ _
        (λ _.
          AllSucceed-insert s.entries (topic, number)
            (record entry { high_watermark = high_watermark })
            λ old found.
              subst (λ before. Succeeds before (record entry { high_watermark = high_watermark }))
                (some_injective entry old (sym present ∙ found)) (inr (refl, refl)))
        λ _. AllSucceed-refl s.entries

  Step-AllSucceed : (s t : LeadershipRegistry host) → Step s t → AllSucceed s.entries t.entries
  unfolding ensure_topic apply migrate_high_watermark
  Step-AllSucceed s _ (ensures _ topic partitions) =
      AllSucceed-if ((ensure_loop s.cluster topic 0 partitions s.entries).1) s.entries _ _
        (λ _. AllSucceed-ensure_loop s.cluster topic 0 partitions s.entries)
        λ _. AllSucceed-ensure_loop s.cluster topic 0 partitions s.entries
  Step-AllSucceed s _ (applies _ topic l) =
      AllSucceed-if (is_node s.cluster.nodes l.leader_id) s.entries _ _
        (λ _. AllSucceed-apply_over s topic l (lookup (topic, l.partition) s.entries) refl)
        λ _. AllSucceed-refl s.entries
  Step-AllSucceed s _ (migrates _ topic number high_watermark) =
      AllSucceed-migrate_over s topic number high_watermark (lookup (topic, number) s.entries) refl

  Steps-AllSucceed : (s t : LeadershipRegistry host) → Steps s t → AllSucceed s.entries t.entries
  Steps-AllSucceed s _ (stay _) = AllSucceed-refl s.entries
  Steps-AllSucceed s u (then_step {t = t} before step) =
      AllSucceed-trans s.entries t.entries u.entries (Steps-AllSucceed s t before)
        (Step-AllSucceed t u step)

  -- Whatever operations the registry runs, a partition that it knows stays known, its epoch never
  -- falls, and within one epoch its leader stays the same.
  pub epoch_rises :
      (s t : LeadershipRegistry host) (key : Bytes × ℕ) (old : PartitionLeadership)
      → Steps s t
      → lookup key s.entries ≡ some old
      → (new : PartitionLeadership) × (lookup key t.entries ≡ some new) × Succeeds old new
  epoch_rises s t key old steps found = Steps-AllSucceed s t steps key old found

  holds_if :
      (test : Bool) (key : Bytes × ℕ) (l : PartitionLeadership)
      (a b : Result (Unit {0}) × LeadershipRegistry host)
      → (test ≡ true → a.0 ≡ ok tt → lookup key (a.1.entries) ≡ some l)
      → (test ≡ false → b.0 ≡ ok tt → lookup key (b.1.entries) ≡ some l)
      → (if test then a else b).0 ≡ ok tt
      → lookup key ((if test then a else b).1.entries) ≡ some l
  holds_if true key l a b holds fails success = holds refl success
  holds_if false key l a b holds fails success = fails refl success

  lookup-apply_over :
      (s : LeadershipRegistry host) (topic : Bytes) (l : PartitionLeadership)
      (found : Option PartitionLeadership)
      → lookup (topic, l.partition) s.entries ≡ found
      → (apply_over s topic l found).0 ≡ ok tt
      → lookup (topic, l.partition) ((apply_over s topic l found).1.entries) ≡ some l
  lookup-apply_over s topic l none absent success =
      lookup-insert_self (topic, l.partition) l s.entries
  lookup-apply_over s topic l (some current) present success =
      holds_if (is_stale l current) (topic, l.partition) l _ _
        (λ _ refused. elim (err_not_ok stale_epoch refused) [ ])
        (λ _ success.
          holds_if (same_leadership l current) (topic, l.partition) l _ _
            (λ same _. present ∙ ap some (same_leadership_lem l current same))
            (λ _ _. lookup-insert_self (topic, l.partition) l s.entries) success)
        success

  -- After an `apply` that succeeds, the registry holds the leadership that it was given.
  pub lookup-apply :
      (s : LeadershipRegistry host) (topic : Bytes) (l : PartitionLeadership)
      → (apply s topic l).0 ≡ ok tt
      → lookup (topic, l.partition) ((apply s topic l).1.entries) ≡ some l
  unfolding apply
  lookup-apply s topic l success =
      holds_if (is_node s.cluster.nodes l.leader_id) (topic, l.partition) l _ _
        (λ _ success.
          lookup-apply_over s topic l (lookup (topic, l.partition) s.entries) refl success)
        (λ _ refused. elim (err_not_ok (unknown_broker l.leader_id) refused) [ ]) success

  -- Two leaderships that the registry accepts for one partition of a topic in one epoch name one
  -- leader, whatever operations happen between them.
  pub one_leader_per_epoch :
      (s t : LeadershipRegistry host) (topic : Bytes) (one two : PartitionLeadership)
      → one.partition ≡ two.partition
      → one.leader_epoch ≡ two.leader_epoch
      → (apply s topic one).0 ≡ ok tt
      → Steps ((apply s topic one).1) t
      → (apply t topic two).0 ≡ ok tt
      → one.leader_id ≡ two.leader_id
  one_leader_per_epoch s t topic one two same_partition same_epoch success steps success' =
      let middle = (apply s topic one).1 in
      let after = (apply t topic two).1 in
      let held =
        subst (λ p. lookup (topic, p) middle.entries ≡ some one) same_partition
          (lookup-apply s topic one success) in
      let (new, found, succeeds) =
        Steps-AllSucceed middle after (then_step steps (applies t topic two)) (topic, two.partition)
          one held in
      let new≡two = some_injective new two (sym found ∙ lookup-apply t topic two success') in
      same_epoch-Succeeds one two (subst (Succeeds one) new≡two succeeds) same_epoch

  kept_if :
      (P : Result (Unit {0}) × LeadershipRegistry host → Type 0) (test : Bool)
      (a b : Result (Unit {0}) × LeadershipRegistry host)
      → (test ≡ true → P a)
      → (test ≡ false → P b)
      → P (if test then a else b)
  kept_if P true a b holds fails = holds refl
  kept_if P false a b holds fails = fails refl

  -- The entry of a partition that an earlier one precedes, in the order of the epochs and then of
  -- the high watermarks.
  abbrev pub Follows :
      PartitionLeadership → Bytes × ℕ → Result (Unit {0}) × LeadershipRegistry host → Type 0
  Follows old key done =
      (new : PartitionLeadership) × (lookup key (done.1.entries) ≡ some new)
      × ((old.leader_epoch < new.leader_epoch)
          ⊎ ((old.leader_epoch ≡ new.leader_epoch) × (old.high_watermark ≤ new.high_watermark)))

  Follows-apply_over :
      (s : LeadershipRegistry host) (topic : Bytes) (l old : PartitionLeadership)
      → lookup (topic, l.partition) s.entries ≡ some old
      → Follows old (topic, l.partition) (apply_over s topic l (some old))
  Follows-apply_over s topic l old found =
      kept_if (Follows old (topic, l.partition)) (is_stale l old) _ _
        (λ _. (old, found, inr (refl, omega arith)))
        λ fresh.
          kept_if (Follows old (topic, l.partition)) (same_leadership l old) _ _
            (λ _. (old, found, inr (refl, omega arith)))
            λ _.
              (l, lookup-insert_self (topic, l.partition) l s.entries, fresh_watermark l old fresh)

  -- Whether an `apply` succeeds or not, a partition that had an entry has one afterwards with a
  -- later epoch, or with the same epoch and no lower high watermark.
  pub apply-Follows :
      (s : LeadershipRegistry host) (topic : Bytes) (l old : PartitionLeadership)
      → lookup (topic, l.partition) s.entries ≡ some old
      → Follows old (topic, l.partition) (apply s topic l)
  unfolding apply
  apply-Follows s topic l old found =
      kept_if (Follows old (topic, l.partition)) (is_node s.cluster.nodes l.leader_id) _ _
        (λ _.
          subst (λ current. Follows old (topic, l.partition) (apply_over s topic l current))
            (sym found) (Follows-apply_over s topic l old found))
        λ _. (old, found, inr (refl, omega arith))
