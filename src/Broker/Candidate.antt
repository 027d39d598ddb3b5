-- ===== src/Broker/Candidate.antt =====
-- The choice of a new leader in crates/broker/src/lib.rs: what holds of the broker that is chosen.
use sevlamq.Prelude.{
  ◌≢◌, Bool, Bool-cases, List, Option, [], ap, arith, false, get_elem?, if◌then◌else◌, inl, inr,
  leb, leb→le, length, ltb, none, refl, some, subst, suc, sym, true, zero, ℕ, ◌∙◌, ◌∷◌, ◌≡◌, ◌≤◌,
}
use sevlamq.Broker.Placement.{at_least, choose_automatic_candidate, id_of, max_by_key, outranks}

abbrev pub AllBelow : ℕ → List (ℕ × ℕ) → Type 0
AllBelow bound [] = Unit {0}
AllBelow bound ((id, offset) ∷ rest) = (offset ≤ bound) × AllBelow bound rest

abbrev pub Occurs : ℕ × ℕ → List (ℕ × ℕ) → Type 0
Occurs entry entries = (i : ℕ) × (get_elem? entries i ≡ some entry)

outranks_le :
    (id offset id' offset' : ℕ) → outranks (id, offset) (id', offset') ≡ true → offset' ≤ offset
outranks_le id offset id' offset' h = ground arith

not_outranks_le :
    (id offset id' offset' : ℕ) → outranks (id, offset) (id', offset') ≡ false → offset ≤ offset'
not_outranks_le id offset id' offset' h = ground arith

le_through : (a b c : ℕ) → a ≤ b → b ≤ c → a ≤ c
le_through a b c h k = omega arith

Occurs-skip : (w a b : ℕ × ℕ) (rest : List (ℕ × ℕ)) → Occurs w (a ∷ rest) → Occurs w (a ∷ b ∷ rest)
Occurs-skip w a b rest (zero, at) = (0, at)
Occurs-skip w a b rest (suc i, at) = (suc (suc i), at)

-- The best of some entries is one of them, and no entry has a higher offset.
max_by_key-best :
    (best : ℕ × ℕ) (entries : List (ℕ × ℕ))
    → (w : ℕ × ℕ) × (max_by_key (some best) entries ≡ some w)
      × AllBelow (w.1) (best ∷ entries)
      × Occurs w (best ∷ entries)
max_by_key-best best [] = (best, refl, (omega arith, tt), (0, refl))
max_by_key-best (id, offset) ((id', offset') ∷ rest) =
    elim (Bool-cases (outranks (id, offset) (id', offset'))) [
      | inl first ↦
          (let (w, found, (below, all_below), (i, at)) = max_by_key-best (id, offset) rest in
            (
              w,
              rw (first) found,
              (
                below,
                (
                  le_through offset' offset (w.1) (outranks_le id offset id' offset' first) below,
                  all_below,
                ),
              ),
              Occurs-skip w (id, offset) (id', offset') rest (i, at),
            ))
      | inr second ↦
          (let (w, found, (below, all_below), (i, at)) = max_by_key-best (id', offset') rest in
            (
              w,
              rw (second) found,
              (
                le_through offset offset' (w.1) (not_outranks_le id offset id' offset' second)
                    below,
                (below, all_below),
              ),
              (suc i, at),
            ))
    ]

none_not_some : (n : ℕ) → ◌≢◌ {A = Option ℕ} none (some n)
none_not_some n h = ground (arith, h)

none_not_some_entry : (w : ℕ × ℕ) → ◌≢◌ {A = Option (ℕ × ℕ)} none (some w)
none_not_some_entry w h = ground (arith, h)

id_some : (w : ℕ × ℕ) (id : ℕ) → some (w.0) ≡ some id → w.0 ≡ id
id_some w id h = ground (arith, h)

entry_some : (a w : ℕ × ℕ) → some a ≡ some w → a ≡ w
entry_some a w h = ground (arith, h)

not_leb_le : (a b c : ℕ) → leb a b ≡ false → a ≤ c → b ≤ c
not_leb_le a b c h k = ground arith

AllBelow-if :
    (high_watermark bound id offset : ℕ) (rest : List (ℕ × ℕ)) (test : Bool)
    → leb high_watermark offset ≡ test
    → high_watermark ≤ bound
    → (AllBelow bound (at_least high_watermark rest) → AllBelow bound rest)
    → AllBelow bound
        (if test then (id, offset) ∷ at_least high_watermark rest else at_least high_watermark rest)
    → AllBelow bound ((id, offset) ∷ rest)
AllBelow-if high_watermark bound id offset rest true e h step (here, below) = (here, step below)
AllBelow-if high_watermark bound id offset rest false e h step below =
    (not_leb_le high_watermark offset bound e h, step below)

at_least-AllBelow :
    (high_watermark bound : ℕ) (entries : List (ℕ × ℕ))
    → high_watermark ≤ bound
    → AllBelow bound (at_least high_watermark entries)
    → AllBelow bound entries
at_least-AllBelow high_watermark bound [] h below = tt
at_least-AllBelow high_watermark bound ((id, offset) ∷ rest) h below =
    AllBelow-if high_watermark bound id offset rest (leb high_watermark offset) refl h
      (at_least-AllBelow high_watermark bound rest h) below

Occurs-if :
    (high_watermark id offset : ℕ) (rest : List (ℕ × ℕ)) (w : ℕ × ℕ) (test : Bool)
    → leb high_watermark offset ≡ test
    → (Occurs w (at_least high_watermark rest) → (high_watermark ≤ w.1) × Occurs w rest)
    → Occurs w
        (if test then (id, offset) ∷ at_least high_watermark rest else at_least high_watermark rest)
    → (high_watermark ≤ w.1) × Occurs w ((id, offset) ∷ rest)
Occurs-if high_watermark id offset rest w true e step (zero, at) = (
  subst (λ entry. high_watermark ≤ entry.1) (entry_some (id, offset) w at)
      (leb→le high_watermark offset e),
  (0, at),
)
Occurs-if high_watermark id offset rest w true e step (suc i, at) =
    let (h, (j, at')) = step (i, at) in (h, (suc j, at'))
Occurs-if high_watermark id offset rest w false e step occurs =
    let (h, (j, at')) = step occurs in (h, (suc j, at'))

at_least-Occurs :
    (high_watermark : ℕ) (entries : List (ℕ × ℕ)) (w : ℕ × ℕ)
    → Occurs w (at_least high_watermark entries)
    → (high_watermark ≤ w.1) × Occurs w entries
at_least-Occurs high_watermark [] w (i, at) = elim (none_not_some_entry w at) [ ]
at_least-Occurs high_watermark ((id, offset) ∷ rest) w occurs =
    Occurs-if high_watermark id offset rest w (leb high_watermark offset) refl
      (at_least-Occurs high_watermark rest w) occurs

-- The broker that takes over.
abbrev pub IsBest : List (ℕ × ℕ) → ℕ → ℕ → Type 0
IsBest offsets high_watermark id =
    (offset : ℕ) × Occurs (id, offset) offsets × (high_watermark ≤ offset) × AllBelow offset offsets

IsBest-candidates :
    (offsets candidates : List (ℕ × ℕ)) (high_watermark id : ℕ)
    → at_least high_watermark offsets ≡ candidates
    → id_of (max_by_key none candidates) ≡ some id
    → IsBest offsets high_watermark id
IsBest-candidates offsets [] high_watermark id same h = elim (none_not_some id h) [ ]
IsBest-candidates offsets (first ∷ rest) high_watermark id same h =
    let (w, found, below, occurs) = max_by_key-best first rest in
    let (reached, occurs') =
      at_least-Occurs high_watermark offsets w (subst (Occurs w) (sym same) occurs) in
    let below' =
      at_least-AllBelow high_watermark (w.1) offsets reached
        (subst (AllBelow (w.1)) (sym same) below) in
    let same_id = id_some w id (sym (ap id_of found) ∙ h) in
    (w.1, subst (λ n. Occurs (n, w.1) offsets) same_id occurs', reached, below')

-- The broker that is chosen to take over has answered with an offset that reaches the high
-- watermark, and no answer has a higher offset; the answers are as many as the required in-sync
-- replicas, or more.
pub choose_automatic_candidate-IsBest :
    (offsets : List (ℕ × ℕ)) (min_in_sync_replicas high_watermark id : ℕ)
    → choose_automatic_candidate offsets min_in_sync_replicas high_watermark ≡ some id
    → IsBest offsets high_watermark id × (min_in_sync_replicas ≤ length offsets)
unfolding choose_automatic_candidate
choose_automatic_candidate-IsBest offsets min_in_sync_replicas high_watermark id h =
    go (ltb (length offsets) min_in_sync_replicas) refl h
  where
    go :
        (test : Bool)
        → ltb (length offsets) min_in_sync_replicas ≡ test
        → (if test then none else id_of (max_by_key none (at_least high_watermark offsets)))
          ≡ some id
        → IsBest offsets high_watermark id × (min_in_sync_replicas ≤ length offsets)
    go true e h = elim (none_not_some id h) [ ]
    go false e h = (
      IsBest-candidates offsets (at_least high_watermark offsets) high_watermark id refl h,
      ground arith,
    )
