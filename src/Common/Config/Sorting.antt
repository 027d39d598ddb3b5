-- ===== src/Common/Config/Sorting.antt =====
-- `sort_unstable_by_key` of crates/common/src/lib.rs, as the sort of nodes by their ids.
use mathlib.Core.List.{Permᴰ}
use mathlib.Core.List.Permᴰ
use sevlamq.Prelude.{
  ◌∙◌, All, Bool-cases, List, [], arith, false, inl, inr, length, ltb, refl, ℕ, ◌<◌, ◌∷◌, ◌≡◌, ◌≢◌,
  ◌⊎◌,
}
use sevlamq.Common.Config.{ClusterNodeConfig, insert_by_id, sort_by_id}

-- The ids of the nodes rise.
abbrev pub Increasing : List ClusterNodeConfig → Type 0
Increasing [] = Unit {0}
Increasing (n ∷ rest) = All (λ m. n.id < m.id) rest × Increasing rest

abbrev pub Distinct : List ClusterNodeConfig → Type 0
Distinct [] = Unit {0}
Distinct (n ∷ rest) = All (λ m. n.id ≢ m.id) rest × Distinct rest

abbrev pub HasId : ℕ → List ClusterNodeConfig → Type 0
HasId k [] = ⊥
HasId k (n ∷ rest) = (n.id ≡ k) ⊎ HasId k rest

pub All-map :
    {A : Type 0} (P Q : A → Type 0) (l : List A) → ((a : A) → P a → Q a) → All P l → All Q l
All-map P Q [] f h = tt
All-map P Q (a ∷ l) f (h, hs) = (f a h, All-map P Q l f hs)

All-insert_by_id :
    (P : ClusterNodeConfig → Type 0) (n : ClusterNodeConfig) (l : List ClusterNodeConfig)
    → P n
    → All P l
    → All P (insert_by_id n l)
unfolding insert_by_id
All-insert_by_id P n [] p h = (p, tt)
All-insert_by_id P n (m ∷ l) p (h, hs) = elim (Bool-cases (ltb m.id n.id)) [
  | inl below ↦ rw below (h, All-insert_by_id P n l p hs)
  | inr above ↦ rw above (p, (h, hs))
]

HasId-insert_by_id :
    (k : ℕ) (n : ClusterNodeConfig) (l : List ClusterNodeConfig)
    → HasId k (n ∷ l)
    → HasId k (insert_by_id n l)
unfolding insert_by_id
HasId-insert_by_id k n [] h = h
HasId-insert_by_id k n (m ∷ l) h = elim (Bool-cases (ltb m.id n.id)) [
  | inl below ↦ rw below (later (λ has. HasId-insert_by_id k n l has) h)
  | inr above ↦ rw above h
]
  where
    later :
        (HasId k (n ∷ l) → HasId k (insert_by_id n l))
        → HasId k (n ∷ m ∷ l)
        → (m.id ≡ k) ⊎ HasId k (insert_by_id n l)
    later rest (inl e) = inr (rest (inl e))
    later rest (inr (inl e)) = inl e
    later rest (inr (inr has)) = inr (rest (inr has))

Perm-insert_by_id :
    (n : ClusterNodeConfig) (l : List ClusterNodeConfig) → Permᴰ (insert_by_id n l) (n ∷ l)
unfolding insert_by_id
Perm-insert_by_id n [] = Permᴰ.refl (n ∷ [])
Perm-insert_by_id n (m ∷ l) = elim (Bool-cases (ltb m.id n.id)) [
  | inl below ↦
      rw below (Permᴰ.trans (Permᴰ.cons refl (Perm-insert_by_id n l)) (Permᴰ.swap refl refl))
  | inr above ↦ rw above (Permᴰ.refl (n ∷ m ∷ l))
]

Increasing-insert_by_id :
    (n : ClusterNodeConfig) (l : List ClusterNodeConfig)
    → All (λ m. n.id ≢ m.id) l
    → Increasing l
    → Increasing (insert_by_id n l)
unfolding insert_by_id
Increasing-insert_by_id n [] h i = (tt, tt)
Increasing-insert_by_id n (m ∷ l) (h, hs) (low, i) = elim (Bool-cases (ltb m.id n.id)) [
  | inl below ↦ rw below (
    All-insert_by_id (λ k. m.id < k.id) n l (ground (arith, below)) low,
    Increasing-insert_by_id n l hs i,
  )
  | inr above ↦ rw above (
    (
      lower above,
      All-map (λ k. m.id < k.id) (λ k. n.id < k.id) l (λ k j. omega (arith, lower above, j)) low,
    ),
    (low, i),
  )
]
  where
    lower : ltb m.id n.id ≡ false → n.id < m.id
    lower above = ground (arith, above, h)

pub All-sort_by_id :
    (P : ClusterNodeConfig → Type 0) (l : List ClusterNodeConfig) → All P l → All P (sort_by_id l)
unfolding sort_by_id
All-sort_by_id P [] h = tt
All-sort_by_id P (n ∷ l) (h, hs) = All-insert_by_id P n (sort_by_id l) h (All-sort_by_id P l hs)

pub HasId-sort_by_id : (k : ℕ) (l : List ClusterNodeConfig) → HasId k l → HasId k (sort_by_id l)
unfolding sort_by_id
HasId-sort_by_id k [] h = h
HasId-sort_by_id k (n ∷ l) (inl e) = HasId-insert_by_id k n (sort_by_id l) (inl e)
HasId-sort_by_id k (n ∷ l) (inr has) =
    HasId-insert_by_id k n (sort_by_id l) (inr (HasId-sort_by_id k l has))

pub Perm-sort_by_id : (l : List ClusterNodeConfig) → Permᴰ (sort_by_id l) l
unfolding sort_by_id
Perm-sort_by_id [] = Permᴰ.nil
Perm-sort_by_id (n ∷ l) =
    Permᴰ.trans (Perm-insert_by_id n (sort_by_id l)) (Permᴰ.cons refl (Perm-sort_by_id l))

pub Increasing-sort_by_id : (l : List ClusterNodeConfig) → Distinct l → Increasing (sort_by_id l)
unfolding sort_by_id
Increasing-sort_by_id [] h = tt
Increasing-sort_by_id (n ∷ l) (h, hs) =
    Increasing-insert_by_id n (sort_by_id l) (All-sort_by_id (λ m. n.id ≢ m.id) l h)
      (Increasing-sort_by_id l hs)

pub length-Perm : (xs ys : List ClusterNodeConfig) → Permᴰ xs ys → length xs ≡ length ys
length-Perm xs ys Permᴰ.nil = refl
length-Perm xs ys (Permᴰ.cons e p) = omega (arith, length-Perm _ _ p)
length-Perm xs ys (Permᴰ.swap e f) = refl
length-Perm xs ys (Permᴰ.trans p q) = length-Perm _ _ p ∙ length-Perm _ _ q
