-- ===== src/Prelude/Map.antt =====
-- Hash maps as association lists with distinct use of the first binding.
use mathlib.Core.Path.{◌≡◌, refl}
use mathlib.Core.List.{List, [], ◌∷◌}
use mathlib.Core.Option.{Option, none, some}
use mathlib.Core.Bool.{true, false}
use native.Mathlib.Omega.{arith}
use sevlamq.Prelude.Tests.{if◌then◌else◌}
use sevlamq.Prelude.Keys.{Eq, ◌≟◌}

module _ {ℓ κ} {K : Type ℓ} {V : Type κ} ⦃e : Eq K⦄ where
  unfoldable pub lookup : K → List (K × V) → Option V
  lookup k [] = none
  lookup k ((j, v) ∷ m) = if j ≟ k then some v else lookup k m

  -- Replaces the binding of the key where it stands, or adds one at the end.
  unfoldable pub insert : K → V → List (K × V) → List (K × V)
  insert k v [] = (k, v) ∷ []
  insert k v ((j, w) ∷ m) = if j ≟ k then (k, v) ∷ m else (j, w) ∷ insert k v m

  abbrev no_bindings : List (K × V)
  no_bindings = []

  pub lookup-nil : (k : K) → lookup k no_bindings ≡ none
  unfolding lookup
  lookup-nil k = refl

  pub lookup-cons :
      (k j : K) (v : V) (m : List (K × V))
      → lookup k ((j, v) ∷ m) ≡ (if j ≟ k then some v else lookup k m)
  unfolding lookup
  lookup-cons k j v m = refl

  pub lookup-insert :
      (k j : K) (v : V) (m : List (K × V))
      → lookup j (insert k v m) ≡ (if k ≟ j then some v else lookup j m)
  unfolding lookup insert
  lookup-insert k j v [] = refl
  lookup-insert k j v ((i, w) ∷ m) =
      ground (arith, e.beq_iff k j, e.beq_iff i k, e.beq_iff i j, lookup-insert k j v m)

  pub lookup-insert_self : (k : K) (v : V) (m : List (K × V)) → lookup k (insert k v m) ≡ some v
  lookup-insert_self k v m = ground (arith, lookup-insert k k v m, e.beq_iff k k)

  pub lookup-insert_hit :
      (k j : K) (v : V) (m : List (K × V)) → (k ≟ j) ≡ true → lookup j (insert k v m) ≡ some v
  lookup-insert_hit k j v m same = rw (lookup-insert k j v m, same)

  pub lookup-insert_miss :
      (k j : K) (v : V) (m : List (K × V)) → (k ≟ j) ≡ false → lookup j (insert k v m) ≡ lookup j m
  lookup-insert_miss k j v m other = rw (lookup-insert k j v m, other)
