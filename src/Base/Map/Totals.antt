-- ===== src/Base/Map/Totals.antt =====
-- Sums over the values of a map whose keys are distinct.
use Prim.Native.Nat.{ℕ, ◌+◌}
use mathlib.Core.Path.{◌≡◌, refl, sym, ap, ◌∙◌}
use mathlib.Core.List.{List, [], ◌∷◌}
use mathlib.Core.Option.{Option, none, some}
use native.Mathlib.Omega.{arith}
use net_flux.Base.Map
use net_flux.Base.Map.{lookup-insert, lookup-delete}

module _ {V : Type 0} (weight : V → ℕ) where
  abbrev pub weight_of : Option V → ℕ
  weight_of none = 0
  weight_of (some v) = weight v

module _ {K V : Type 0} (weight : V → ℕ) where
  unfoldable pub total : List (K × V) → ℕ
  total [] = 0
  total ((k, v) ∷ m) = weight v + total m

module _ {K V : Type 0} (dec : Discrete K) where
  -- No key stands in the list twice.
  unfoldable pub DistinctKeys : List (K × V) → Type 0
  DistinctKeys [] = Unit {0}
  DistinctKeys ((k, v) ∷ m) = (Map.lookup dec k m ≡ none) × DistinctKeys m

  pub insert-DistinctKeys :
      (k : K) (v : V) (m : List (K × V)) → DistinctKeys m → DistinctKeys (Map.insert dec k v m)
  unfolding DistinctKeys Map.insert
  insert-DistinctKeys k v [] ok = (unfold Map.lookup in refl, tt)
  insert-DistinctKeys k v ((j, w) ∷ m) (new, ok) =
      let rest = insert-DistinctKeys k v m ok in
      let other = lookup-insert dec k j v m in
      elim (dec j k) [
        | yes same ↦
            let missing = sym (ap (λ i. Map.lookup dec i m) same) ∙ new in
            ground (arith, same, missing, ok)
        | no differ ↦ ground (arith, differ, new, rest, other)
      ]

  pub delete-DistinctKeys :
      (k : K) (m : List (K × V)) → DistinctKeys m → DistinctKeys (Map.delete dec k m)
  unfolding DistinctKeys Map.delete
  delete-DistinctKeys k [] ok = ok
  delete-DistinctKeys k ((j, w) ∷ m) (new, ok) =
      let rest = delete-DistinctKeys k m ok in
      let gone = lookup-delete dec k j m in ground (arith, new, rest, gone)

  pub delete_missing :
      (k : K) (m : List (K × V)) → Map.lookup dec k m ≡ none → Map.delete dec k m ≡ m
  unfolding Map.lookup Map.delete
  delete_missing k [] missing = refl
  delete_missing k ((j, w) ∷ m) missing = ground (arith, missing, delete_missing k m)

  module _ (weight : V → ℕ) where
    pub total-insert :
        (k : K) (v : V) (m : List (K × V))
        → total weight (Map.insert dec k v m) + weight_of weight (Map.lookup dec k m)
          ≡ total weight m + weight v
    unfolding total Map.insert Map.lookup
    total-insert k v [] = omega arith
    total-insert k v ((j, w) ∷ m) = ground (arith, total-insert k v m)

    pub total-delete :
        (k : K) (m : List (K × V))
        → DistinctKeys m
        → total weight (Map.delete dec k m) + weight_of weight (Map.lookup dec k m) ≡ total weight m
    unfolding total Map.delete Map.lookup DistinctKeys
    total-delete k [] ok = refl
    total-delete k ((j, w) ∷ m) (new, ok) = elim (dec j k) [
      | yes same ↦
          let missing = sym (ap (λ i. Map.lookup dec i m) same) ∙ new in
          ground (arith, delete_missing k m missing)
      | no differ ↦ ground (arith, differ, total-delete k m ok)
    ]
