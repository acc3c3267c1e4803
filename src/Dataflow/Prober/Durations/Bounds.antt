-- ===== src/Dataflow/Prober/Durations/Bounds.antt =====
-- The average and the jitter of measured times lie within the bounds of the times.
use net_flux.Base.{ℕ, suc, ◌+◌, ◌-◌, ◌*◌, ◌/◌, ◌≤◌, List, [], ◌∷◌, length, arith}
use native.Mathlib.Nat.{le-div_iff_mul-le, div-lt_iff_lt-mul, mul-suc, add-mul}
use net_flux.Dataflow.Prober.Durations.{sum, average_duration, sum_distances, jitter_duration}

-- No value is below the one bound or above the other.
abbrev pub Within : ℕ → ℕ → List ℕ → Type 0
Within lo hi [] = Unit
Within lo hi (v ∷ vs) = (lo ≤ v) × (v ≤ hi) × Within lo hi vs

-- A quotient lies between bounds if the dividend does between their multiples.
div_le : (n k hi : ℕ) → n ≤ hi * suc k → n / suc k ≤ hi
div_le n k hi small =
    let bound =
      (div-lt_iff_lt-mul {k = suc k} {x = n} {y = hi + 1} (omega arith)).1
        (omega (arith, add-mul hi 1 (suc k))) in
    omega arith

le_div : (n k lo : ℕ) → lo * suc k ≤ n → lo ≤ n / suc k
le_div n k lo large = (le-div_iff_mul-le {k = suc k} (omega arith)).1 large

sum-Within :
    (lo hi : ℕ) (vs : List ℕ)
    → Within lo hi vs
    → (lo * length vs ≤ sum vs) × (sum vs ≤ hi * length vs)
unfolding sum
sum-Within lo hi [] inside = (omega arith, omega arith)
sum-Within lo hi (v ∷ vs) (low, high, inside) =
    let (below, above) = sum-Within lo hi vs inside in
    (omega (arith, mul-suc lo (length vs)), omega (arith, mul-suc hi (length vs)))

sum_distances-Within :
    (lo hi v : ℕ) (vs : List ℕ)
    → Within lo hi (v ∷ vs)
    → sum_distances (v ∷ vs) ≤ (hi - lo) * length vs
unfolding sum_distances
sum_distances-Within lo hi v [] inside = omega arith
sum_distances-Within lo hi v (w ∷ vs) (low, high, (low', high', inside)) =
    let rest = sum_distances-Within lo hi w vs (low', high', inside) in
    omega (arith, mul-suc (hi - lo) (length vs))

-- Of times within bounds, if there are any, the average lies within the same, and the jitter is at
-- most their difference.
pub average-jitter-Within :
    (lo hi v : ℕ) (vs : List ℕ)
    → Within lo hi (v ∷ vs)
    → (lo ≤ average_duration (v ∷ vs))
      × (average_duration (v ∷ vs) ≤ hi)
      × (jitter_duration (v ∷ vs) ≤ hi - lo)
unfolding average_duration jitter_duration
average-jitter-Within lo hi v [] inside =
    let (below, above) = sum-Within lo hi (v ∷ []) inside in
    (le_div (sum (v ∷ [])) 0 lo below, div_le (sum (v ∷ [])) 0 hi above, omega arith)
average-jitter-Within lo hi v (w ∷ vs) inside =
    let (below, above) = sum-Within lo hi (v ∷ w ∷ vs) inside in
    (
      le_div (sum (v ∷ w ∷ vs)) (length (w ∷ vs)) lo below,
      div_le (sum (v ∷ w ∷ vs)) (length (w ∷ vs)) hi above,
      div_le (sum_distances (v ∷ w ∷ vs)) (length vs) (hi - lo)
          (sum_distances-Within lo hi v (w ∷ vs) inside),
    )
