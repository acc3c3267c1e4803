-- ===== src/Dataflow/Prober/Durations.antt =====
-- The statistics of pkg/dataflow/task/net_prober.go on the measured times, which are numbers of
-- nanoseconds: the clock that they are measured by does not go back.
pub mod Bounds
use net_flux.Base.{ℕ, zero, suc, ◌+◌, ◌-◌, ◌/◌, List, [], ◌∷◌, length}

unfoldable pub sum : List ℕ → ℕ
sum [] = 0
sum (v ∷ vs) = v + sum vs

-- `averageDuration`, where the sum stays within 64 bits; five probes do not come near that.
unfoldable pub average_duration : List ℕ → ℕ
average_duration [] = 0
average_duration (v ∷ vs) = sum (v ∷ vs) / length (v ∷ vs)

-- The absolute value of a difference.
abbrev pub distance : ℕ → ℕ → ℕ
distance a b = (a - b) + (b - a)

unfoldable pub sum_distances : List ℕ → ℕ
sum_distances [] = 0
sum_distances (v ∷ []) = 0
sum_distances (v ∷ w ∷ vs) = distance w v + sum_distances (w ∷ vs)

unfoldable pub jitter_duration : List ℕ → ℕ
jitter_duration [] = 0
jitter_duration (v ∷ []) = 0
jitter_duration (v ∷ w ∷ vs) = sum_distances (v ∷ w ∷ vs) / length (w ∷ vs)
