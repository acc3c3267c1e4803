-- ===== src/Dataflow/Prober/Report/Figures.antt =====
-- The figures of a metric lie within the bounds of the measured times.
use net_flux.Base.{
  ℕ, zero, suc, ◌-◌, ◌*◌, ◌/◌, ◌^◌, ◌≤◌, ◌<◌, ◌≡◌, refl, ap, ◌⊎◌, inl, inr, Option, List, ◌∷◌,
  arith,
}
use net_flux.Base.Int.{ℤ, pos, int32_of}
use net_flux.Base.Text.{Str}
use net_flux.Dataflow.Types.{NodeInfo}
use net_flux.Dataflow.Prober.{ProbeError, Tally}
use net_flux.Dataflow.Prober.Durations.{average_duration, jitter_duration}
use net_flux.Dataflow.Prober.Durations.Bounds.{Within, average-jitter-Within}
use net_flux.Dataflow.Prober.Report.{build_result, milliseconds, at_least_one}

pub int32_of-small : (n : ℕ) → n < 2 ^ 31 → int32_of n ≡ pos n
unfolding int32_of
int32_of-small n small = ground arith

-- A reported time is that of some average, or one millisecond for a smaller one.
at_least_one-rtt :
    (n : ℕ)
    → n < 2 ^ 31
    → (r : ℕ) × (at_least_one (int32_of n) ≡ pos r) × (1 ≤ r) × (n ≤ r) × ((r ≡ n) ⊎ (r ≡ 1))
unfolding at_least_one
at_least_one-rtt zero small =
    (1, ap at_least_one (int32_of-small 0 small), omega arith, omega arith, inr refl)
at_least_one-rtt (suc n) small =
    (suc n, ap at_least_one (int32_of-small (suc n) small), omega arith, omega arith, inl refl)

-- Where some probe was answered and the times lie between two bounds, the upper one below 2^31
-- milliseconds, the metric's round trip time in milliseconds lies between the bounds' but is at
-- least one, and its jitter is at most their difference.
pub build_result-Within :
    (text : ProbeError → Str) (info : Option NodeInfo) (count : ℕ) (stamp : ℤ) (url dest_host : Str)
    (t : Tally) (v : ℕ) (vs : List ℕ) (lo hi : ℕ)
    → t.rtts ≡ v ∷ vs
    → Within lo hi (v ∷ vs)
    → hi < 2 ^ 31 * 10 ^ 6
    → let m = build_result text info count stamp url dest_host t in
      (r : ℕ) × (j : ℕ) × (m.rtt ≡ pos r)
      × (m.jitter ≡ pos j)
      × (1 ≤ r)
      × (milliseconds lo ≤ r)
      × ((r ≤ milliseconds hi) ⊎ (r ≡ 1))
      × (j ≤ milliseconds (hi - lo))
unfolding build_result milliseconds
build_result-Within text info count stamp url dest_host t v vs lo hi measured inside small =
    let (low, high, close) = average-jitter-Within lo hi v vs inside in
    let (r, e, one, above, near) =
      at_least_one-rtt (average_duration (v ∷ vs) / 10 ^ 6) (omega arith) in
    (
      r,
      jitter_duration (v ∷ vs) / 10 ^ 6,
      rw (build_result, measured) e,
      rw (build_result, measured)
          (int32_of-small (jitter_duration (v ∷ vs) / 10 ^ 6) (omega arith)),
      one,
      omega arith,
      elim near [ inl same ↦ inl (omega arith) | inr is_one ↦ inr is_one ],
      omega arith,
    )
