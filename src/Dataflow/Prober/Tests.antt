-- ===== src/Dataflow/Prober/Tests.antt =====
-- Probes of a server that answers the second request with an error and the fourth not at all.
use net_flux.Base.{
  ℕ, ◌-◌, ◌*◌, ◌^◌, ◌≤◌, ◌≡◌, refl, ◌⊎◌, inl, inr, none, some, List, [], ◌∷◌, arith,
}
use net_flux.Base.Int.{pos}
use net_flux.Base.Text.{codes, trim_space, trim_left, is_space}
use net_flux.Dataflow.Prober.{Tally, no_tally}
use net_flux.Dataflow.Prober.Targets.{
  TargetError, probe_target_urls, targets_of, before_slash, path_of, contains, has_prefix,
}
use net_flux.Dataflow.Prober.Durations.{average_duration, jitter_duration, sum, sum_distances}
use net_flux.Dataflow.Prober.Report.{NetworkMetric, build_result, probe, milliseconds}
use net_flux.Dataflow.Prober.Samples.{script, no_net, nobody, explain}
use net_flux.Dataflow.Prober.Report.Figures.{build_result-Within}
use net_flux.Dataflow.Prober.Report.Account.{Accounted, probe-Accounted}

abbrev answers : List (ℕ ⊎ ℕ)
answers = inr 200 ∷ inr 503 ∷ inr 204 ∷ inr 200 ∷ []

probe-Accounted_example :
    ((e : TargetError) × (probe script no_net nobody explain none 5
          (λ _. pos 7)
          (codes "a.b/c")
          (answers, 0)
        ≡ ((answers, 0), inl e)))
    ⊎ ((m : NetworkMetric) × ((probe script no_net nobody explain none 5
            (λ _. pos 7)
            (codes "a.b/c")
            (answers, 0)).1
          ≡ inr (some m))
        × Accounted 5 m)
probe-Accounted_example =
    probe-Accounted script no_net nobody explain none 5 (λ _. pos 7) (codes "a.b/c") (answers, 0)

targets :
    (probe_target_urls no_net (codes " a.b/c ")
      ≡ inr (codes "https://a.b/c" ∷ codes "http://a.b/c" ∷ []))
    × (probe_target_urls no_net (codes "a.b")
        ≡ inr (codes "https://a.b/" ∷ codes "http://a.b/" ∷ []))
unfolding probe_target_urls targets_of trim_space trim_left is_space contains has_prefix
    before_slash path_of
targets = (refl, refl)

abbrev measured : Tally
measured = record no_tally {
  rtts = 2 * 10 ^ 6 ∷ 9 * 10 ^ 6 ∷ 4 * 10 ^ 6 ∷ [];
  failures = 2;
  last_status = 200;
}

build_result-Within_example :
    let m = build_result explain none 5 (pos 7) (codes "http://a/") (codes "a") measured in
    (r : ℕ) × (j : ℕ) × (m.rtt ≡ pos r)
    × (m.jitter ≡ pos j)
    × (1 ≤ r)
    × (milliseconds (2 * 10 ^ 6) ≤ r)
    × ((r ≤ milliseconds (9 * 10 ^ 6)) ⊎ (r ≡ 1))
    × (j ≤ milliseconds (9 * 10 ^ 6 - 2 * 10 ^ 6))
build_result-Within_example =
    build_result-Within explain none 5 (pos 7) (codes "http://a/") (codes "a") measured (2 * 10 ^ 6)
      (9 * 10 ^ 6 ∷ 4 * 10 ^ 6 ∷ []) (2 * 10 ^ 6) (9 * 10 ^ 6) refl
      (omega arith, omega arith, (omega arith, omega arith, (omega arith, omega arith, tt)))
      (omega arith)

figures : (average_duration (2 ∷ 9 ∷ 4 ∷ []) ≡ 5) × (jitter_duration (2 ∷ 9 ∷ 4 ∷ []) ≡ 6)
unfolding average_duration jitter_duration sum sum_distances
figures = (refl, refl)
