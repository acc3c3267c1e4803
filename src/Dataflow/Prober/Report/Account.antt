-- ===== src/Dataflow/Prober/Report/Account.antt =====
-- Every probe is accounted for in the metric.
use net_flux.Base.{
  ℕ, zero, suc, ◌+◌, ◌<◌, ◌≡◌, ◌≢◌, refl, ap, subst, ◌⊎◌, inl, inr, Bool, true, false, Option, none,
  some, List, [], ◌∷◌, length, length-append, leb, Bool-cases, Option-cases, Sum-cases, arith,
}
use net_flux.Base.Int.{ℤ, pos, negsuc}
use net_flux.Base.Text.{Str, codes, itoa}
use net_flux.Dataflow.Types.{NodeInfo}
use net_flux.Dataflow.Prober.Targets.{TargetError, NetApi, probe_target_urls-Target}
use net_flux.Dataflow.Prober.Report.{
  NetworkMetric, Lookup, unreachable_rtt, at_least_one, build_result, probe, probe_urls,
}
use net_flux.Dataflow.Prober.Report.Figures.{int32_of-small}
use net_flux.Dataflow.Prober.{
  ProbeError, Tally, World, no_tally, do_request, try_urls, do_probe, count_probe, attempt, give_up,
  before_probe, probes,
}

module _ (world : World) where
  -- An answer without an error has a status below 400.
  abbrev Fine : {E : Type 0} → E ⊎ ℕ → Type 0
  Fine (inl e) = Unit
  Fine (inr status) = status < 400

  do_request-Fine : (url : Str) (s : world.State) → Fine (do_request world url s).1
  unfolding do_request
  do_request-Fine url s = elim (Sum-cases (world.request url s).1) [
    | inl (e, failed) ↦ rw (do_request, failed) tt
    | inr (status, answered) ↦ elim (Bool-cases (leb 400 status)) [
      | inl bad ↦ rw (do_request, answered) (rw bad tt)
      | inr good ↦ rw (do_request, answered) (rw good (ground arith))
    ]
  ]

  try_urls-Fine :
      (err : Option ProbeError) (urls : List Str) (s : world.State)
      → Fine (try_urls world err urls s).1
  unfolding try_urls
  try_urls-Fine err [] s = tt
  try_urls-Fine err (url ∷ urls) s = elim (Option-cases (world.ctx_err s).1) [
    | inr (e, over) ↦ rw (try_urls, over) tt
    | inl going ↦ elim (Sum-cases (do_request world url (world.ctx_err s).0).1) [
      | inl (e, failed) ↦ rw (try_urls, going) (rw failed (try_urls-Fine (some e) urls _))
      | inr (status, answered) ↦
          rw (try_urls, going)
            (rw answered
              (subst (Fine {E = ProbeError}) answered (do_request-Fine url (world.ctx_err s).0)))
    ]
  ]

  -- What a tally of n probes satisfies.
  abbrev Counts : ℕ → Tally → Type 0
  Counts n t = (length t.rtts + t.failures ≡ n) × (t.last_status < 400)

  count_probe-Counts :
      (answer : Option ProbeError ⊎ ℕ) (took n : ℕ) (t : Tally)
      → Fine answer
      → Counts n t
      → Counts (n + 1) (count_probe answer took t)
  unfolding count_probe
  count_probe-Counts (inl (some e)) took n t good (all, fine) = (omega arith, fine)
  count_probe-Counts (inl none) took n t good (all, fine) =
      (omega (arith, length-append t.rtts (took ∷ [])), omega arith)
  count_probe-Counts (inr status) took n t good (all, fine) =
      (omega (arith, length-append t.rtts (took ∷ [])), good)

  attempt-Counts :
      (urls : List Str) (n : ℕ) (t : Tally) (s : world.State)
      → Counts n t
      → Counts (n + 1) (attempt world urls t s).1
  unfolding attempt do_probe
  attempt-Counts urls n t s counts =
      count_probe-Counts (do_probe world urls (world.now s).0).1 _ n t
        (try_urls-Fine none urls (world.now s).0) counts

  probes-Counts :
      (urls : List Str) (remaining : ℕ) (first : Bool) (n : ℕ) (t : Tally) (s : world.State)
      → Counts n t
      → Counts (n + remaining) (probes world urls remaining first t s).1
  unfolding probes
  probes-Counts urls zero first n t s counts = (omega (arith, counts.0), counts.1)
  probes-Counts urls (suc remaining) first n t s counts =
      elim (Sum-cases (before_probe world first s).1) [
        | inl (e, over) ↦ rw (probes, over) (unfold give_up in (omega (arith, counts.0), counts.1))
        | inr (_, go) ↦
            rw (probes, go)
              (let (all, fine) =
                  probes-Counts urls remaining false (n + 1) _ _
                    (attempt-Counts urls n t _ counts) in
                (omega (arith, all), fine))
      ]

-- The metric tells of so many probes, each answered or lost: either of none that was answered, or of
-- some, with a time that is not zero and the status below 400 of an answer.
abbrev pub Accounted : ℕ → NetworkMetric → Type 0
Accounted count m =
    (ok lost status : ℕ) × (url : Str) × (ok + lost ≡ count)
    × (status < 400)
    × (((ok ≡ 0) × (m.packet_loss ≡ (1, 1)) × (m.rtt ≡ unreachable_rtt) × (m.status_code ≡ pos 0))
        ⊎ ((0 < ok)
            × (m.packet_loss ≡ (lost, count))
            × (m.rtt ≢ pos 0)
            × (m.status_code ≡ pos status)
            × (m.extra
                ≡ (codes "url", url)
                  ∷ (codes "status_code", itoa (pos status))
                  ∷ (codes "success", itoa (pos ok))
                  ∷ (codes "total", itoa (pos count))
                  ∷ (codes "reachable", codes "true")
                  ∷ [])))

at_least_one-ne : (v : ℤ) → at_least_one v ≢ pos 0
unfolding at_least_one
at_least_one-ne (pos zero) e = ground arith
at_least_one-ne (pos (suc n)) e = ground arith
at_least_one-ne (negsuc n) e = ground arith

build_result-Accounted :
    (text : ProbeError → Str) (info : Option NodeInfo) (count : ℕ) (stamp : ℤ) (url dest_host : Str)
    (rtts : List ℕ) (failures last_status : ℕ) (last_err : Option ProbeError)
    → length rtts + failures ≡ count
    → last_status < 400
    → Accounted count (
        build_result text info count stamp url dest_host (record {
          rtts = rtts;
          failures = failures;
          last_status = last_status;
          last_err = last_err;
        }))
unfolding build_result
build_result-Accounted text info count stamp url dest_host [] failures status err all fine =
    (0, failures, status, url, all, fine, inl (refl, refl, refl, refl))
build_result-Accounted text info count stamp url dest_host (v ∷ vs) failures status err all fine = (
  length (v ∷ vs),
  failures,
  status,
  url,
  all,
  fine,
  inr (omega arith, refl, at_least_one-ne _, int32_of-small status (omega arith), refl),
)

pub probe_urls-Accounted :
    (world : World) (net : NetApi) (lookup_ip : Lookup world) (text : ProbeError → Str)
    (info : Option NodeInfo) (count : ℕ) (stamp : world.State → ℤ) (url : Str) (urls : List Str)
    (s : world.State)
    → (m : NetworkMetric) × ((probe_urls world net lookup_ip text info count stamp (url ∷ urls) s).1
        ≡ some m)
      × Accounted count m
unfolding probe_urls
probe_urls-Accounted world net lookup_ip text info count stamp url urls s =
    let (all, fine) =
      probes-Counts world (url ∷ urls) count true 0 no_tally s (refl, omega arith) in
    let t = (probes world (url ∷ urls) count true no_tally s).1 in
    (
      _,
      refl,
      build_result-Accounted text info count _ url _ t.rtts t.failures t.last_status t.last_err
          (omega (arith, all)) fine,
    )

-- `Probe` either fails for the address, before any probe, or leaves a metric in which each of the
-- probes is accounted for as answered or lost, however the context, the clock and the requests
-- turn out; the first URL that it takes is always there.
pub probe-Accounted :
    (world : World) (net : NetApi) (lookup_ip : Lookup world) (text : ProbeError → Str)
    (info : Option NodeInfo) (count : ℕ) (stamp : world.State → ℤ) (addr : Str) (s : world.State)
    → ((e : TargetError) × (probe world net lookup_ip text info count stamp addr s ≡ (s, inl e)))
      ⊎ ((m : NetworkMetric) × ((probe world net lookup_ip text info count stamp addr s).1
            ≡ inr (some m))
          × Accounted count m)
unfolding probe
probe-Accounted world net lookup_ip text info count stamp addr s =
    elim (probe_target_urls-Target net addr) [
      | inl (e, failed) ↦ inl (e, rw (probe, failed) refl)
      | inr (url, urls, made) ↦
          let (m, e, right) =
            probe_urls-Accounted world net lookup_ip text info count stamp url urls s in
          inr (m, rw (probe, made) (ap inr e), right)
    ]
