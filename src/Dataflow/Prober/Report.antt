-- ===== src/Dataflow/Prober/Report.antt =====
-- The metric that `Probe` of pkg/dataflow/task/net_prober.go makes of its probes.
pub mod Figures
pub mod Account
pub mod Destination
use net_flux.Base.{
  ℕ, zero, ◌+◌, ◌/◌, ◌^◌, ◌⊎◌, inl, inr, Bool, true, Option, none, some, List, [], ◌∷◌, length,
}
use net_flux.Base.Int.{ℤ, pos, int32_of}
use net_flux.Base.Text.{Str, codes, itoa}
use net_flux.Dataflow.Types.{NodeInfo}
use net_flux.Dataflow.Prober.{ProbeError, Tally, World, no_tally, probes}
use net_flux.Dataflow.Prober.Targets.{TargetError, NetApi, probe_target_urls, destination_host}
use net_flux.Dataflow.Prober.Durations.{average_duration, jitter_duration}

unfoldable pub default_probe_count : ℕ
default_probe_count = 5

-- `gen.NetworkMetric`, with the loss as a dividend and a divisor.
pub record NetworkMetric : Type 0 where
  pub machine_id : Str
  pub node_id : Str
  pub source_ip : Str
  pub destination_ip : Str
  pub rtt : ℤ
  pub jitter : ℤ
  pub packet_loss : ℕ × ℕ
  pub status_code : ℤ
  pub timestamp : ℤ
  pub extra : List (Str × Str)

abbrev pub unreachable_rtt : ℤ
unreachable_rtt = pos 5000

abbrev pub unreachable_jitter : ℤ
unreachable_jitter = pos 5001

-- `Duration.Milliseconds`
unfoldable pub milliseconds : ℕ → ℕ
milliseconds d = d / 10 ^ 6

-- A time below a millisecond is reported as one.
unfoldable pub at_least_one : ℤ → ℤ
at_least_one (pos zero) = pos 1
at_least_one v = v

-- The extra entries of a destination that no probe reached; `text` is the `Error` of the error.
unfoldable pub unreachable_extra :
    (ProbeError → Str) → Str → ℕ → Option ProbeError → List (Str × Str)
unreachable_extra text url count err =
    (codes "url", url)
    ∷ (codes "status_code", codes "0")
    ∷ (codes "success", codes "0")
    ∷ (codes "total", itoa (pos count))
    ∷ (codes "reachable", codes "false")
    ∷ elim err [ none ↦ [] | some e ↦ (codes "error", text e) ∷ [] ]

abbrev pub node_text : (NodeInfo → Str) → Option NodeInfo → Str
node_text f none = []
node_text f (some n) = f n

-- `buildResult`, where `none` is a nil node and `stamp` the time in seconds.
unfoldable pub build_result :
    (ProbeError → Str) → Option NodeInfo → ℕ → ℤ → Str → Str → Tally → NetworkMetric
build_result text info count stamp url dest_host t = elim t.rtts [
  | [] ↦ record {
    machine_id = node_text (λ n. n.id) info;
    node_id = node_text (λ n. itoa n.node) info;
    source_ip = node_text (λ n. n.ip) info;
    destination_ip = dest_host;
    rtt = unreachable_rtt;
    jitter = unreachable_jitter;
    packet_loss = (1, 1);
    status_code = pos 0;
    timestamp = stamp;
    extra = unreachable_extra text url count t.last_err;
  }
  | v ∷ vs ↦ record {
    machine_id = node_text (λ n. n.id) info;
    node_id = node_text (λ n. itoa n.node) info;
    source_ip = node_text (λ n. n.ip) info;
    destination_ip = dest_host;
    rtt = at_least_one (int32_of (milliseconds (average_duration (v ∷ vs))));
    jitter = int32_of (milliseconds (jitter_duration (v ∷ vs)));
    packet_loss = (t.failures, count);
    status_code = int32_of t.last_status;
    timestamp = stamp;
    extra =
        (codes "url", url)
        ∷ (codes "status_code", itoa (pos t.last_status))
        ∷ (codes "success", itoa (pos (length (v ∷ vs))))
        ∷ (codes "total", itoa (pos count))
        ∷ (codes "reachable", codes "true")
        ∷ [];
  }
]

-- What the name service answers for a host.
abbrev pub Lookup : World → Type 0
Lookup world = Str → world.State → world.State × (ℕ ⊎ List Str)

pub data ResolveError : Type 0 where
  no_ip : ResolveError
  lookup_error : ℕ → ResolveError

unfoldable pub first_ip : ℕ ⊎ List Str → ResolveError ⊎ Str
first_ip (inl e) = inl (lookup_error e)
first_ip (inr []) = inl no_ip
first_ip (inr (ip ∷ ips)) = inr ip

module _ (world : World) (net : NetApi) (lookup_ip : Lookup world) where
  unfoldable pub resolve_destination_ip : Str → world.State → world.State × (ResolveError ⊎ Str)
  resolve_destination_ip raw_url s =
      let host = destination_host net raw_url in
      let (t, ips) = lookup_ip host s in
      elim (net.parse_ip host) [ some ip ↦ (s, inr ip) | none ↦ (t, first_ip ips) ]

  -- The rest of `Probe` once the URLs are known; `none` is an index out of range.
  unfoldable pub probe_urls :
      (ProbeError → Str)
      → Option NodeInfo
      → ℕ
      → (world.State → ℤ)
      → List Str
      → world.State
      → world.State × Option NetworkMetric
  probe_urls text info count stamp [] s = (s, none)
  probe_urls text info count stamp (url ∷ urls) s =
      let (s1, t) = probes world (url ∷ urls) count true no_tally s in
      let (s2, ip) = resolve_destination_ip url s1 in
      let dest_host = elim ip as (λ _. Str) [
        | inl _ ↦ destination_host net url
        | inr found ↦ found
      ] in
      (s2, some (build_result text info count (stamp s2) url dest_host t))

  -- `Probe`, with the result that it leaves: none if it fails.
  unfoldable pub probe :
      (ProbeError → Str)
      → Option NodeInfo
      → ℕ
      → (world.State → ℤ)
      → Str
      → world.State
      → world.State × (TargetError ⊎ Option NetworkMetric)
  probe text info count stamp addr s = elim (probe_target_urls net addr) [
    | inl e ↦ (s, inl e)
    | inr urls ↦ let (t, result) = probe_urls text info count stamp urls s in (t, inr result)
  ]
