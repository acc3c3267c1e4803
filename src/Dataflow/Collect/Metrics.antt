-- ===== src/Dataflow/Collect/Metrics.antt =====
-- What a run of the collection sends.
use net_flux.Base.{ℕ, ◌≡◌, ◌⊎◌, inl, inr, Bool, false, Option, none, List, [], ◌∷◌, ◌++◌}
use net_flux.Base.Int.{ℤ}
use net_flux.Base.Text.{Str}
use net_flux.Dataflow.Prober.{ProbeError, World}
use net_flux.Dataflow.Prober.Targets.{NetApi, TargetError, probe_target_urls}
use net_flux.Dataflow.Prober.Report.{NetworkMetric, Lookup}
use net_flux.Dataflow.Prober.Report.Destination.{Measures}

-- A log as the client, which is open: what `Write` sends with its codes.
abbrev pub Log : Type 0
Log = List (ℕ × ℕ × NetworkMetric)

abbrev pub never_closed : Log → Bool
never_closed log = false

abbrev pub log_write : ℕ → ℕ → NetworkMetric → Log → Log × Option ℕ
log_write cmd sub_cmd m log = (log ++ (cmd, sub_cmd, m) ∷ [], none)

abbrev pub entries : List NetworkMetric → Log
entries [] = []
entries (m ∷ ms) = (30, 11, m) ∷ entries ms

module _ (world : World) (net : NetApi) (lookup_ip : Lookup world) (text : ProbeError → Str)
    (stamp : world.State → ℤ) where
  -- One metric of five probes for each address that URLs can be made of, in the order of the
  -- addresses, and none for the others.
  abbrev pub Collected : List Str → List NetworkMetric → Type 0
  Collected [] ms = ms ≡ []
  Collected (addr ∷ addrs) ms =
      ((e : TargetError) × (probe_target_urls net addr ≡ inl e) × Collected addrs ms)
      ⊎ ((url : Str) × (urls : List Str) × (m : NetworkMetric) × (rest : List NetworkMetric)
          × (probe_target_urls net addr ≡ inr (url ∷ urls))
          × (ms ≡ m ∷ rest)
          × Measures world net lookup_ip 5 url m
          × Collected addrs rest)
