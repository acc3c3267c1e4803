-- ===== src/Dataflow/Prober/Report/Destination.antt =====
-- The destination and the URL that a metric names.
use net_flux.Base.{
  ℕ, ◌≡◌, refl, sym, subst, ◌⊎◌, inl, inr, true, Option, none, some, List, [], ◌∷◌, Option-cases,
}
use net_flux.Base.Int.{ℤ}
use net_flux.Base.Text.{Str, codes}
use net_flux.Dataflow.Types.{NodeInfo}
use net_flux.Dataflow.Prober.{ProbeError, Tally, World, no_tally, probes}
use net_flux.Dataflow.Prober.Targets.{NetApi, destination_host}
use net_flux.Dataflow.Prober.Report.{
  NetworkMetric, Lookup, ResolveError, first_ip, resolve_destination_ip, build_result,
  unreachable_extra, probe_urls,
}
use net_flux.Dataflow.Prober.Report.Account.{Accounted, probe_urls-Accounted}

-- What the name service found first for a host, or the host if it found nothing.
abbrev pub found_or : Str → ℕ ⊎ List Str → Str
found_or host (inl e) = host
found_or host (inr []) = host
found_or host (inr (ip ∷ ips)) = ip

-- The metric's first extra entry is the URL.
abbrev pub NamesUrl : Str → NetworkMetric → Type 0
NamesUrl url m = (rest : List (Str × Str)) × (m.extra ≡ (codes "url", url) ∷ rest)

build_result-names :
    (text : ProbeError → Str) (info : Option NodeInfo) (count : ℕ) (stamp : ℤ) (url dest_host : Str)
    (t : Tally)
    → let m = build_result text info count stamp url dest_host t in
      (m.destination_ip ≡ dest_host) × NamesUrl url m
unfolding build_result unreachable_extra
build_result-names text info count stamp url dest_host t = go t.rtts
  where
    go :
        (rtts : List ℕ)
        → let m = build_result text info count stamp url dest_host (record t { rtts = rtts }) in
          (m.destination_ip ≡ dest_host) × NamesUrl url m
    go [] = (refl, (_, refl))
    go (v ∷ vs) = (refl, (_, refl))

module _ (world : World) (net : NetApi) (lookup_ip : Lookup world) where
  -- The destination that belongs to a URL: its host, if that is an IP address, as the package net
  -- reads it; else what the name service, asked for this host, found first, or the host itself.
  abbrev pub Destined : Str → Str → Type 0
  Destined url dest =
      let host = destination_host net url in
      (net.parse_ip host ≡ some dest)
      ⊎ ((net.parse_ip host ≡ none)
          × (s : world.State) × (dest ≡ found_or host (lookup_ip host s).1))

  abbrev dest_of : Str → ResolveError ⊎ Str → Str
  dest_of url r = elim r as (λ _. Str) [ inl _ ↦ destination_host net url | inr found ↦ found ]

  dest_of-first :
      (url : Str) (r : ℕ ⊎ List Str)
      → dest_of url (first_ip r) ≡ found_or (destination_host net url) r
  unfolding first_ip
  dest_of-first url (inl e) = refl
  dest_of-first url (inr []) = refl
  dest_of-first url (inr (ip ∷ ips)) = refl

  resolve-Destined :
      (url : Str) (s : world.State)
      → Destined url (dest_of url (resolve_destination_ip world net lookup_ip url s).1)
  unfolding resolve_destination_ip
  resolve-Destined url s = elim (Option-cases (net.parse_ip (destination_host net url))) [
    | inl no_ip ↦ rw (resolve_destination_ip, no_ip) (inr (refl, s, dest_of-first url _))
    | inr (ip, is_ip) ↦ rw (resolve_destination_ip, is_ip) (inl refl)
  ]

  -- A metric of so many probes of a URL.
  abbrev pub Measures : ℕ → Str → NetworkMetric → Type 0
  Measures count url m = Accounted count m × NamesUrl url m × Destined url m.destination_ip

  abbrev Right : Str → Option NetworkMetric → Type 0
  Right url none = Unit
  Right url (some m) = NamesUrl url m × Destined url m.destination_ip

  probe_urls-Right :
      (text : ProbeError → Str) (info : Option NodeInfo) (count : ℕ) (stamp : world.State → ℤ)
      (url : Str) (urls : List Str) (s : world.State)
      → Right url (probe_urls world net lookup_ip text info count stamp (url ∷ urls) s).1
  unfolding probe_urls
  probe_urls-Right text info count stamp url urls s =
      let (s1, t) = probes world (url ∷ urls) count true no_tally s in
      let (s2, ip) = resolve_destination_ip world net lookup_ip url s1 in
      let (dest, names) = build_result-names text info count (stamp s2) url (dest_of url ip) t in
      (names, subst (Destined url) (sym dest) (resolve-Destined url s1))

  pub probe_urls-Measures :
      (text : ProbeError → Str) (info : Option NodeInfo) (count : ℕ) (stamp : world.State → ℤ)
      (url : Str) (urls : List Str) (s : world.State)
      → (m : NetworkMetric) × ((probe_urls world net lookup_ip text info count stamp
            (url ∷ urls)
            s).1
          ≡ some m)
        × Measures count url m
  probe_urls-Measures text info count stamp url urls s =
      let (m, made, right) =
        probe_urls-Accounted world net lookup_ip text info count stamp url urls s in
      let (names, destined) =
        subst (Right url) made (probe_urls-Right text info count stamp url urls s) in
      (m, made, (right, names, destined))
