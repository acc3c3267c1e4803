-- ===== src/Balancer/Robin.antt =====
-- pkg/balancer/robin.go: the instances of a service in turn.
pub mod Rotation
pub mod Cached
use net_flux.Base.{
  ℕ, zero, suc, ◌+◌, ◌-◌, ◌%◌, ◌≡◌, ◌⊎◌, inl, inr, Bool, true, false, Option, none, some, List, [],
  ◌∷◌, ◌++◌, length, get_elem?, ltb, ◌==◌, if◌then◌else◌,
}
use net_flux.Base.Int.{ℤ, pos, ◌+ℤ◌}
use net_flux.Balancer.Client.{BalanceError, no_hosts, service_not_found, client_error, json_error}
use net_flux.Base.Text.{Str, is_empty_str, itoa}
use net_flux.Naming.Types.{Instance, Service, DiscoClient}

pub record RoundRobin : Type 0 where
  pub next_index : ℕ
  pub total_weight : ℤ
  pub group_name : Str

unfoldable pub new_round_robin : Str → RoundRobin
new_round_robin group_name = record {
  next_index = 0;
  total_weight = pos 0;
  group_name = group_name;
}

unfoldable pub sum_weights : List Instance → ℤ
sum_weights [] = pos 0
sum_weights (host ∷ hosts) = host.weight +ℤ sum_weights hosts

-- `Pick`; `none` is a nil service, and a result `inr none` an index out of range.
unfoldable pub pick : Option Service → RoundRobin → RoundRobin × (BalanceError ⊎ Option Instance)
pick none b = (b, inl no_hosts)
pick (some service) b =
    let n = length service.instances in
    let i = (b.next_index + 1) % n in
    if n == 0 then (b, inl no_hosts) else (
      record b { total_weight = sum_weights service.instances; next_index = i },
      inr (get_elem? service.instances i),
    )

-- `fmt.Sprintf("service_%s_%d", serviceName, nodeId)`
unfoldable pub robin_key : Str → ℤ → Str
robin_key service_name node =
    (115 ∷ 101 ∷ 114 ∷ 118 ∷ 105 ∷ 99 ∷ 101 ∷ 95 ∷ []) ++ service_name ++ (95 ∷ itoa node)

-- `marshal` and `unmarshal` are those of the library json, where a text can stand for a nil service,
-- and `text` is the `String` method of the message.
module _ (d : DiscoClient) (marshal : Service → ℕ ⊎ Str) (unmarshal : Str → ℕ ⊎ Option Service)
    (text : Service → Str) where
  -- The branch for an empty configuration: the service from the client, stored as JSON.
  unfoldable pub fetch : Str → Str → Str → d.State → d.State × (BalanceError ⊎ Option Service)
  fetch key service_name grp s =
      let (t, found) = d.get_service service_name grp s in
      elim found [
        | inl e ↦ (t, inl (client_error e))
        | inr none ↦ (t, inl service_not_found)
        | inr (some service) ↦ elim (marshal service) [
          | inl e ↦ (t, inl (json_error e))
          | inr buff ↦
              let (u, err) = d.set_config key buff t in
              elim err [ some e ↦ (u, inl (client_error e)) | none ↦ (u, inr (some service)) ]
        ]
      ]

  unfoldable pub service_of :
      Str → Str → Str → Str → d.State → d.State × (BalanceError ⊎ Option Service)
  service_of key service_name grp content s =
      let fetched = fetch key service_name grp s in
      if is_empty_str content then fetched else elim (unmarshal content) [
        | inl e ↦ (s, inl (json_error e))
        | inr service ↦ (s, inr service)
      ]

  -- The end of `Resolve`, with the service.
  unfoldable pub store_and_pick :
      Str
      → Option Service
      → RoundRobin
      → d.State
      → RoundRobin × d.State × (BalanceError ⊎ Option Instance)
  store_and_pick key none b s = (b, s, inl service_not_found)
  store_and_pick key (some service) b s =
      let (t, err) = d.set_config key (text service) s in
      let (b', picked) = pick (some service) b in
      elim err [ some e ↦ (b, t, inl (client_error e)) | none ↦ (b', t, picked) ]

  unfoldable pub resolve :
      Str → ℤ → RoundRobin → d.State → RoundRobin × d.State × (BalanceError ⊎ Option Instance)
  resolve service_name node b s =
      let key = robin_key service_name node in
      let (t, content) = d.get_config key s in
      elim content [
        | inl e ↦ (b, t, inl (client_error e))
        | inr stored ↦
            let (u, service) = service_of key service_name (itoa node) stored t in
            elim service [ inl e ↦ (b, u, inl e) | inr svc ↦ store_and_pick key svc b u ]
      ]
