-- ===== src/Balancer/Robin/Cached.antt =====
-- What `Resolve` leaves in the configuration, and what the next one makes of it.
use net_flux.Base.{
  ℕ, ◌<◌, length, ◌≡◌, ◌⊎◌, inl, inr, false, Option, none, some, Option-cases, Sum-cases, arith,
}
use net_flux.Base.Int.{ℤ}
use net_flux.Balancer.Client.{json_error}
use net_flux.Base.Text.{Str, is_empty_str, itoa}
use net_flux.Naming.Types.{Instance, Service, DiscoClient, KeepsConfig}
use net_flux.Balancer.Robin.{RoundRobin, robin_key, service_of, pick, store_and_pick, resolve}

module _ (d : DiscoClient) (marshal : Service → ℕ ⊎ Str) (unmarshal : Str → ℕ ⊎ Option Service)
    (text : Service → Str) where
  -- The text of a service that has instances is not JSON, and not blank.
  pub record NotJson : Type 0 where
    pub error : Service → ℕ
    pub refused : (s : Service) → 0 < length s.instances → unmarshal (text s) ≡ inl (error s)
    pub visible : (s : Service) → 0 < length s.instances → is_empty_str (text s) ≡ false

  store_and_pick-keeps :
      (key : Str) (svc : Option Service) (b : RoundRobin) (s : d.State) (x : Option Instance)
      → KeepsConfig d
      → (store_and_pick d marshal unmarshal text key svc b s).2 ≡ inr x
      → (service : Service) × (0 < length service.instances)
        × ((d.get_config key (store_and_pick d marshal unmarshal text key svc b s).1).1
            ≡ inr (text service))
  unfolding store_and_pick pick
  store_and_pick-keeps key none b s x keeps h = absurd (ground arith)
  store_and_pick-keeps key (some service) b s x keeps h =
      elim (Option-cases (d.set_config key (text service) s).1) [
        | inl done ↦
            (service, ground arith, rw (done, store_and_pick) (keeps key (text service) s done))
        | inr (e, bad) ↦ absurd (ground arith)
      ]

  resolve-keeps :
      (service_name : Str) (node : ℤ) (b : RoundRobin) (s : d.State) (x : Option Instance)
      → KeepsConfig d
      → (resolve d marshal unmarshal text service_name node b s).2 ≡ inr x
      → (service : Service) × (0 < length service.instances)
        × ((d.get_config
              (robin_key service_name node)
              (resolve d marshal unmarshal text service_name node b s).1).1
            ≡ inr (text service))
  unfolding resolve
  resolve-keeps service_name node b s x keeps h =
      elim (Sum-cases (d.get_config (robin_key service_name node) s).1) [
        | inl (e, bad) ↦ absurd (ground arith)
        | inr (stored, good) ↦
            let t = (d.get_config (robin_key service_name node) s).0 in
            elim (Sum-cases
              (service_of d marshal unmarshal text (robin_key service_name node) service_name
                (itoa node) stored t).1) [
                  | inl (e, bad) ↦ absurd (ground arith)
                  | inr (svc, found) ↦
                      let u =
                        (service_of d marshal unmarshal text (robin_key service_name node)
                          service_name (itoa node) stored t).0 in
                      let (service, many, kept) =
                        store_and_pick-keeps (robin_key service_name node) svc b u x keeps
                          (ground arith) in
                      (service, many, ground (arith, kept))
                ]
      ]

  resolve-text :
      (service_name : Str) (node : ℤ) (b : RoundRobin) (s : d.State) (service : Service)
      → NotJson
      → 0 < length service.instances
      → (d.get_config (robin_key service_name node) s).1 ≡ inr (text service)
      → (e : ℕ) × ((resolve d marshal unmarshal text service_name node b s).2 ≡ inl (json_error e))
  unfolding resolve service_of
  resolve-text service_name node b s service not_json many stored = (
    not_json.error service,
    ground (arith, not_json.refused service many, not_json.visible service many),
  )

  -- For a client that keeps its configuration, where the text of a service message that has instances
  -- is not blank and the library json refuses it: once `Resolve` has returned an instance, the next `Resolve` of the same
  -- service and node fails with an error of the library json.
  pub resolve_again :
      (service_name : Str) (node : ℤ) (b b' : RoundRobin) (s : d.State) (x : Option Instance)
      → KeepsConfig d
      → NotJson
      → (resolve d marshal unmarshal text service_name node b s).2 ≡ inr x
      → (e : ℕ) × ((resolve d marshal unmarshal text service_name node b'
            (resolve d marshal unmarshal text service_name node b s).1).2
          ≡ inl (json_error e))
  resolve_again service_name node b b' s x keeps not_json h =
      let (service, many, stored) = resolve-keeps service_name node b s x keeps h in
      resolve-text service_name node b' (resolve d marshal unmarshal text service_name node b s).1
        service not_json many stored
