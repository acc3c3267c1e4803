-- ===== src/Disco/Kept.antt =====
-- What the naming service is relied on for by the discovery server, and that the server's handlers
-- leave an instance registered.
use net_flux.Base.{
  ℕ, ◌≡◌, ◌≢◌, ◌⊎◌, inl, inr, Option, none, some, List, [], ◌∷◌, ◌++◌, Option-cases, Sum-cases,
  arith,
}
use net_flux.Base.Map
use net_flux.Base.Text.{Str, itoa}
use net_flux.Network.Packet.{NetError}
use net_flux.Network.Dispatch.{HandlerCall, on_cmd_system, on_cmd_discovery}
use net_flux.Naming.Types.{Instance}
use net_flux.Naming.Nacos.{
  Host, Registration, register_instance, register_host, get_service_instances, from_instance,
}
use net_flux.Naming.Nacos.Registered.{IsHostOf, registration_of}
use net_flux.Naming.Nacos.Clients.{Sdk, NacosClient, naming_of, new_nacos_client}
use net_flux.Naming.RpcClient.Events.{Lookup}
use net_flux.Disco.Factory.{
  Storage, name_or_web, item_of, find_client, keep_client, get_disco_client, close_each,
}
use net_flux.Disco.Server.{
  Packet, ping, instance_packet, deregister_packet, lookup_packet, State, handle_system,
  handle_register, handle_lookup, handle_discovery, handle, serve,
}

-- Registrations of different services, groups or addresses.
abbrev pub Separate : Registration → Registration → Type 0
Separate p q =
    (p.service_name ≢ q.service_name)
    ⊎ (p.group_name ≢ q.group_name)
    ⊎ (p.ip ≢ q.ip)
    ⊎ (p.port ≢ q.port)

-- A naming service that keeps what is registered without an error, until it is registered anew or
-- something is removed or closed. Any client that selects a service's hosts without an error gets
-- those that are registered.
pub record KeepsHosts (sdk : Sdk) : Type 1 where
  pub Holds : Registration → sdk.State → Type 0
  pub registered :
      (cli : ℕ) (p : Registration) (s : sdk.State)
      → (sdk.register cli p s).1 ≡ none
      → Holds p (sdk.register cli p s).0
  pub kept_by_register :
      (cli : ℕ) (p q : Registration) (s : sdk.State)
      → Separate q p
      → Holds p s
      → Holds p (sdk.register cli q s).0
  pub kept_by_config :
      (p : Registration) (s : sdk.State) → Holds p s → Holds p (sdk.create_config_client s).0
  pub kept_by_naming :
      (p : Registration) (s : sdk.State) → Holds p s → Holds p (sdk.create_naming_client s).0
  pub kept_by_select :
      (cli : ℕ) (p : Registration) (name group : Str) (s : sdk.State)
      → Holds p s
      → Holds p (sdk.select_all cli name group [] s).0
  pub selected :
      (cli : ℕ) (p : Registration) (s : sdk.State) (hosts : List Host)
      → Holds p s
      → (sdk.select_all cli p.service_name p.group_name [] s).1 ≡ inr hosts
      → (before : List Host) × (host : Host) × (after : List Host) × (hosts
          ≡ before ++ (host ∷ after))
        × IsHostOf p host

-- A call that registers no instance of the same service, node and address, and removes none.
unfoldable pub Leaves : Instance → HandlerCall Packet → Type 0
Leaves inst (on_cmd_discovery (some (instance_packet j))) =
    Separate (registration_of j) (registration_of inst)
Leaves inst (on_cmd_discovery (some (deregister_packet d))) = ⊥
Leaves inst _ = Unit {0}

unfoldable pub LeavesAll : Instance → List (ℕ × HandlerCall Packet) → Type 0
LeavesAll inst [] = Unit {0}
LeavesAll inst ((conn, call) ∷ calls) = Leaves inst call × LeavesAll inst calls

-- A client that was not found is kept, and nothing closed.
keep_client-none :
    (conn : ℕ) (name : Str) (cli : NacosClient) (storage : Storage)
    → find_client conn name storage ≡ none
    → (keep_client conn name cli storage).2 ≡ []
unfolding keep_client find_client item_of Map.lookup
keep_client-none conn name cli storage missing = ground (arith, missing)

module _ (sdk : Sdk) (keeps : KeepsHosts sdk) where
  new_nacos_client-Holds :
      (p : Registration) (s : sdk.State)
      → keeps.Holds p s
      → keeps.Holds p (new_nacos_client sdk s).0
  unfolding new_nacos_client
  new_nacos_client-Holds p s h =
      let h1 = keeps.kept_by_config p s h in
      let h2 = keeps.kept_by_naming p (sdk.create_config_client s).0 h1 in ground (arith, h1, h2)

  pub get_disco_client-Holds :
      (p : Registration) (conn : ℕ) (name : Str) (storage : Storage) (s : sdk.State)
      → keeps.Holds p s
      → keeps.Holds p (get_disco_client sdk conn name (storage, s)).0.1
  unfolding get_disco_client close_each
  get_disco_client-Holds p conn name storage s h =
      let key = name_or_web name in
      let made = new_nacos_client-Holds p s h in
      elim (Option-cases (find_client conn key storage)) [
        | inr (cli, e) ↦ rw (get_disco_client, e) h
        | inl e ↦ elim (Sum-cases (new_nacos_client sdk s).1) [
          | inl (err, e') ↦ rw (get_disco_client, e, e') made
          | inr (cli, e') ↦
              let closed = keep_client-none conn key cli storage e in
              rw (get_disco_client, e, e', closed) made
        ]
      ]

  register_instance-Holds :
      (cli : NacosClient) (p : Registration) (inst : Instance) (s : sdk.State)
      → Separate (registration_of inst) p
      → keeps.Holds p s
      → keeps.Holds p (register_instance (naming_of sdk cli) inst s).0
  unfolding register_instance register_host from_instance
  register_instance-Holds cli p inst s other h =
      keeps.kept_by_register cli.naming_client p (registration_of inst) s other h

  handle_register-Holds :
      {S : Type 0} (write : ℕ → ℕ → ℕ → Packet → S → S × Option NetError) (p : Registration)
      (conn : ℕ) (inst : Instance) (st : State sdk write)
      → Separate (registration_of inst) p
      → keeps.Holds p st.0.1
      → keeps.Holds p (handle_register sdk write conn inst st).0.0.1
  unfolding handle_register
  handle_register-Holds write p conn inst ((storage, s), w) other h =
      let result = get_disco_client sdk conn inst.instance_name (storage, s) in
      let had = get_disco_client-Holds p conn inst.instance_name storage s h in
      elim (Option-cases result.1) [
        | inl e ↦ rw (handle_register, e) had
        | inr (cli, e) ↦
            rw (handle_register, e) (register_instance-Holds cli p inst result.0.1 other had)
      ]

  handle_lookup-Holds :
      {S : Type 0} (write : ℕ → ℕ → ℕ → Packet → S → S × Option NetError) (p : Registration)
      (conn : ℕ) (request : Lookup) (st : State sdk write)
      → keeps.Holds p st.0.1
      → keeps.Holds p (handle_lookup sdk write conn request st).0.0.1
  unfolding handle_lookup get_service_instances
  handle_lookup-Holds write p conn request ((storage, s), w) h =
      let result = get_disco_client sdk conn [] (storage, s) in
      let had = get_disco_client-Holds p conn [] storage s h in
      elim (Option-cases result.1) [
        | inl e ↦ rw (handle_lookup, e) had
        | inr (cli, e) ↦
            let kept =
              keeps.kept_by_select cli.naming_client p request.service_name (itoa request.node)
                result.0.1 had in
            let hosts =
              get_service_instances (naming_of sdk cli) request.service_name (itoa request.node) []
                result.0.1 in
            elim (Sum-cases hosts.1) [
              | inl (err, e') ↦ rw (handle_lookup, e, get_service_instances, e') kept
              | inr (insts, e') ↦ rw (handle_lookup, e, get_service_instances, e') kept
            ]
      ]

  handle-Holds :
      {S : Type 0} (write : ℕ → ℕ → ℕ → Packet → S → S × Option NetError) (inst : Instance)
      (conn : ℕ) (call : HandlerCall Packet) (st : State sdk write)
      → Leaves inst call
      → keeps.Holds (registration_of inst) st.0.1
      → keeps.Holds (registration_of inst) (handle sdk write conn call st).0.0.1
  unfolding handle handle_discovery handle_system Leaves
  handle-Holds write inst conn (on_cmd_discovery (some (instance_packet j))) st leaves h =
      handle_register-Holds write (registration_of inst) conn j st leaves h
  handle-Holds write inst conn (on_cmd_discovery (some (lookup_packet request))) st leaves h =
      handle_lookup-Holds write (registration_of inst) conn request st h
  handle-Holds write inst conn (on_cmd_discovery (some (deregister_packet d))) st leaves h =
      absurd leaves
  handle-Holds write inst conn (on_cmd_system (some (ping timestamp))) st leaves h = h
  handle-Holds write inst conn call st leaves h = h

  -- Whatever the server is asked in between.
  pub serve-Holds :
      {S : Type 0} (write : ℕ → ℕ → ℕ → Packet → S → S × Option NetError) (inst : Instance)
      (calls : List (ℕ × HandlerCall Packet)) (st : State sdk write)
      → LeavesAll inst calls
      → keeps.Holds (registration_of inst) st.0.1
      → keeps.Holds (registration_of inst) (serve sdk write calls st).0.1
  unfolding serve LeavesAll
  serve-Holds write inst [] st leaves h = h
  serve-Holds write inst ((conn, call) ∷ calls) st (first, rest) h =
      serve-Holds write inst calls (handle sdk write conn call st).0 rest
        (handle-Holds write inst conn call st first h)
