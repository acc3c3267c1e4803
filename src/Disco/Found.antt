-- ===== src/Disco/Found.antt =====
-- From a registration at the discovery server of examples/disco/server to the client of
-- pkg/naming/rpc_client.go that looks for the service.
use net_flux.Base.{
  ℕ, ◌≡◌, ◌≢◌, sym, ap, ◌∙◌, inl, inr, true, Option, none, some, List, [], ◌∷◌, ◌++◌, Option-cases,
  Sum-cases, arith,
}
use native.Mathlib.Decide.{ℕ_discrete}
use net_flux.Base.Map
use net_flux.Base.Int.{ℤ, FitsInt32, int32-FitsInt32}
use net_flux.Base.Text.{Str, itoa, atoi}
use net_flux.Base.Text.Decimal.{atoi-itoa, itoa_some}
use net_flux.Network.Packet.{NetError}
use net_flux.Network.Dispatch.{HandlerCall, on_cmd_discovery}
use net_flux.Naming.Types.{Instance, Service}
use net_flux.Naming.Nacos.{
  Host, register_instance, register_host, get_service_instances, from_instance, to_instances,
  instances_result,
}
use net_flux.Naming.Nacos.Registered.{
  fits-FitsInt32, NumbersFit, seen_as, registration_of, to_instances-registered,
}
use net_flux.Naming.Nacos.Clients.{Sdk, NacosClient}
use net_flux.Naming.RpcClient
use net_flux.Naming.RpcClient.{RpcClient, found, begin_lookup, handle_lookup_ack, LookupError}
use net_flux.Naming.RpcClient.Events.{Lookup, lookup_message}
use net_flux.Naming.RpcClient.Acks.Begun.{begin_lookup-ack}
use net_flux.Disco.Factory.{get_disco_client}
use net_flux.Disco.Server.{
  Packet, instance_packet, lookup_packet, lookup_ack_packet, State, handle, handle_discovery,
  handle_register, handle_lookup, lookup_answer, serve,
}
use net_flux.Disco.Kept.{KeepsHosts, LeavesAll, serve-Holds, get_disco_client-Holds}

-- The service that the server answers with, and the instances in it.
abbrev pub answered : Instance → List Instance → Service
answered inst instances = record {
  name = inst.instance_name;
  group_name = itoa inst.node;
  cluster = [];
  valid = true;
  instances = instances;
}

module _ (sdk : Sdk) (keeps : KeepsHosts sdk) where
  -- A registration that the server reports no error for.
  handle_register-Holds_new :
      {S : Type 0} (write : ℕ → ℕ → ℕ → Packet → S → S × Option NetError) (conn : ℕ)
      (inst : Instance) (st : State sdk write)
      → (handle_register sdk write conn inst st).1 ≡ none
      → keeps.Holds (registration_of inst) (handle_register sdk write conn inst st).0.0.1
  unfolding handle_register register_instance register_host from_instance
  handle_register-Holds_new write conn inst ((storage, s), w) done =
      let result = get_disco_client sdk conn inst.instance_name (storage, s) in
      elim (Option-cases result.1) [
        | inl e ↦ ground (arith, e, done)
        | inr (cli, e) ↦
            let reg = sdk.register cli.naming_client (registration_of inst) result.0.1 in
            let stays = keeps.registered cli.naming_client (registration_of inst) result.0.1 in
            elim (Option-cases reg.1) [
              | inl e' ↦ rw (handle_register, e) (stays e')
              | inr (err, e') ↦ ground (arith, e, e', done)
            ]
      ]

module _ (sdk : Sdk) where
  -- A lookup that the server reports no error for: what it has selected, and its answer.
  handle_lookup-none :
      {S : Type 0} (write : ℕ → ℕ → ℕ → Packet → S → S × Option NetError) (conn : ℕ)
      (request : Lookup) (st : State sdk write)
      → (handle_lookup sdk write conn request st).1 ≡ none
      → (cli : NacosClient) × (hosts : List Host) × ((sdk.select_all cli.naming_client
            request.service_name
            (itoa request.node)
            []
            (get_disco_client sdk conn [] st.0).0.1).1
          ≡ inr hosts)
        × ((handle_lookup sdk write conn request st).0.1
            ≡ (write conn 20 13 (lookup_answer request (to_instances hosts)) st.1).0)
  unfolding handle_lookup get_service_instances instances_result
  handle_lookup-none write conn request ((storage, s), w) done =
      let result = get_disco_client sdk conn [] (storage, s) in
      elim (Option-cases result.1) [
        | inl e ↦ ground (arith, e, done)
        | inr (cli, e) ↦
            let chosen =
              sdk.select_all cli.naming_client request.service_name (itoa request.node) []
                result.0.1 in
            elim (Sum-cases chosen.1) [
              | inl (err, e') ↦ ground (arith, e, e', done)
              | inr (hosts, e') ↦ (cli, hosts, e', ground (arith, e, e'))
            ]
      ]

itoa_given : (v : ℤ) → itoa v ≢ []
itoa_given v empty = let (c, s, e) = itoa_some v in ground (arith, e, empty)

-- What the client's lookup asks for.
abbrev pub request_for : Instance → Lookup
request_for inst = record { service_name = inst.instance_name; node = inst.node; healthy = true }

lookup_message-itoa :
    (inst : Instance) (r : RpcClient)
    → FitsInt32 inst.node
    → lookup_message inst.instance_name (itoa inst.node) r ≡ some (request_for inst)
unfolding lookup_message RpcClient.or_default
lookup_message-itoa inst r fits =
    let (c, s, e) = itoa_some inst.node in
    let read = ap atoi (sym e) ∙ atoi-itoa inst.node (fits-FitsInt32 inst.node fits) in
    rw (lookup_message, e) (ground (arith, read, int32-FitsInt32 inst.node fits))

get_service_instances-answered :
    (inst : Instance) (instances : List Instance)
    → RpcClient.get_service_instances inst.instance_name (inr (some (answered inst instances) ∷ []))
      ≡ inr instances
unfolding RpcClient.get_service_instances RpcClient.get_service RpcClient.find_named
get_service_instances-answered inst instances = ground arith

-- The connection has written an answer to the client's request that has the instance among others, as
-- it is seen after its registration; the answer wakes the lookup, which gets those instances.
abbrev pub Finds :
    {S : Type 0}
    → (ℕ → ℕ → ℕ → Packet → S → S × Option NetError)
    → ℕ
    → Instance
    → RpcClient
    → ℕ
    → S
    → S
    → Type 0
Finds write b inst r ch earlier later =
    (before : List Instance) × (host : Host) × (after : List Instance) × (let instances =
        before ++ (seen_as inst host ∷ after) in
      let services = some (answered inst instances) ∷ [] in
      let begun = (begin_lookup inst.instance_name (itoa inst.node) r).0 in
      (lookup_message inst.instance_name (itoa inst.node) r ≡ some (request_for inst))
      × (later ≡ (write b 20 13 (lookup_ack_packet services) earlier).0)
      × (Map.lookup ℕ_discrete ch (handle_lookup_ack (some services) begun).chans
          ≡ some (found services))
      × (RpcClient.get_service_instances inst.instance_name (inr services) ≡ inr instances))

module _ (sdk : Sdk) (keeps : KeepsHosts sdk) {S : Type 0}
    (write : ℕ → ℕ → ℕ → Packet → S → S × Option NetError) where
  -- Over a naming service that keeps hosts: an instance whose ports and node an `int32` holds is
  -- registered at the server without an error, then the server is asked anything but to register one of
  -- the same service, node and address or to remove one, and then, on any connection, for the
  -- services of that name and node, without an error. The server writes a LOOKUP_ACK with one service,
  -- which has the instance, as it is seen after its registration. A client that has begun a lookup for
  -- that name and node has sent this very request; the answer wakes it, and it gets the instances.
  pub registered-found :
      (inst : Instance) (a b : ℕ) (calls : List (ℕ × HandlerCall Packet)) (st : State sdk write)
      (r : RpcClient) (key : Str) (ch : ℕ)
      → NumbersFit inst
      → (handle sdk write a (on_cmd_discovery (some (instance_packet inst))) st).1 ≡ none
      → LeavesAll inst calls
      → let later =
          serve sdk write calls
            (handle sdk write a (on_cmd_discovery (some (instance_packet inst))) st).0 in
        let asked =
          handle sdk write b (on_cmd_discovery (some (lookup_packet (request_for inst)))) later in
        asked.1 ≡ none
        → (begin_lookup inst.instance_name (itoa inst.node) r).1 ≡ inr (key, ch)
        → Finds write b inst r ch later.1 asked.0.1
  unfolding handle handle_discovery lookup_answer
  registered-found inst a b calls st r key ch fits done leaves answered_ begun =
      let kept =
        serve-Holds sdk keeps write inst calls _ leaves
          (handle_register-Holds_new sdk keeps write a inst st done) in
      let later = serve sdk write calls (handle_register sdk write a inst st).0 in
      let had =
        get_disco_client-Holds sdk keeps (registration_of inst) b [] later.0.0 later.0.1 kept in
      let (cli, hosts, chosen, wrote) =
        handle_lookup-none sdk write b (request_for inst) later answered_ in
      let (before, host, after, split, is_host) =
        keeps.selected cli.naming_client (registration_of inst) _ hosts had chosen in
      let seen =
        ap to_instances split ∙ to_instances-registered inst before after host fits is_host in
      let instances = to_instances before ++ (seen_as inst host ∷ to_instances after) in
      (
        to_instances before,
        host,
        to_instances after,
        (
          lookup_message-itoa inst r fits.3,
          wrote ∙ ap (λ i. (write b 20 13 (lookup_answer (request_for inst) i) later.1).0) seen,
          begin_lookup-ack (answered inst instances) [] [] r key ch begun (itoa_given inst.node),
          get_service_instances-answered inst instances,
        ),
      )
