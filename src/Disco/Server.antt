-- ===== src/Disco/Server.antt =====
-- examples/disco/server/server.go: the event handler of the discovery server. A connection is its ID;
-- `write` is the `WritePacket` of a connection, which belongs to the environment.
use net_flux.Base.{ℕ, inl, inr, Option, none, some, List, [], ◌∷◌}
use net_flux.Base.Int.{ℤ, uint64}
use net_flux.Base.Text.{itoa}
use net_flux.Network.Packet.{NetError, unknown_command, other}
use net_flux.Network.Dispatch.{
  HandlerCall, on_cmd_system, on_cmd_discovery, on_cmd_data_report, on_cmd_config, on_cmd_event,
  on_cmd_control,
}
use net_flux.Naming.Types.{Instance, Service}
use net_flux.Naming.Nacos.{register_instance, deregister_instance, get_service_instances}
use net_flux.Naming.Nacos.Clients.{Sdk, naming_of}
use net_flux.Naming.RpcClient.Events.{Deregister, Lookup}
use net_flux.Disco.Factory.{Storage, get_disco_client, remove_disco_client}

-- The messages that the server tells apart; `Ping` and `Pong` have a timestamp.
pub data Packet : Type 0 where
  ping pong : ℤ → Packet
  instance_packet : Instance → Packet
  deregister_packet : Deregister → Packet
  lookup_packet : Lookup → Packet
  lookup_ack_packet : List (Option Service) → Packet
  other_packet : Packet

-- The error for a client that is nil.
abbrev pub no_disco_client : NetError
no_disco_client = other 0

-- An error of the SDK, as the handler returns it.
abbrev pub returned : Option ℕ → Option NetError
returned none = none
returned (some e) = some (other e)

-- The answer to a lookup, with one service.
unfoldable pub lookup_answer : Lookup → List Instance → Packet
lookup_answer request instances = lookup_ack_packet (
    some (record {
      name = request.service_name;
      group_name = itoa request.node;
      cluster = [];
      valid = request.healthy;
      instances = instances;
    })
    ∷ [])

module _ (sdk : Sdk) {S : Type 0} (write : ℕ → ℕ → ℕ → Packet → S → S × Option NetError) where
  -- The factory, the naming service and what the connections have written.
  abbrev pub State : Type 0
  State = (Storage × sdk.State) × S

  unfoldable pub handle_system : ℕ → Option Packet → State → State × Option NetError
  handle_system conn (some (ping timestamp)) (f, s) =
      let (t, err) = write conn 10 11 (pong timestamp) s in ((f, t), err)
  handle_system conn _ (f, s) = ((f, s), some unknown_command)

  unfoldable pub handle_register : ℕ → Instance → State → State × Option NetError
  handle_register conn inst (f, s) =
      let (f1, found) = get_disco_client sdk conn inst.instance_name f in
      elim found [
        | none ↦ ((f1, s), some no_disco_client)
        | some cli ↦
            let (t, err) = register_instance (naming_of sdk cli) inst f1.1 in
            (((f1.0, t), s), returned err)
      ]

  unfoldable pub handle_deregister : ℕ → Deregister → State → State × Option NetError
  handle_deregister conn d (f, s) =
      let (f1, found) = get_disco_client sdk conn d.instance_name f in
      elim found [
        | none ↦ ((f1, s), some no_disco_client)
        | some cli ↦
            let (t, err) =
              deregister_instance (naming_of sdk cli) d.instance_name (itoa d.node) d.ip
                (uint64 d.port) f1.1 in
            elim err [
              | some e ↦ (((f1.0, t), s), some (other e))
              | none ↦ ((remove_disco_client sdk conn d.instance_name (f1.0, t), s), none)
            ]
      ]

  unfoldable pub handle_lookup : ℕ → Lookup → State → State × Option NetError
  handle_lookup conn request (f, s) =
      let (f1, found) = get_disco_client sdk conn [] f in
      elim found [
        | none ↦ ((f1, s), some no_disco_client)
        | some cli ↦
            let (t, instances) =
              get_service_instances (naming_of sdk cli) request.service_name (itoa request.node) []
                f1.1 in
            elim instances [
              | inl e ↦ (((f1.0, t), s), some (other e))
              | inr found ↦
                  let (u, err) = write conn 20 13 (lookup_answer request found) s in
                  (((f1.0, t), u), err)
            ]
      ]

  unfoldable pub handle_discovery : ℕ → Option Packet → State → State × Option NetError
  handle_discovery conn (some (instance_packet inst)) st = handle_register conn inst st
  handle_discovery conn (some (deregister_packet d)) st = handle_deregister conn d st
  handle_discovery conn (some (lookup_packet request)) st = handle_lookup conn request st
  handle_discovery conn _ st = (st, none)

  -- The event handler of a connection. The messages of the other commands are only logged.
  unfoldable pub handle : ℕ → HandlerCall Packet → State → State × Option NetError
  handle conn (on_cmd_system m) st = handle_system conn m st
  handle conn (on_cmd_discovery m) st = handle_discovery conn m st
  handle conn (on_cmd_data_report subcmd m) st = (st, none)
  handle conn (on_cmd_config m) st = (st, none)
  handle conn (on_cmd_event m) st = (st, none)
  handle conn (on_cmd_control m) st = (st, none)

  -- Calls of the handler one after the other, on any connections.
  unfoldable pub serve : List (ℕ × HandlerCall Packet) → State → State
  serve [] st = st
  serve ((conn, call) ∷ calls) st = serve calls (handle conn call st).0
