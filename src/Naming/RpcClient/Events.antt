-- ===== src/Naming/RpcClient/Events.antt =====
-- The messages of pkg/naming/rpc_client.go other than a lookup, and the event handler that it puts in
-- front of the client's own. The client's `Write` is a parameter, as is `ack_of`, which tells whether
-- a message is a `LookupAck` and gives its services.
use net_flux.Base.{ℕ, Bool, true, false, Option, none, some, List, if◌then◌else◌}
use net_flux.Base.Int.{ℤ, int32, int32_of}
use net_flux.Base.Map
use net_flux.Base.Text.{Str, atoi}
use net_flux.Network.Packet.{NetError}
use net_flux.Network.Dispatch.{HandlerCall, on_cmd_discovery}
use net_flux.Naming.Types.{Instance, Service}
use net_flux.Naming.RpcClient.{RpcClient, or_default, handle_lookup_ack}

-- `gen.Deregister`
pub record Deregister : Type 0 where
  pub instance_name : Str
  pub node : ℤ
  pub ip : Str
  pub port : ℤ

-- `gen.Lookup`
pub record Lookup : Type 0 where
  pub service_name : Str
  pub node : ℤ
  pub healthy : Bool

-- The message that `lookup` writes, where the group is a number.
unfoldable pub lookup_message : Str → Str → RpcClient → Option Lookup
lookup_message service_name group_name r = elim (atoi (or_default group_name r.group_name)) [
  | none ↦ none
  | some node ↦ some (record { service_name = service_name; node = int32 node; healthy = true })
]

pub data RequestError : Type 0 where
  no_client invalid_group : RequestError
  write_error : ℕ → RequestError

abbrev write_result : Option ℕ → Option RequestError
write_result none = none
write_result (some e) = some (write_error e)

unfoldable pub deregister_message : Str → ℤ → Str → ℕ → Deregister
deregister_message service_name node ip port = record {
  instance_name = service_name;
  node = int32 node;
  ip = ip;
  port = int32_of port;
}

-- The node that a group stands for, or else the client's own group.
unfoldable pub node_of : Str → Str → Option ℤ
node_of group_name own = elim (atoi group_name) [ some node ↦ some node | none ↦ atoi own ]

unfoldable pub register_instance :
    {S : Type 0}
    → (ℕ → ℕ → Instance → S → S × Option ℕ)
    → RpcClient
    → Instance
    → S
    → S × Option RequestError
register_instance write r inst s =
    let (t, err) = write 20 10 inst s in
    if r.has_cli then (t, write_result err) else (s, some no_client)

unfoldable pub deregister_instance :
    {S : Type 0}
    → (ℕ → ℕ → Deregister → S → S × Option ℕ)
    → RpcClient
    → Str
    → Str
    → Str
    → ℕ
    → S
    → S × Option RequestError
deregister_instance write r service_name group_name ip port s =
    if r.has_cli
    then elim (node_of group_name r.group_name) [
      | none ↦ (s, some invalid_group)
      | some node ↦
          let (t, err) = write 20 11 (deregister_message service_name node ip port) s in
          (t, write_result err)
    ]
    else (s, some no_client)

-- A handler, which may be nil.
abbrev pub Handler : Type 0 → Type 0 → Type 0
Handler Msg S = Option (HandlerCall Msg → S → S × Option NetError)

unfoldable pub call_inner :
    {Msg S : Type 0} → Handler Msg S → HandlerCall Msg → S → S × Option NetError
call_inner none call s = (s, none)
call_inner (some handler) call s = handler call s

module _ {Msg S : Type 0} (ack_of : Msg → Option (List (Option Service)))
    (inner : Handler Msg S) where
  -- The client after `OnCmdDiscovery` has looked at the message; `has_lookup` is false for a client
  -- that does not handle such answers.
  unfoldable pub acknowledge : Bool → Option Msg → RpcClient → RpcClient
  acknowledge false m r = r
  acknowledge true none r = r
  acknowledge true (some m) r = elim (ack_of m) [
    | none ↦ r
    | some services ↦ handle_lookup_ack (some services) r
  ]

  -- `rpcEventHandler`, with its methods for commands.
  unfoldable pub wrapped :
      Bool → HandlerCall Msg → RpcClient × S → (RpcClient × S) × Option NetError
  wrapped has_lookup (on_cmd_discovery m) (r, s) =
      let (t, err) = call_inner inner (on_cmd_discovery m) s in
      ((acknowledge has_lookup m r, t), err)
  wrapped has_lookup call (r, s) = let (t, err) = call_inner inner call s in ((r, t), err)
