-- ===== src/Network/Dispatch.antt =====
-- pkg/network/misc/proto.go and `OnMessage` of pkg/network/tcp_con.go: from a packet to the call of
-- the event handler. The codes are those of proto/base.proto.
pub mod Routing
use net_flux.Base.{
  ℕ, ◌≡◌, ◌⊎◌, inl, inr, refl, Bool, true, false, Option, none, some, List, ◌==◌, if◌then◌else◌,
}
use net_flux.Network.Packet.{NetError, unknown_command, PacketHeader}

-- The message types of proto/ that a packet can carry.
pub data Kind : Type 0 where
  ping pong instance_info deregister lookup lookup_ack machine_metric network_metric : Kind
  stream_metric session_metric whiteip_changed limit_changed access_denied ip_blocked : Kind

-- First-level commands.
abbrev pub cmd_system : ℕ
cmd_system = 10

abbrev pub cmd_discovery : ℕ
cmd_discovery = 20

abbrev pub cmd_data_report : ℕ
cmd_data_report = 30

abbrev pub cmd_config : ℕ
cmd_config = 40

abbrev pub cmd_event : ℕ
cmd_event = 50

abbrev pub cmd_control : ℕ
cmd_control = 60

-- `Unmarshal` of the protobuf library, into a message of the type asked for.
module _ {Msg : Type 0} (unmarshal : Kind → List ℕ → NetError ⊎ Msg) where
  unfoldable pub decode : Kind → List ℕ → NetError ⊎ Option Msg
  decode kind bytes = elim (unmarshal kind bytes) [ inl e ↦ inl e | inr m ↦ inr (some m) ]

  unfoldable pub unmarshal_system : ℕ → List ℕ → NetError ⊎ Option Msg
  unmarshal_system subcmd bytes =
      if subcmd == 10
      then decode ping bytes
      else if subcmd == 11
      then decode pong bytes
      else inl unknown_command

  unfoldable pub unmarshal_discovery : ℕ → List ℕ → NetError ⊎ Option Msg
  unmarshal_discovery subcmd bytes =
      if subcmd == 10
      then decode instance_info bytes
      else if subcmd == 11
      then decode deregister bytes
      else if subcmd == 12
      then decode lookup bytes
      else if subcmd == 13
      then decode lookup_ack bytes
      else inl unknown_command

  unfoldable pub unmarshal_data_report : ℕ → List ℕ → NetError ⊎ Option Msg
  unmarshal_data_report subcmd bytes =
      if subcmd == 10
      then decode machine_metric bytes
      else if subcmd == 11
      then decode network_metric bytes
      else if subcmd == 20
      then decode stream_metric bytes
      else if subcmd == 21
      then decode stream_metric bytes
      else if subcmd == 22
      then decode stream_metric bytes
      else if subcmd == 23
      then decode stream_metric bytes
      else if subcmd == 24
      then decode stream_metric bytes
      else if subcmd == 25
      then decode stream_metric bytes
      else if subcmd == 30
      then decode session_metric bytes
      else if subcmd == 31
      then decode session_metric bytes
      else if subcmd == 32
      then decode session_metric bytes
      else if subcmd == 33
      then decode session_metric bytes
      else if subcmd == 40
      then decode session_metric bytes
      else if subcmd == 41
      then decode session_metric bytes
      else inl unknown_command

  unfoldable pub unmarshal_config : ℕ → List ℕ → NetError ⊎ Option Msg
  unmarshal_config subcmd bytes =
      if subcmd == 10
      then decode whiteip_changed bytes
      else if subcmd == 20
      then decode limit_changed bytes
      else inl unknown_command

  unfoldable pub unmarshal_event : ℕ → List ℕ → NetError ⊎ Option Msg
  unmarshal_event subcmd bytes =
      if subcmd == 10
      then decode access_denied bytes
      else if subcmd == 20
      then decode ip_blocked bytes
      else inl unknown_command

  -- Not implemented in the source: no message, and no error.
  unfoldable pub unmarshal_control : ℕ → List ℕ → NetError ⊎ Option Msg
  unmarshal_control subcmd bytes = inr none

  unfoldable pub unbox : ℕ → ℕ → List ℕ → NetError ⊎ Option Msg
  unbox cmd subcmd bytes =
      if cmd == cmd_system
      then unmarshal_system subcmd bytes
      else if cmd == cmd_discovery
      then unmarshal_discovery subcmd bytes
      else if cmd == cmd_data_report
      then unmarshal_data_report subcmd bytes
      else if cmd == cmd_config
      then unmarshal_config subcmd bytes
      else if cmd == cmd_event
      then unmarshal_event subcmd bytes
      else if cmd == cmd_control
      then unmarshal_control subcmd bytes
      else inl unknown_command

-- The calls of an `EventHandler` for a message; `none` is a nil message.
pub data HandlerCall (Msg : Type 0) : Type 0 where
  on_cmd_system on_cmd_discovery on_cmd_config on_cmd_event on_cmd_control :
      Option Msg → HandlerCall Msg
  on_cmd_data_report : ℕ → Option Msg → HandlerCall Msg

module _ {Msg S : Type 0} (unmarshal : Kind → List ℕ → NetError ⊎ Msg)
    (handler : HandlerCall Msg → S → S × Option NetError) where
  -- The error that ends a case early, or the handler's own.
  unfoldable pub hand_over :
      NetError ⊎ Option Msg → (Option Msg → HandlerCall Msg) → S → S × Option NetError
  hand_over (inl e) call s = (s, some e)
  hand_over (inr m) call s = handler (call m) s

  -- `event` tells whether there is a handler; `cancelled` is the error of a context that is done.
  unfoldable pub on_message :
      Bool → Option NetError → PacketHeader → List ℕ → S → S × Option NetError
  on_message false cancelled head bytes s = (s, none)
  on_message true (some e) head bytes s = (s, some e)
  on_message true none head bytes s =
      if head.cmd == cmd_system
      then hand_over (unmarshal_system unmarshal head.sub_cmd bytes) on_cmd_system s
      else if head.cmd == cmd_discovery
      then hand_over (unmarshal_discovery unmarshal head.sub_cmd bytes) on_cmd_discovery s
      else if head.cmd == cmd_data_report
      then hand_over (unmarshal_data_report unmarshal head.sub_cmd bytes)
          (on_cmd_data_report head.sub_cmd) s
      else if head.cmd == cmd_config
      then hand_over (unmarshal_config unmarshal head.sub_cmd bytes) on_cmd_config s
      else if head.cmd == cmd_event
      then hand_over (unmarshal_event unmarshal head.sub_cmd bytes) on_cmd_event s
      else if head.cmd == cmd_control
      then hand_over (unmarshal_control unmarshal head.sub_cmd bytes) on_cmd_control s
      else (s, some unknown_command)
