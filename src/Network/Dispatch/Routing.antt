-- ===== src/Network/Dispatch/Routing.antt =====
-- Which handler gets which packet, and as what message.
use net_flux.Base.{ℕ, ◌≡◌, ◌⊎◌, true, Option, none, List, [], ◌∷◌, ◌==◌, if◌then◌else◌, arith}
use net_flux.Network.Packet.{NetError, PacketHeader}
use net_flux.Network.Dispatch.{
  Kind, ping, pong, instance_info, deregister, lookup, lookup_ack, machine_metric, network_metric,
  stream_metric, session_metric, whiteip_changed, limit_changed, access_denied, ip_blocked, decode,
  unbox, unmarshal_system, unmarshal_discovery, unmarshal_data_report, unmarshal_config,
  unmarshal_event, HandlerCall, on_cmd_system, on_cmd_discovery, on_cmd_config, on_cmd_event,
  on_cmd_control, on_cmd_data_report, hand_over, on_message,
}

-- The callback that a first-level command belongs to.
unfoldable pub callback : {Msg : Type 0} → ℕ → ℕ → Option Msg → HandlerCall Msg
callback cmd subcmd =
    if cmd == 10
    then on_cmd_system
    else if cmd == 20
    then on_cmd_discovery
    else if cmd == 30
    then on_cmd_data_report subcmd
    else if cmd == 40
    then on_cmd_config
    else if cmd == 50
    then on_cmd_event
    else on_cmd_control

-- The pairs of codes under which a type of message travels.
unfoldable pub codes : Kind → List (ℕ × ℕ)
codes ping = (10, 10) ∷ []
codes pong = (10, 11) ∷ []
codes instance_info = (20, 10) ∷ []
codes deregister = (20, 11) ∷ []
codes lookup = (20, 12) ∷ []
codes lookup_ack = (20, 13) ∷ []
codes machine_metric = (30, 10) ∷ []
codes network_metric = (30, 11) ∷ []
codes stream_metric = (30, 20) ∷ (30, 21) ∷ (30, 22) ∷ (30, 23) ∷ (30, 24) ∷ (30, 25) ∷ []
codes session_metric = (30, 30) ∷ (30, 31) ∷ (30, 32) ∷ (30, 33) ∷ (30, 40) ∷ (30, 41) ∷ []
codes whiteip_changed = (40, 10) ∷ []
codes limit_changed = (40, 20) ∷ []
codes access_denied = (50, 10) ∷ []
codes ip_blocked = (50, 20) ∷ []

abbrev pub Among : ℕ × ℕ → List (ℕ × ℕ) → Type 0
Among p [] = ⊥
Among (c, d) ((a, b) ∷ ps) = ((c ≡ a) × (d ≡ b)) ⊎ Among (c, d) ps

module _ {Msg : Type 0} (unmarshal : Kind → List ℕ → NetError ⊎ Msg) where
  -- Every packet with the codes of a type of message is unmarshalled as a message of that type.
  pub unbox-codes :
      (kind : Kind) (cmd subcmd : ℕ) (bytes : List ℕ)
      → Among (cmd, subcmd) (codes kind)
      → unbox unmarshal cmd subcmd bytes ≡ decode unmarshal kind bytes
  unfolding codes unbox unmarshal_system unmarshal_discovery unmarshal_data_report unmarshal_config
      unmarshal_event
  unbox-codes ping cmd subcmd bytes h = ground arith
  unbox-codes _ cmd subcmd bytes h = ground arith

  module _ {S : Type 0} (handler : HandlerCall Msg → S → S × Option NetError) where
    pub on_message-unbox :
        (head : PacketHeader) (bytes : List ℕ) (s : S)
        → on_message unmarshal handler true none head bytes s
          ≡ hand_over unmarshal handler
              (unbox unmarshal head.cmd head.sub_cmd bytes)
              (callback head.cmd head.sub_cmd)
              s
    unfolding on_message unbox callback hand_over
    on_message-unbox head bytes s = ground arith
