-- ===== src/Dataflow/Channel.antt =====
-- pkg/dataflow/core/channel.go and core.go: metrics are sent over the client, and what a node knows of
-- itself. Whether the client is closed, and its `Write`, are parameters, as is the host.
use net_flux.Base.{
  ℕ, ◌⊎◌, inl, inr, Bool, true, false, not, ◌||◌, Option, none, some, List, [], ◌∷◌, if◌then◌else◌,
}
use net_flux.Base.Int.{ℤ, pos}
use net_flux.Base.Text.{Str, codes, is_empty_str}
use net_flux.Dataflow.Types.{NodeInfo}

-- `has_cli` is false for a nil client. The error is "tcp client is not initialized".
module _ {Msg S : Type 0} (closed : S → Bool) (write : ℕ → ℕ → Msg → S → S × Option ℕ) where
  -- The loop of the two functions below; errors of `Write` are logged.
  unfoldable pub send_each : ℕ → List (Option Msg) → S → S
  send_each sub_cmd [] s = s
  send_each sub_cmd (none ∷ metrics) s = send_each sub_cmd metrics s
  send_each sub_cmd (some metric ∷ metrics) s =
      send_each sub_cmd metrics (write 30 sub_cmd metric s).0

  unfoldable pub send_info : ℕ → Bool → List (Option Msg) → S → S × Bool
  send_info sub_cmd has_cli metrics s =
      if not has_cli || closed s then (s, false) else (send_each sub_cmd metrics s, true)

  -- `SendMachineInfo`; the answer is false for its error.
  unfoldable pub send_machine_info : Bool → List (Option Msg) → S → S × Bool
  send_machine_info = send_info 10

  -- `SendNetworkInfo`
  unfoldable pub send_network_info : Bool → List (Option Msg) → S → S × Bool
  send_network_info = send_info 11

  -- `NewChannel`, with false for its error.
  unfoldable pub new_channel : Bool → S → Bool
  new_channel has_cli s = not (not has_cli || closed s)

-- What the system answers for the name and the addresses of the host, of which there is one at least,
-- and in the environment.
pub record Host : Type 0 where
  pub hostname : ℕ ⊎ Str
  pub internal_ip : Str
  pub host_ip : ℕ ⊎ Str × List Str
  pub unix : ℤ

abbrev pub first_or_local : ℕ ⊎ Str × List Str → Str
first_or_local (inl e) = codes "127.0.0.1"
first_or_local (inr (ip, ips)) = ip

-- `ReadBaseNodeInfo`, with the error of the host's name.
unfoldable pub read_base_node_info : Host → ℤ → ℕ ⊎ NodeInfo
read_base_node_info host node = elim host.hostname [
  | inl e ↦ inl e
  | inr name ↦ inr (record {
    id = name;
    name = [];
    ip = if is_empty_str host.internal_ip then first_or_local host.host_ip else host.internal_ip;
    port = pos 8080;
    node = node;
    version = codes "1.0.0";
    status = codes "running";
    start_time = host.unix;
  })
]
