-- ===== src/Naming/RpcClient/Setup.antt =====
-- `NewRPCDiscoveryClient` and `WrapEventHandler` of pkg/naming/rpc_client.go.
use net_flux.Base.{◌⊎◌, inl, inr, Bool, true, false, Option, List, []}
use net_flux.Base.Text.{Str}
use net_flux.Cache.Redis.{RedisApi}
use net_flux.Cache.Shared.{RedisCache, SharedError, new_shared_cache}
use net_flux.Network.Packet.{NetError}
use net_flux.Network.Dispatch.{HandlerCall}
use net_flux.Naming.Types.{Service}
use net_flux.Naming.RpcClient.{RpcClient}
use net_flux.Naming.RpcClient.Config.{config_cache_prefix_key}
use net_flux.Naming.RpcClient.Events.{Handler, wrapped}

pub data SetupError : Type 0 where
  nil_tcp_client nil_redis_client : SetupError
  no_storage : SharedError → SetupError

-- `has_cli` and `has_redis` tell whether the pointers are not nil.
unfoldable pub new_rpc_client :
    (api : RedisApi)
    → Bool
    → Bool
    → Str
    → api.State
    → api.State × (SetupError ⊎ RpcClient × RedisCache)
new_rpc_client api false has_redis group_name s = (s, inl nil_tcp_client)
new_rpc_client api true false group_name s = (s, inl nil_redis_client)
new_rpc_client api true true group_name s =
    let (t, made) = new_shared_cache api true config_cache_prefix_key s in
    elim made [
      | inl e ↦ (t, inl (no_storage e))
      | inr storage ↦ (
        t,
        inr (
          record {
            has_cli = true;
            group_name = group_name;
            pending = [];
            chans = [];
            next_chan = 0;
          },
          storage,
        ),
      )
    ]

-- The handler that the TCP client has afterwards, in front of the one that it had. The client handles
-- a LOOKUP_ACK.
unfoldable pub wrap_event_handler :
    {Msg S : Type 0}
    → (Msg → Option (List (Option Service)))
    → Handler Msg S
    → HandlerCall Msg
    → RpcClient × S
    → (RpcClient × S) × Option NetError
unfolding wrapped
wrap_event_handler ack_of inner call p = wrapped ack_of inner true call p
