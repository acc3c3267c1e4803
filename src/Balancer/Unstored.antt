-- ===== src/Balancer/Unstored.antt =====
-- The balancers over the client of pkg/naming/rpc_client.go, with a Redis that has nothing yet.
mod Tests
use net_flux.Base.{
  ℕ, ◌≡◌, refl, ap, ◌∙◌, ◌⊎◌, inl, inr, Bool, true, false, Option, none, some, List, [], ◌∷◌, arith,
}
use net_flux.Base.Int.{ℤ}
use net_flux.Base.Text.{Str}
use net_flux.Cache.Redis.{RedisError, redis_nil, RedisApi}
use net_flux.Cache.Shared as Shared
use net_flux.Cache.Shared.{AnyValue, RedisCache}
use net_flux.Naming.Types.{Instance, Service, DiscoClient}
use net_flux.Naming.RpcClient.Config.{
  get_config, config_result, rpc_disco, error_number, no_config, number_result,
}
use net_flux.Balancer.Client.{BalanceError, client_error}
use net_flux.Balancer.Robin.{RoundRobin, robin_key, resolve}
use net_flux.Balancer.Compose.{compose_key, compose_resolve}

-- The arguments of a call of `Resolve`.
pub record Request : Type 0 where
  pub service_name : Str
  pub stream_id : Str
  pub node : ℤ

-- The states with the predicate have no key, and a `Get` does not leave them.
abbrev pub HasNothing : (api : RedisApi) → (api.State → Type 0) → Type 0
HasNothing api P =
    (key : Str) (s : api.State) → P s → (t : api.State) × (api.get key s ≡ (t, inl redis_nil)) × P t

module _ (api : RedisApi) (gob_encode : AnyValue → ℕ ⊎ Str) (gob_decode : Str → ℕ ⊎ AnyValue)
    (storage : RedisCache) {W : Type 0} (lookups : Str → Str → W → W × (ℕ ⊎ Option Service))
    (marshal : Service → ℕ ⊎ Str) (unmarshal : Str → ℕ ⊎ Option Service) (show : Service → Str)
    (instance_json : Option Instance → ℕ ⊎ Str) (parse_instance : Str → ℕ ⊎ Instance) where
  abbrev pub disco : DiscoClient
  disco = rpc_disco api gob_encode gob_decode (some storage) lookups

  abbrev pub robin_resolve :
      Str
      → Str
      → ℤ
      → RoundRobin
      → disco.State
      → RoundRobin × disco.State × (BalanceError ⊎ Option Instance)
  robin_resolve service_name stream_id node b s =
      resolve disco marshal unmarshal show service_name node b s

  -- Calls of `Resolve`, one after the other, of the round robin or of the balancer that remembers and
  -- has it inside.
  abbrev pub call :
      Bool × Request
      → RoundRobin
      → disco.State
      → RoundRobin × disco.State × (BalanceError ⊎ Option Instance)
  call (true, r) b s =
      compose_resolve disco robin_resolve instance_json parse_instance true r.service_name
        r.stream_id r.node b s
  call (false, r) b s = robin_resolve r.service_name r.stream_id r.node b s

  unfoldable pub calls :
      List (Bool × Request)
      → RoundRobin
      → disco.State
      → RoundRobin × disco.State × List (BalanceError ⊎ Option Instance)
  calls [] b s = (b, s, [])
  calls (r ∷ rs) b s =
      let (b', t, result) = call r b s in
      let (b'', u, results) = calls rs b' t in (b'', u, result ∷ results)

  get_config-nothing :
      (key : Str) (s t : api.State) (w : W)
      → api.get (Shared.full_key storage key) s ≡ (t, inl redis_nil)
      → disco.get_config key (s, w) ≡ ((t, w), inl 1)
  unfolding get_config config_result Shared.get
  get_config-nothing key s t w e = ground (arith, e)

  call-nothing :
      (r : Bool × Request) (b : RoundRobin) (s : api.State) (w : W) (P : api.State → Type 0)
      → HasNothing api P
      → P s
      → (t : api.State) × (call r b (s, w) ≡ (b, (t, w), inl (client_error 1))) × P t
  unfolding compose_resolve resolve
  call-nothing (true, r) b s w P empty p =
      let (t, e, q) =
        empty (Shared.full_key storage (compose_key r.service_name r.stream_id r.node)) s p in
      (
        t,
        ground (arith, get_config-nothing (compose_key r.service_name r.stream_id r.node) s t w e),
        q,
      )
  call-nothing (false, r) b s w P empty p =
      let (t, e, q) = empty (Shared.full_key storage (robin_key r.service_name r.node)) s p in
      (t, ground (arith, get_config-nothing (robin_key r.service_name r.node) s t w e), q)

  -- What calls that all fail return.
  abbrev pub failures : List (Bool × Request) → List (BalanceError ⊎ Option Instance)
  failures [] = []
  failures (r ∷ rs) = inl (client_error (error_number no_config)) ∷ failures rs

  -- Over a Redis without keys, every one of any calls of `Resolve` fails with the error of the client
  -- that there is no configuration: no service is looked up, the balancer stays as
  -- it is, and Redis is still without keys.
  pub calls-failures :
      (rs : List (Bool × Request)) (b : RoundRobin) (s : api.State) (w : W) (P : api.State → Type 0)
      → HasNothing api P
      → P s
      → (t : api.State) × (calls rs b (s, w) ≡ (b, (t, w), failures rs)) × P t
  unfolding calls
  calls-failures [] b s w P empty p = (s, refl, p)
  calls-failures (r ∷ rs) b s w P empty p =
      let (t, e, q) = call-nothing r b s w P empty p in
      let (u, e', q') = calls-failures rs b t w P empty q in
      (
        u,
        ap
              (λ z.
                let (b', s', result) = z in
                let (b'', u, results) = calls rs b' s' in (b'', u, result ∷ results))
              e
            ∙ ap (λ z. (z.0, z.1, inl (client_error 1) ∷ z.2)) e',
        q',
      )
