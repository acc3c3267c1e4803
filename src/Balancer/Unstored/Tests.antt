-- ===== src/Balancer/Unstored/Tests.antt =====
-- Calls of both balancers over an empty Redis, and a configuration that is set and got.
use net_flux.Base.{
  ℕ, ◌+◌, ◌≡◌, refl, ap, ◌⊎◌, inl, inr, Bool, true, false, Option, none, some, List, [], ◌∷◌,
}
use net_flux.Base.Int.{pos}
use net_flux.Base.Map
use net_flux.Base.Text.{Str, str_discrete, codes}
use net_flux.Cache.Shared.{RedisCache}
use net_flux.Cache.Samples.{memory_redis, found_or_nil, encode, decode}
use net_flux.Naming.Types.{Instance, Service}
use net_flux.Naming.Samples.{sample}
use net_flux.Balancer.Robin.{new_round_robin}
use net_flux.Balancer.Unstored.{Request, calls, failures, HasNothing, calls-failures}

abbrev storage : RedisCache
storage = record { prefix = codes "mb:disco:" }

abbrev shop : Service
shop = record {
  name = codes "shop";
  group_name = [];
  cluster = [];
  valid = true;
  instances = sample 1 true ∷ [];
}

-- The world counts the lookups.
abbrev counted : Str → Str → ℕ → ℕ × (ℕ ⊎ Option Service)
counted service_name group_name n = (n + 1, inr (some shop))

abbrev service_json : Service → ℕ ⊎ Str
service_json service = inr service.name

abbrev parse_service : Str → ℕ ⊎ Option Service
parse_service s = inr (some shop)

abbrev show_service : Service → Str
show_service service = service.name

abbrev to_json : Option Instance → ℕ ⊎ Str
to_json none = inl 3
to_json (some x) = inr x.instance_id

abbrev parse : Str → ℕ ⊎ Instance
parse s = inr (sample 1 true)

memory_redis-HasNothing : HasNothing memory_redis (λ m. m ≡ [])
unfolding Map.lookup
memory_redis-HasNothing key m e =
    (m, ap (λ t. (m, found_or_nil (Map.lookup str_discrete key t))) e, e)

abbrev requests : List (Bool × Request)
requests =
    (true, record { service_name = codes "shop"; stream_id = codes "s1"; node = pos 2 })
    ∷ (false, record { service_name = codes "shop"; stream_id = []; node = pos 2 })
    ∷ []

calls-failures_example :
    (t : List (Str × Str)) × (calls memory_redis encode decode storage counted service_json
        parse_service show_service to_json parse requests
        (new_round_robin (codes "2"))
        ([], 5)
      ≡ (
        new_round_robin (codes "2"),
        (t, 5),
        failures memory_redis encode decode storage counted service_json parse_service show_service
            to_json parse requests,
      ))
    × (t ≡ [])
calls-failures_example =
    calls-failures memory_redis encode decode storage counted service_json parse_service
      show_service to_json parse requests (new_round_robin (codes "2")) [] 5 (λ m. m ≡ [])
      memory_redis-HasNothing refl
