-- ===== src/Naming/RpcClient/Config/Tests.antt =====
-- A configuration over a Redis with a clock.
use net_flux.Base.{
  ℕ, ◌+◌, ◌≡◌, refl, ◌⊎◌, inl, inr, Option, none, some, List, [], ltb, if◌then◌else◌, arith,
}
use net_flux.Base.Int.{ℤ, pos, negsuc}
use net_flux.Base.Map
use net_flux.Base.Map.{lookup-insert_self}
use net_flux.Base.Text.{Str, str_discrete, codes}
use net_flux.Cache.Redis.{RedisApi, RedisError, redis_nil}
use net_flux.Cache.Shared as Shared
use net_flux.Cache.Shared.{RedisCache, text}
use net_flux.Cache.Samples.{encode, decode, decode-encode}
use net_flux.Naming.RpcClient.Config.{get_config, set_config, storage_result}
use net_flux.Naming.RpcClient.Config.Kept.{TimedRedis, set_config-get_config}

-- The instant, and each value with its deadline; no time to live is none at all.
abbrev Memory : Type 0
Memory = ℕ × List (Str × (Str × ℕ))

abbrev deadline : ℤ → ℕ → ℕ
deadline (pos ttl) now = now + ttl
deadline (negsuc n) now = now

abbrev until : ℕ → Option (Str × ℕ) → RedisError ⊎ Str
until now none = inl redis_nil
until now (some (value, end)) = if ltb now end then inr value else inl redis_nil

abbrev clock_redis : RedisApi
clock_redis = record {
  State = Memory;
  get = λ key (now, m). ((now, m), until now (Map.lookup str_discrete key m));
  set = λ key value ttl (now, m).
      ((now, Map.insert str_discrete key (value, deadline ttl now) m), none);
  del = λ key (now, m). ((now, Map.delete str_discrete key m), none);
  ping = λ s. (s, none);
  close = λ s. (s, none);
}

clock_redis-TimedRedis : TimedRedis clock_redis
clock_redis-TimedRedis = record {
  later = λ wait (now, m). (now + wait, m);
  later_zero = λ (now, m). ground arith;
  keeps = λ key value ttl wait (now, m) done soon.
      ground (arith, lookup-insert_self str_discrete key (value, now + ttl) m);
  drops = λ key value ttl wait (now, m) done lives late.
      ground (arith, lookup-insert_self str_discrete key (value, now + ttl) m);
}

abbrev storage : RedisCache
storage = record { prefix = codes "mb:disco:" }

-- Five minutes later.
set_config-get_config_example :
    (get_config clock_redis encode decode (some storage) (codes "key") (
      clock_redis-TimedRedis.later 300000000000
        (set_config clock_redis encode decode
          (some storage)
          (codes "key")
          (codes "content")
          (5, [])).0)).1
    ≡ inr (codes "content")
set_config-get_config_example =
    set_config-get_config clock_redis encode decode clock_redis-TimedRedis
      (λ content bytes done. decode-encode (text content) bytes done) (some storage) (codes "key")
      (codes "content") 300000000000 (5, [])
      (unfold set_config in
        unfold Shared.set in unfold Shared.set_with_ttl in unfold storage_result in refl)
