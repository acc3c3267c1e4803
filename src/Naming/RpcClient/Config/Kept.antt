-- ===== src/Naming/RpcClient/Config/Kept.antt =====
-- A configuration in Redis is what was set last, so the balancers may rely on the client.
use net_flux.Base.{
  ℕ, ◌*◌, ◌^◌, ◌<◌, ◌≤◌, ◌≡◌, ◌⊎◌, inl, inr, Option, none, some, ltb, if◌then◌else◌, arith,
  Sum-cases,
}
use net_flux.Base.Int.{pos}
use net_flux.Base.Text.{Str}
use net_flux.Cache.Redis.{redis_nil, RedisApi}
use net_flux.Cache.Shared as Shared
use net_flux.Cache.Shared.{AnyValue, nil_value, text, RedisCache}
use net_flux.Naming.Types.{Service, KeepsConfig}
use net_flux.Naming.RpcClient.Config.{
  no_config, get_config, set_config, config_result, storage_result, rpc_disco,
}

-- What Redis promises, where `later` lets nanoseconds go by: a value that was set without an error
-- with a time to live can be had until that time is up, and from then on the key is missing.
pub record TimedRedis (api : RedisApi) : Type 0 where
  pub later : ℕ → api.State → api.State
  pub later_zero : (s : api.State) → later 0 s ≡ s
  pub keeps :
      (key value : Str) (ttl wait : ℕ) (s : api.State)
      → (api.set key value (pos ttl) s).1 ≡ none
      → wait < ttl
      → (api.get key (later wait (api.set key value (pos ttl) s).0)).1 ≡ inr value
  pub drops :
      (key value : Str) (ttl wait : ℕ) (s : api.State)
      → (api.set key value (pos ttl) s).1 ≡ none
      → 0 < ttl
      → ttl ≤ wait
      → (api.get key (later wait (api.set key value (pos ttl) s).0)).1 ≡ inl redis_nil

-- Gob decodes the texts that it encodes.
abbrev pub ReadsBack : (AnyValue → ℕ ⊎ Str) → (Str → ℕ ⊎ AnyValue) → Type 0
ReadsBack gob_encode gob_decode =
    (content bytes : Str)
    → gob_encode (text content) ≡ inr bytes
    → gob_decode bytes ≡ inr (text content)

module _ (api : RedisApi) (gob_encode : AnyValue → ℕ ⊎ Str) (gob_decode : Str → ℕ ⊎ AnyValue)
    (redis : TimedRedis api) (reads : ReadsBack gob_encode gob_decode) where
  -- What the cache has of a text some time after it was set.
  set_with_ttl-get :
      (c : RedisCache) (key content : Str) (ttl wait : ℕ) (s : api.State)
      → 0 < ttl
      → (Shared.set_with_ttl api gob_encode gob_decode c key (text content) (pos ttl) s).1 ≡ none
      → (Shared.get api gob_encode gob_decode c key (
          redis.later wait
            (Shared.set_with_ttl api gob_encode gob_decode c key (text content) (pos ttl) s).0)).1
        ≡ (if ltb wait ttl then inr (text content) else inr nil_value)
  unfolding Shared.set_with_ttl Shared.get Shared.ttl_or_none
  set_with_ttl-get c key content ttl wait s lives done =
      elim (Sum-cases (gob_encode (text content))) [
        | inl (e, failed) ↦ ground (arith, failed)
        | inr (bytes, encoded) ↦ ground (
          arith,
          encoded,
          redis.keeps (Shared.full_key c key) bytes ttl wait s,
          redis.drops (Shared.full_key c key) bytes ttl wait s,
          reads content bytes encoded,
        )
      ]

  -- Over a Redis that has a value until its time to live is up and misses the key from then on, and
  -- where gob decodes the texts that it encodes: after a client has set a configuration without an
  -- error, it gets this one for the same identifier for ten minutes, and from then on the error that
  -- there is none.
  pub set_config-get_config :
      (storage : Option RedisCache) (data_id content : Str) (wait : ℕ) (s : api.State)
      → (set_config api gob_encode gob_decode storage data_id content s).1 ≡ none
      → (get_config api gob_encode gob_decode storage data_id
          (redis.later wait (set_config api gob_encode gob_decode storage data_id content s).0)).1
        ≡ (if ltb wait (10 * 60 * 10 ^ 9) then inr content else inl no_config)
  unfolding set_config get_config config_result storage_result Shared.set Shared.default_shared_ttl
  set_config-get_config none data_id content wait s done = ground arith
  set_config-get_config (some c) data_id content wait s done =
      ground (arith, set_with_ttl-get c data_id content (600 * 10 ^ 9) wait s)

  pub rpc_disco-KeepsConfig :
      {W : Type 0} (storage : Option RedisCache)
      (lookups : Str → Str → W → W × (ℕ ⊎ Option Service))
      → KeepsConfig (rpc_disco api gob_encode gob_decode storage lookups)
  rpc_disco-KeepsConfig storage lookups key value (s, w) done = ground (
    arith,
    set_config-get_config storage key value 0 s,
    redis.later_zero (set_config api gob_encode gob_decode storage key value s).0,
  )
