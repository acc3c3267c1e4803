-- ===== src/Cache/Shared.antt =====
-- pkg/util/cache/shared.go: a cache whose entries are in Redis, encoded by the library gob, which is
-- a parameter. Errors of either are numbers.
use net_flux.Base.{
  ℕ, ◌*◌, ◌^◌, ◌⊎◌, inl, inr, Bool, true, false, Option, none, some, ◌++◌, if◌then◌else◌,
}
use net_flux.Base.Int.{ℤ, pos, negsuc}
use net_flux.Base.Text.{Str, codes, is_empty_str}
use net_flux.Cache.Redis.{redis_nil, redis_error, RedisApi, Options, NewError, new_client}

-- A value of any type: nil, a text, or one of another type.
pub data AnyValue : Type 0 where
  nil_value : AnyValue
  text : Str → AnyValue
  other : ℕ → AnyValue

-- `redisCache` by its prefix; the client is a parameter of its operations.
pub record RedisCache : Type 0 where
  pub prefix : Str

pub data SharedError : Type 0 where
  nil_client ping_failed : SharedError
  no_redis_client : NewError → SharedError

unfoldable pub shared_key_prefix : Str
shared_key_prefix = codes "netflux:cache:"

unfoldable pub default_shared_ttl : ℤ
default_shared_ttl = pos (600 * 10 ^ 9)

unfoldable pub full_key : RedisCache → Str → Str
full_key c key = c.prefix ++ key

-- A negative time to live is none.
unfoldable pub ttl_or_none : ℤ → ℤ
ttl_or_none (pos n) = pos n
ttl_or_none (negsuc n) = pos 0

module _ (api : RedisApi) where
  -- `has_client` is false for a nil client.
  unfoldable pub new_shared_cache : Bool → Str → api.State → api.State × (SharedError ⊎ RedisCache)
  new_shared_cache false prefix s = (s, inl nil_client)
  new_shared_cache true prefix s =
      let (t, err) = api.ping s in
      elim err [
        | some e ↦ (t, inl ping_failed)
        | none ↦
            (t, inr (record { prefix = if is_empty_str prefix then shared_key_prefix else prefix }))
      ]

  -- The client is the one that `New` makes for the options.
  unfoldable pub new_shared_cache_with_address :
      Option Options → Str → api.State → api.State × (SharedError ⊎ RedisCache)
  unfolding new_shared_cache
  new_shared_cache_with_address opt prefix s =
      let (t, made) = new_client (λ _. api.ping) (λ _. api.close) opt s in
      elim made [ inl e ↦ (t, inl (no_redis_client e)) | inr _ ↦ new_shared_cache true prefix t ]

  unfoldable pub delete : RedisCache → Str → api.State → api.State × Option ℕ
  delete c key s = api.del (full_key c key) s

  unfoldable pub close : api.State → api.State × Option ℕ
  close s = api.close s

module _ (api : RedisApi) (gob_encode : AnyValue → ℕ ⊎ Str) (gob_decode : Str → ℕ ⊎ AnyValue) where
  unfoldable pub get : RedisCache → Str → api.State → api.State × (ℕ ⊎ AnyValue)
  get c key s =
      let (t, raw) = api.get (full_key c key) s in
      elim raw [
        | inl redis_nil ↦ (t, inr nil_value)
        | inl (redis_error e) ↦ (t, inl e)
        | inr data_ ↦ (t, gob_decode data_)
      ]

  unfoldable pub set_with_ttl : RedisCache → Str → AnyValue → ℤ → api.State → api.State × Option ℕ
  set_with_ttl c key value ttl s = elim (gob_encode value) [
    | inl e ↦ (s, some e)
    | inr data_ ↦ api.set (full_key c key) data_ (ttl_or_none ttl) s
  ]

  unfoldable pub set : RedisCache → Str → AnyValue → api.State → api.State × Option ℕ
  set c key value s = set_with_ttl c key value default_shared_ttl s
