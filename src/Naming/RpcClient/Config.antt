-- ===== src/Naming/RpcClient/Config.antt =====
-- The configurations of pkg/naming/rpc_client.go, which are entries of the cache in Redis, and the
-- client as the one that the balancers call. What the waiting for a lookup brings is a parameter.
pub mod Kept
pub mod Tests
use net_flux.Base.{
  ℕ, ◌+◌, ◌≡◌, refl, ap, ◌∙◌, ◌⊎◌, inl, inr, Bool, true, false, Option, none, some, List, [], ◌∷◌,
  arith,
}
use net_flux.Base.Text.{Str, codes}
use net_flux.Cache.Redis.{RedisApi}
use net_flux.Cache.Shared as Shared
use net_flux.Cache.Shared.{AnyValue, nil_value, text, other, RedisCache}
use net_flux.Naming.Types.{DiscoClient, KeepsConfig, Service}

pub data ConfigError : Type 0 where
  storage_nil no_config type_mismatch unimplemented : ConfigError
  storage_error : ℕ → ConfigError

unfoldable pub config_cache_prefix_key : Str
config_cache_prefix_key = codes "mb:disco:"

-- A value of the cache as a configuration.
unfoldable pub config_result : ℕ ⊎ AnyValue → ConfigError ⊎ Str
config_result (inl e) = inl (storage_error e)
config_result (inr nil_value) = inl no_config
config_result (inr (text content)) = inr content
config_result (inr (other n)) = inl type_mismatch

unfoldable pub storage_result : Option ℕ → Option ConfigError
storage_result none = none
storage_result (some e) = some (storage_error e)

unfoldable pub listen_config : Str → ConfigError
listen_config data_id = unimplemented

unfoldable pub cancel_listen_config : Str → ConfigError
cancel_listen_config data_id = unimplemented

unfoldable pub search_config : Str → Str → ConfigError
search_config search data_id = unimplemented

-- `none` is a nil storage.
module _ (api : RedisApi) (gob_encode : AnyValue → ℕ ⊎ Str) (gob_decode : Str → ℕ ⊎ AnyValue) where
  unfoldable pub get_config : Option RedisCache → Str → api.State → api.State × (ConfigError ⊎ Str)
  get_config none data_id s = (s, inl storage_nil)
  get_config (some storage) data_id s =
      let (t, value) = Shared.get api gob_encode gob_decode storage data_id s in
      (t, config_result value)

  unfoldable pub set_config :
      Option RedisCache → Str → Str → api.State → api.State × Option ConfigError
  set_config none data_id content s = (s, some storage_nil)
  set_config (some storage) data_id content s =
      let (t, err) = Shared.set api gob_encode gob_decode storage data_id (text content) s in
      (t, storage_result err)

  unfoldable pub delete_config :
      Option RedisCache → Str → api.State → api.State × Option ConfigError
  delete_config none data_id s = (s, some storage_nil)
  delete_config (some storage) data_id s =
      let (t, err) = Shared.delete api storage data_id s in (t, storage_result err)

-- The errors as the numbers that the interface has.
abbrev pub error_number : ConfigError → ℕ
error_number storage_nil = 0
error_number no_config = 1
error_number type_mismatch = 2
error_number unimplemented = 3
error_number (storage_error e) = e + 4

abbrev pub number_result : ConfigError ⊎ Str → ℕ ⊎ Str
number_result (inl e) = inl (error_number e)
number_result (inr content) = inr content

abbrev pub number_option : Option ConfigError → Option ℕ
number_option none = none
number_option (some e) = some (error_number e)

-- `rpcClient` as the balancers see it. `lookups` is `GetService` with the world that answers it.
abbrev pub rpc_disco :
    (api : RedisApi)
    → (AnyValue → ℕ ⊎ Str)
    → (Str → ℕ ⊎ AnyValue)
    → Option RedisCache
    → {W : Type 0} → (Str → Str → W → W × (ℕ ⊎ Option Service))
    → DiscoClient
rpc_disco api gob_encode gob_decode storage {W = W} lookups = record {
  State = api.State × W;
  get_config = λ data_id (s, w).
      let (t, content) = get_config api gob_encode gob_decode storage data_id s in
      ((t, w), number_result content);
  set_config = λ data_id content (s, w).
      let (t, err) = set_config api gob_encode gob_decode storage data_id content s in
      ((t, w), number_option err);
  get_service = λ service_name group_name (s, w).
      let (w', found) = lookups service_name group_name w in ((s, w'), found);
}
