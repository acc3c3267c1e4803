-- ===== src/Cache/Samples.antt =====
-- A Redis in memory and an encoding, for the tests.
use net_flux.Base.{ℕ, zero, suc, ◌≡◌, ap, ◌⊎◌, inl, inr, Option, none, some, List, [], ◌∷◌, arith}
use net_flux.Base.Map
use net_flux.Base.Text.{Str, str_discrete}
use net_flux.Cache.Redis.{RedisError, redis_nil, RedisApi}
use net_flux.Cache.Shared.{AnyValue, nil_value, text, other}

abbrev pub found_or_nil : Option Str → RedisError ⊎ Str
found_or_nil none = inl redis_nil
found_or_nil (some value) = inr value

-- Nothing expires.
abbrev pub memory_redis : RedisApi
memory_redis = record {
  State = List (Str × Str);
  get = λ key m. (m, found_or_nil (Map.lookup str_discrete key m));
  set = λ key value ttl m. (Map.insert str_discrete key value m, none);
  del = λ key m. (Map.delete str_discrete key m, none);
  ping = λ m. (m, none);
  close = λ m. (m, none);
}

abbrev pub encode : AnyValue → ℕ ⊎ Str
encode nil_value = inl 1
encode (text s) = inr (1 ∷ s)
encode (other n) = inr (2 ∷ n ∷ [])

abbrev pub decode : Str → ℕ ⊎ AnyValue
decode [] = inl 2
decode (zero ∷ s) = inl 2
decode (suc zero ∷ s) = inr (text s)
decode (suc (suc n) ∷ []) = inl 2
decode (suc (suc n) ∷ k ∷ s) = inr (other k)

pub memory_redis-get :
    (key value : Str) (m : List (Str × Str))
    → found_or_nil (Map.lookup str_discrete key (Map.insert str_discrete key value m)) ≡ inr value
memory_redis-get key value m = ap found_or_nil (Map.lookup-insert_self str_discrete key value m)

pub decode-encode :
    (value : AnyValue) (bytes : Str) → encode value ≡ inr bytes → decode bytes ≡ inr value
decode-encode nil_value bytes e = ground arith
decode-encode (text s) bytes e = ground arith
decode-encode (other n) bytes e = ground arith
