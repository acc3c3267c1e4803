-- ===== src/Cache/Redis.antt =====
-- pkg/util/redis/redis.go: how the options of a Redis client are made and checked, and the calls that
-- the shared cache makes of the client. The client itself is the library's, a parameter.
pub mod Cluster
use net_flux.Base.{
  ℕ, zero, suc, ◌⊎◌, inl, inr, Bool, true, false, ◌||◌, not, Option, none, some, List, [], ◌∷◌,
  ◌++◌, ◌==◌, if◌then◌else◌,
}
use net_flux.Base.Int.{ℤ, pos, negsuc}
use net_flux.Base.Text.{Str, itoa, trim_space}

pub record Options : Type 0 where
  pub addr : Str
  pub cluster : List Str
  pub password : Str
  pub db : ℤ
  pub pool_size : ℤ

unfoldable pub pool_or_default : ℤ → ℤ
pool_or_default (pos zero) = pos 10
pool_or_default (pos (suc n)) = pos (suc n)
pool_or_default (negsuc n) = pos 10

unfoldable pub has_colon : Str → Bool
has_colon [] = false
has_colon (c ∷ s) = c == 58 || has_colon s

-- `net.JoinHostPort`
unfoldable pub join_host_port : Str → Str → Str
join_host_port host port =
    if has_colon host then (91 ∷ host) ++ (93 ∷ 58 ∷ port) else host ++ (58 ∷ port)

unfoldable pub new_options_from_host_port : Str → ℤ → Str → ℤ → Options
new_options_from_host_port host port password pool_size = record {
  addr = join_host_port host (itoa port);
  cluster = [];
  password = password;
  db = pos 0;
  pool_size = pool_or_default pool_size;
}

-- A text in front of the first of others.
abbrev pub onto_first : ℕ → List Str → List Str
onto_first c [] = (c ∷ []) ∷ []
onto_first c (s ∷ rest) = (c ∷ s) ∷ rest

-- `strings.Split(s, ",")`
unfoldable pub split_comma : Str → List Str
split_comma [] = [] ∷ []
split_comma (c ∷ s) = let rest = split_comma s in if c == 44 then [] ∷ rest else onto_first c rest

-- The texts without the space around them, those left out that are nothing else.
unfoldable pub trimmed : List Str → List Str
trimmed [] = []
trimmed (s ∷ rest) =
    let others = trimmed rest in
    elim (trim_space s) [ [] ↦ others | c ∷ addr ↦ (c ∷ addr) ∷ others ]

unfoldable pub new_options_from_cluster : Str → Str → ℤ → Options
new_options_from_cluster cluster_addrs password pool_size = record {
  addr = [];
  cluster = trimmed (split_comma cluster_addrs);
  password = password;
  db = pos 0;
  pool_size = pool_or_default pool_size;
}

-- What the library is asked to make.
pub data Universal : Type 0 where
  cluster_client : List Str → Str → ℤ → Universal
  single_client : Str → Str → ℤ → ℤ → Universal

pub data OptionsError : Type 0 where
  options_nil no_database_selection cluster_empty address_empty : OptionsError

abbrev is_zero : ℤ → Bool
is_zero (pos zero) = true
is_zero (pos (suc n)) = false
is_zero (negsuc n) = false

abbrev cluster_result : Options → List Str → OptionsError ⊎ Universal
cluster_result opt [] = inl cluster_empty
cluster_result opt (a ∷ addrs) = inr (cluster_client (a ∷ addrs) opt.password opt.pool_size)

abbrev single_result : Options → Str → OptionsError ⊎ Universal
single_result opt [] = inl address_empty
single_result opt (c ∷ s) = inr (single_client opt.addr opt.password opt.db opt.pool_size)

-- `newRedisClient`, where `none` is a nil pointer.
unfoldable pub new_redis_client : Option Options → OptionsError ⊎ Universal
new_redis_client none = inl options_nil
new_redis_client (some opt) = elim opt.cluster [
  | [] ↦ single_result opt (trim_space opt.addr)
  | a ∷ addrs ↦
      if not (is_zero opt.db)
      then inl no_database_selection
      else cluster_result opt (trimmed (a ∷ addrs))
]

pub data NewError : Type 0 where
  bad_options : OptionsError → NewError
  ping_failed : ℕ → NewError

-- `New`, where the library's client pings and closes.
unfoldable pub new_client :
    {S : Type 0}
    → (Universal → S → S × Option ℕ)
    → (Universal → S → S × Option ℕ)
    → Option Options
    → S
    → S × (NewError ⊎ Universal)
new_client ping close opt s = elim (new_redis_client opt) [
  | inl e ↦ (s, inl (bad_options e))
  | inr cli ↦
      let (t, err) = ping cli s in
      elim err [ some e ↦ ((close cli t).0, inl (ping_failed e)) | none ↦ (t, inr cli) ]
]

-- The error `redis.Nil` is that of a missing key.
pub data RedisError : Type 0 where
  redis_nil : RedisError
  redis_error : ℕ → RedisError

-- The methods of `Client` that are used, each one command. The last argument of `set` is the time to
-- live in nanoseconds, with none at 0.
pub record RedisApi : Type 1 where
  pub State : Type 0
  pub get : Str → State → State × (RedisError ⊎ Str)
  pub set : Str → Str → ℤ → State → State × Option ℕ
  pub del : Str → State → State × Option ℕ
  pub ping : State → State × Option ℕ
  pub close : State → State × Option ℕ
