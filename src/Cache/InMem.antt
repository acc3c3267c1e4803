-- ===== src/Cache/InMem.antt =====
-- pkg/util/cache/inmem.go and types.go: values with an expiration, in a map. Instants are numbers,
-- 0 the zero time, and `time.Now` is the argument `now` of a method; an expiration may lie before the
-- zero time. `Get` reads under one lock and deletes under another: `read` and `delete` are its two
-- steps, between which other calls can come, and `get` has them in one go.
pub mod Entries
pub mod Runs
use net_flux.Base.{
  ℕ, ◌+◌, ◌-◌, ◌*◌, ◌≤◌, ◌<◌, Bool, true, false, ◌&&◌, ◌||◌, not, Option, none, some, List, [], ◌∷◌,
  length, ltb, leb, ◌==◌, if◌then◌else◌,
}
use net_flux.Base.Int.{ℤ, pos, negsuc}
use net_flux.Base.Map

pub record ItemWithTtl (V : Type 0) : Type 0 where
  pub value : V
  pub expiration : ℤ

pub record InMemCache (K V : Type 0) : Type 0 where
  pub cache : List (K × ItemWithTtl V)
  pub closed : Bool

-- In nanoseconds, as Go's durations.
abbrev pub default_ttl : ℤ
default_ttl = pos (24 * 3600 * 1000000000)

-- `time.Time.Add`
unfoldable pub add_ttl : ℕ → ℤ → ℤ
add_ttl now (pos n) = pos (now + n)
add_ttl now (negsuc n) = if ltb n now then pos (now - (n + 1)) else negsuc (n - now)

-- `!t.IsZero() && now.After(t)`
unfoldable pub is_past : ℕ → ℤ → Bool
is_past now (pos t) = not (t == 0) && ltb t now
is_past now (negsuc t) = true

unfoldable pub expired : {V : Type 0} → ℕ → ItemWithTtl V → Bool
expired now item = is_past now item.expiration

-- The loop of `periodicCleanup` over the entries.
unfoldable pub sweep : {K V : Type 0} → ℕ → List (K × ItemWithTtl V) → List (K × ItemWithTtl V)
sweep now [] = []
sweep now ((k, item) ∷ m) =
    let rest = sweep now m in if expired now item then rest else (k, item) ∷ rest

module _ {K V : Type 0} where
  unfoldable pub new_in_mem_cache : InMemCache K V
  new_in_mem_cache = record { cache = []; closed = false }

  -- A tick of `periodicCleanup`, which returns once the cache is closed.
  unfoldable pub cleanup : ℕ → InMemCache K V → InMemCache K V
  cleanup now c = if c.closed then c else record c { cache = sweep now c.cache }

  unfoldable pub close : InMemCache K V → InMemCache K V
  close c = if c.closed then c else record { cache = []; closed = true }

  unfoldable pub cache_length : InMemCache K V → ℕ
  cache_length c = length c.cache

module _ {K V : Type 0} (dec : Discrete K) where
  unfoldable pub delete : K → InMemCache K V → InMemCache K V
  delete key c = record c { cache = Map.delete dec key c.cache }

  -- What `Get` learns under the read lock, and whether it goes on to delete the key.
  unfoldable pub read : ℕ → K → InMemCache K V → Option V × Bool
  read now key c = elim (Map.lookup dec key c.cache) [
    | none ↦ (none, false)
    | some item ↦ if expired now item then (none, true) else (some item.value, false)
  ]

  unfoldable pub get : ℕ → K → InMemCache K V → InMemCache K V × Option V
  get now key c = let (v, gone) = read now key c in (if gone then delete key c else c, v)

  unfoldable pub set_with_ttl : ℕ → K → V → ℤ → InMemCache K V → InMemCache K V
  set_with_ttl now key v ttl c = if c.closed then c else record c {
    cache = Map.insert dec key (record { value = v; expiration = add_ttl now ttl }) c.cache;
  }

  -- `Set`
  unfoldable pub put : ℕ → K → V → InMemCache K V → InMemCache K V
  put now key v c = set_with_ttl now key v default_ttl c
