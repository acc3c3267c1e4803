-- ===== src/Cache/Lru/Abstract.antt =====
-- What the cache promises: a list of keys and values, most recently used first, cut to the limit.
use net_flux.Base.{ℕ, Bool, true, Option, none, some, List, [], ◌∷◌, take, if◌then◌else◌}
use net_flux.Base.Map

pub record Recent (K V : Type 0) : Type 0 where
  pub items : List (K × V)
  pub limit : ℕ
  pub closed : Bool

module _ {K V : Type 0} (dec : Discrete K) where
  -- The key with the value in front, and elsewhere no more.
  unfoldable pub touch : K → V → List (K × V) → List (K × V)
  touch k v items = (k, v) ∷ Map.delete dec k items

  unfoldable pub touched : K → List (K × V) → Option V → List (K × V)
  touched k items none = items
  touched k items (some v) = touch k v items

  unfoldable pub get : K → Recent K V → Recent K V × Option V
  get k r = if r.closed then (r, none) else (
    record r { items = touched k r.items (Map.lookup dec k r.items) },
    Map.lookup dec k r.items,
  )

  unfoldable pub put : K → V → Recent K V → Recent K V
  put k v r = if r.closed then r else record r { items = take r.limit (touch k v r.items) }

  unfoldable pub delete : K → Recent K V → Recent K V
  delete k r = if r.closed then r else record r { items = Map.delete dec k r.items }

  unfoldable pub close : Recent K V → Recent K V
  close r = if r.closed then r else record r { items = []; closed = true }
