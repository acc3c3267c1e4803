-- ===== src/Cache/InMem/Entries.antt =====
-- What single operations do to the value that a key has.
use net_flux.Base.{
  ℕ, ◌≤◌, ◌≡◌, refl, true, false, Option, none, some, List, [], ◌∷◌, if◌then◌else◌, arith,
}
use net_flux.Base.Map
use net_flux.Base.Int.{ℤ, pos, negsuc}
use net_flux.Base.Map.{lookup-insert_self, lookup-delete_self, lookup-insert, lookup-delete}
use net_flux.Cache.InMem.{
  add_ttl, read, get, delete, set_with_ttl, InMemCache, ItemWithTtl, is_past, expired, sweep,
}

-- The value of a key at an instant, if it has one that is not expired.
unfoldable pub live_item : {V : Type 0} → ℕ → Option (ItemWithTtl V) → Option V
live_item now none = none
live_item now (some item) = if expired now item then none else some item.value

-- The keys of the map are distinct.
unfoldable pub Distinct : {K V : Type 0} → Discrete K → List (K × V) → Type 0
Distinct dec [] = Unit
Distinct dec ((k, v) ∷ m) = (Map.lookup dec k m ≡ none) × Distinct dec m

-- What is left of an entry after a sweep.
unfoldable pub kept : {V : Type 0} → ℕ → Option (ItemWithTtl V) → Option (ItemWithTtl V)
kept now none = none
kept now (some item) = if expired now item then none else some item

module _ {K V : Type 0} (dec : Discrete K) where
  pub insert-Distinct :
      (k : K) (v : V) (m : List (K × V)) → Distinct dec m → Distinct dec (Map.insert dec k v m)
  unfolding Distinct Map.insert Map.lookup
  insert-Distinct k v [] d = (refl, tt)
  insert-Distinct k v ((j, w) ∷ m) (new, d) =
      ground (arith, insert-Distinct k v m d, lookup-insert dec k j v m)

  pub delete-Distinct :
      (k : K) (m : List (K × V)) → Distinct dec m → Distinct dec (Map.delete dec k m)
  unfolding Distinct Map.delete
  delete-Distinct k [] d = tt
  delete-Distinct k ((j, w) ∷ m) (new, d) =
      ground (arith, delete-Distinct k m d, lookup-delete dec k j m)

  pub lookup-sweep :
      (now : ℕ) (k : K) (m : List (K × ItemWithTtl V))
      → Distinct dec m
      → Map.lookup dec k (sweep now m) ≡ kept now (Map.lookup dec k m)
  unfolding Distinct sweep kept Map.lookup
  lookup-sweep now k [] d = refl
  lookup-sweep now k ((j, item) ∷ m) (new, d) =
      ground (arith, lookup-sweep now k m d, lookup-sweep now j m d)

  pub sweep-Distinct :
      (now : ℕ) (m : List (K × ItemWithTtl V)) → Distinct dec m → Distinct dec (sweep now m)
  unfolding Distinct sweep kept
  sweep-Distinct now [] d = tt
  sweep-Distinct now ((j, item) ∷ m) (new, d) =
      ground (arith, sweep-Distinct now m d, lookup-sweep now j m d)

is_past_later :
    (now later : ℕ) (t : ℤ) → now ≤ later → is_past now t ≡ true → is_past later t ≡ true
unfolding is_past
is_past_later now later (pos t) le h = ground arith
is_past_later now later (negsuc t) le h = refl

module _ {V : Type 0} where
  pub expired_later :
      (now later : ℕ) (item : ItemWithTtl V)
      → now ≤ later
      → expired now item ≡ true
      → expired later item ≡ true
  unfolding expired
  expired_later now later item le h = is_past_later now later item.expiration le h

  -- An entry that is swept could no longer be seen.
  pub live-kept :
      (now later : ℕ) (o : Option (ItemWithTtl V))
      → now ≤ later
      → live_item later (kept now o) ≡ live_item later o
  unfolding live_item kept
  live-kept now later none le = refl
  live-kept now later (some item) le = ground (arith, expired_later now later item le)

module _ {K V : Type 0} (dec : Discrete K) where
  -- The two steps of a `Get` that finds an entry expired, with a `SetWithTTL` of the same key between
  -- them, on an open cache: the new value is in the cache until the second step, and then it is gone.
  pub get_interrupted :
      (now later : ℕ) (key : K) (v : V) (ttl : ℤ) (c : InMemCache K V)
      → c.closed ≡ false
      → read dec now key c ≡ (none, true)
      → let c' = set_with_ttl dec later key v ttl c in
        (Map.lookup dec key c'.cache ≡ some (record { value = v; expiration = add_ttl later ttl }))
        × (get dec now key c ≡ (delete dec key c, none))
        × (Map.lookup dec key (delete dec key c').cache ≡ none)
  unfolding set_with_ttl get delete
  get_interrupted now later key v ttl c open_ gone =
      let item : ItemWithTtl V = record { value = v; expiration = add_ttl later ttl } in
      (
        ground (arith, lookup-insert_self dec key item c.cache),
        ground (arith, gone),
        lookup-delete_self dec key (set_with_ttl dec later key v ttl c).cache,
      )
