-- ===== src/Cache/Lru/Refines/Push.antt =====
-- A key that is new to the cache: its element goes to the front, and the oldest may go.
use net_flux.Base.{
  suc, ◌+◌, ◌<◌, ◌≡◌, refl, ap, ◌∙◌, sym, false, none, ◌∷◌, length, length-take, take_enough, arith,
}
use native.Mathlib.Decide.{dec_lt}
use net_flux.Base.Map
use net_flux.Base.Map.{lookup-insert, lookup-delete}
use net_flux.Cache.Lru.{LruCache, evict, push_new}
use net_flux.Cache.Lru.Abstract
use net_flux.Cache.Lru.Abstract.{Recent, touch, touched}
use net_flux.Cache.Lru.Elements.{
  entries, elem_of, delete-entries-none, entries-take, length-entries, find_fresh, Good-suc,
}
use net_flux.Cache.Lru.Refines.{Matches, view, IsIndexed, IsRep, evict_none, evict_last}

module _ {K V : Type 0} (dec : Discrete K) (c : LruCache K V) (open_ : c.closed ≡ false)
    (r : IsRep dec c) (k : K) where
  -- A new element in front of the list, before anything is evicted.
  unfoldable pub pushed : V → LruCache K V
  pushed v = record c {
    ll = (c.next_elem, record { key = k; value = v }) ∷ c.ll;
    cache = Map.insert dec k c.next_elem c.cache;
    next_elem = c.next_elem + 1;
  }

  pushed-IsIndexed : (v : V) → elem_of dec k c.ll ≡ none → IsIndexed dec (pushed v)
  unfolding pushed elem_of
  pushed-IsIndexed v h = record {
    agree = λ q. ground (arith, r.indexed.agree q, lookup-insert dec k q c.next_elem c.cache);
    good = (
      omega arith,
      find_fresh dec c.next_elem c.ll r.indexed.good,
      h,
      Good-suc dec c.next_elem c.ll r.indexed.good,
    );
  }

  push_new-pushed : (v : V) → push_new dec k v c ≡ evict dec (suc (length c.ll)) (pushed v)
  unfolding push_new pushed
  push_new-pushed v = refl

  entries-pushed :
      (v : V) → elem_of dec k c.ll ≡ none → entries (pushed v).ll ≡ touch dec k v (entries c.ll)
  unfolding pushed touch entries
  entries-pushed v miss = ap (λ l. (k, v) ∷ l) (sym (delete-entries-none dec k c.ll miss))

  pushed_facts :
      (v : V)
      → ((pushed v).limit ≡ c.limit)
        × ((pushed v).closed ≡ c.closed)
        × (length (pushed v).ll ≡ suc (length c.ll))
  unfolding pushed
  pushed_facts v = (refl, refl, refl)

  length-touch :
      (v : V)
      → elem_of dec k c.ll ≡ none
      → length (touch dec k v (entries c.ll)) ≡ suc (length c.ll)
  length-touch v miss =
      ap length (sym (entries-pushed v miss))
      ∙ length-entries dec (pushed v).ll
      ∙ (pushed_facts v).2

  pushed_same :
      (v : V)
      → elem_of dec k c.ll ≡ none
      → length c.ll < c.limit
      → view (pushed v) ≡ Abstract.put dec k v (view c)
  unfolding view Abstract.put
  pushed_same v miss room = ground (
    arith,
    entries-pushed v miss,
    pushed_facts v,
    take_enough c.limit (touch dec k v (entries c.ll)) (omega (arith, length-touch v miss)),
  )

  push_room :
      (v : V)
      → elem_of dec k c.ll ≡ none
      → length c.ll < c.limit
      → Matches dec (push_new dec k v c) (Abstract.put dec k v (view c))
  push_room v miss room =
      rw
        (push_new-pushed v
          ∙ evict_none dec (suc (length c.ll)) (pushed v) (omega (arith, pushed_facts v)))
        (record {
          keeps = record {
            indexed = pushed-IsIndexed v miss;
            bound = omega (arith, pushed_facts v);
            positive = omega (arith, pushed_facts v, r.positive);
          };
          same = pushed_same v miss room;
        })

  push_full :
      (v : V)
      → elem_of dec k c.ll ≡ none
      → length c.ll ≡ c.limit
      → Matches dec (push_new dec k v c) (Abstract.put dec k v (view c))
  unfolding view Abstract.put
  push_full v miss full =
      let (indexed, kept, limit, closed) =
        evict_last dec (length c.ll) (pushed v) (pushed-IsIndexed v miss)
          (omega (arith, pushed_facts v)) in
      rw (push_new-pushed v) (record {
        keeps = record {
          indexed = indexed;
          bound = omega (arith, ap length kept, length-take (pushed v).limit (pushed v).ll, limit);
          positive = omega (arith, limit, pushed_facts v, r.positive);
        };
        same = ground (
          arith,
          pushed_facts v,
          entries-pushed v miss,
          entries-take dec (pushed v).limit (pushed v).ll,
        );
      })

  pub push_new-Matches :
      (v : V)
      → elem_of dec k c.ll ≡ none
      → Matches dec (push_new dec k v c) (Abstract.put dec k v (view c))
  push_new-Matches v miss = elim (dec_lt (length c.ll) c.limit) [
    | yes room ↦ push_room v miss room
    | no full ↦ push_full v miss (omega (arith, r.bound))
  ]
