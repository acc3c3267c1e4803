-- ===== src/Cache/Lru/Refines/Calls.antt =====
-- Each method of the cache against the method of the abstract cache.
use net_flux.Base.{ℕ, ◌≡◌, refl, false, none, some, take_enough, Option-cases, inl, inr, arith}
use net_flux.Cache.Lru.{
  LruEntry, LruCache, find_elem, move_to_front, set_value, remove_element, get, push_new, put,
  delete,
}
use net_flux.Cache.Lru.Abstract
use net_flux.Cache.Lru.Abstract.{Recent, touch, touched}
use net_flux.Cache.Lru.Elements.{
  entries, elem_of, find_of, lookup-entries-none, delete-entries-none, length-entries,
  length-remove,
}
use net_flux.Cache.Lru.Refines.{
  Matches, view, IsRep, fronted, fronted-IsIndexed, length-fronted, entries-fronted,
  removed-IsIndexed, entries-removed,
}
use net_flux.Cache.Lru.Refines.Push.{push_new-Matches}

module _ {K V : Type 0} (dec : Discrete K) (c : LruCache K V) (open_ : c.closed ≡ false)
    (r : IsRep dec c) (k : K) where
  -- The two ways in which a key stands in the list.
  get_miss : elem_of dec k c.ll ≡ none → get dec k c ≡ (c, none)
  unfolding get
  get_miss h = ground (arith, r.indexed.agree k)

  get_hit :
      (e : ℕ) (x : LruEntry K V) (hit : elem_of dec k c.ll ≡ some e)
      → find_elem e c.ll ≡ some x
      → x.key ≡ k
      → get dec k c ≡ (fronted dec c r.indexed k e hit x.value, some x.value)
  unfolding get move_to_front fronted
  get_hit e x hit found same = ground (arith, r.indexed.agree k)

  put_hit :
      (e : ℕ) (x : LruEntry K V) (v : V) (hit : elem_of dec k c.ll ≡ some e)
      → find_elem e c.ll ≡ some x
      → x.key ≡ k
      → put dec k v c ≡ fronted dec c r.indexed k e hit v
  unfolding put move_to_front fronted set_value
  put_hit e x v hit found same = ground (arith, r.indexed.agree k)

  put_miss : (v : V) → elem_of dec k c.ll ≡ none → put dec k v c ≡ push_new dec k v c
  unfolding put
  put_miss v h = ground (arith, r.indexed.agree k)

  delete_miss : elem_of dec k c.ll ≡ none → delete dec k c ≡ c
  unfolding delete
  delete_miss h = ground (arith, r.indexed.agree k)

  delete_hit :
      (e : ℕ) (x : LruEntry K V)
      → elem_of dec k c.ll ≡ some e
      → find_elem e c.ll ≡ some x
      → delete dec k c ≡ remove_element dec (e, x) c
  unfolding delete
  delete_hit e x hit found = ground (arith, r.indexed.agree k)

  fronted_rest :
      (e : ℕ) (hit : elem_of dec k c.ll ≡ some e) (v : V)
      → ((fronted dec c r.indexed k e hit v).limit ≡ c.limit)
        × ((fronted dec c r.indexed k e hit v).closed ≡ c.closed)
  unfolding fronted
  fronted_rest e hit v = (refl, refl)

  removed_rest :
      (e : ℕ) (x : LruEntry K V)
      → ((remove_element dec (e, x) c).limit ≡ c.limit)
        × ((remove_element dec (e, x) c).closed ≡ c.closed)
  unfolding remove_element
  removed_rest e x = (refl, refl)

  fronted-IsRep :
      (e : ℕ) (hit : elem_of dec k c.ll ≡ some e) (v : V)
      → IsRep dec (fronted dec c r.indexed k e hit v)
  fronted-IsRep e hit v = record {
    indexed = fronted-IsIndexed dec c r.indexed k e hit v;
    bound = omega (arith, length-fronted dec c r.indexed k e hit v, r.bound, fronted_rest e hit v);
    positive = omega (arith, r.positive, fronted_rest e hit v);
  }

  removed-IsRep :
      (e : ℕ) (hit : elem_of dec k c.ll ≡ some e) (x : LruEntry K V)
      → find_elem e c.ll ≡ some x
      → x.key ≡ k
      → IsRep dec (remove_element dec (e, x) c)
  unfolding remove_element
  removed-IsRep e hit x found same = record {
    indexed = removed-IsIndexed dec c r.indexed k e hit x same;
    bound = omega (arith, length-remove dec e c.ll x found, r.bound);
    positive = r.positive;
  }

  pub get-Matches :
      Matches dec (get dec k c).0 (Abstract.get dec k (view c)).0
      × ((get dec k c).1 ≡ (Abstract.get dec k (view c)).1)
  unfolding view Abstract.get touched
  get-Matches = elim (Option-cases (elem_of dec k c.ll)) [
    | inl miss ↦ rw (get_miss miss) (
      record { keeps = r; same = ground (arith, lookup-entries-none dec k c.ll miss) },
      ground (arith, lookup-entries-none dec k c.ll miss),
    )
    | inr (e, hit) ↦
        let (x, found, same, looked) = find_of dec c.next_elem k e c.ll r.indexed.good hit in
        rw (get_hit e x hit found same) (
          record {
            keeps = fronted-IsRep e hit x.value;
            same = ground (
              arith,
              looked,
              entries-fronted dec c r.indexed k e hit x.value,
              fronted_rest e hit x.value,
            );
          },
          ground (arith, looked),
        )
  ]

  pub put-Matches : (v : V) → Matches dec (put dec k v c) (Abstract.put dec k v (view c))
  unfolding view Abstract.put touch
  put-Matches v = elim (Option-cases (elem_of dec k c.ll)) [
    | inr (e, hit) ↦
        let (x, found, same, looked) = find_of dec c.next_elem k e c.ll r.indexed.good hit in
        rw (put_hit e x v hit found same) (record {
          keeps = fronted-IsRep e hit v;
          same = ground (
            arith,
            entries-fronted dec c r.indexed k e hit v,
            fronted_rest e hit v,
            take_enough c.limit (entries (fronted dec c r.indexed k e hit v).ll),
            length-entries dec (fronted dec c r.indexed k e hit v).ll,
            length-fronted dec c r.indexed k e hit v,
            r.bound,
          );
        })
    | inl miss ↦ rw (put_miss v miss) (push_new-Matches dec c open_ r k v miss)
  ]

  pub delete-Matches : Matches dec (delete dec k c) (Abstract.delete dec k (view c))
  unfolding view Abstract.delete
  delete-Matches = elim (Option-cases (elem_of dec k c.ll)) [
    | inl miss ↦
        rw (delete_miss miss)
          (record { keeps = r; same = ground (arith, delete-entries-none dec k c.ll miss) })
    | inr (e, hit) ↦
        let (x, found, same, looked) = find_of dec c.next_elem k e c.ll r.indexed.good hit in
        rw (delete_hit e x hit found) (record {
          keeps = removed-IsRep e hit x found same;
          same = ground (arith, entries-removed dec c r.indexed k e hit x, removed_rest e x);
        })
  ]
