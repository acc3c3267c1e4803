-- ===== src/Cache/Lru/Refines.antt =====
-- The map and the list of elements implement the list of recent entries.
pub mod Push
pub mod Calls
pub mod Runs
use net_flux.Base.{
  ℕ, zero, suc, ◌+◌, ◌-◌, ◌≤◌, ◌<◌, ◌≡◌, ◌≢◌, refl, ap, ◌∙◌, sym, Bool, true, false, Option, none,
  some, List, [], ◌∷◌, length, take, length-take, ltb, ◌==◌, if◌then◌else◌, Bool-cases,
  Option-cases, inl, inr, arith,
}
use mathlib.Core.Logic.{ite}
use net_flux.Base.Map
use net_flux.Base.Map.{lookup-insert, lookup-delete}
use net_flux.Cache.Lru.{
  LruEntry, LruCache, new_lru_cache, find_elem, remove_elem, move_to_front, set_value, back,
  remove_element, remove_oldest, evict, get, push_new, put, delete, close,
}
use net_flux.Cache.Lru.Abstract
use net_flux.Cache.Lru.Abstract.{Recent, touch, touched}
use net_flux.Cache.Lru.Elements.{
  entries, elem_of, Good, find_of, find_below, lookup-entries-none, delete-entries-none,
  Good-remove, find-remove_self, entries-remove, elem_of-remove, length-remove, back-take,
}

module _ {K V : Type 0} where
  -- The abstract cache that a state stands for.
  unfoldable pub view : LruCache K V → Recent K V
  view c = record { items = entries c.ll; limit = c.limit; closed = c.closed }

module _ {K V : Type 0} (dec : Discrete K) where
  -- The map knows exactly the elements of the list, by their keys; elements and keys are distinct.
  pub record IsIndexed (c : LruCache K V) : Type 0 where
    pub agree : (k : K) → Map.lookup dec k c.cache ≡ elem_of dec k c.ll
    pub good : Good dec c.next_elem c.ll

  -- There are no more elements than the limit allows.
  pub record IsRep (c : LruCache K V) : Type 0 where
    pub indexed : IsIndexed c
    pub bound : length c.ll ≤ c.limit
    pub positive : 0 < c.limit

  -- What a call and its abstract counterpart have in common afterwards.
  pub record Matches (c' : LruCache K V) (a : Recent K V) : Type 0 where
    pub keeps : IsRep c'
    pub same : view c' ≡ a

  module _ (c : LruCache K V) (r : IsIndexed c) (k : K) (e : ℕ)
      (hit : elem_of dec k c.ll ≡ some e) where
    -- The element of the key, in front of the others and with the value v.
    unfoldable pub fronted : V → LruCache K V
    fronted v = record c { ll = (e, record { key = k; value = v }) ∷ remove_elem e c.ll }

    pub fronted-IsIndexed : (v : V) → IsIndexed (fronted v)
    unfolding fronted elem_of
    fronted-IsIndexed v =
        let (x, found, same, _) = find_of dec c.next_elem k e c.ll r.good hit in
        record {
          agree =
              λ q. ground (arith, r.agree q, elem_of-remove dec c.next_elem k q e c.ll r.good hit);
          good = (
            find_below dec c.next_elem e c.ll x r.good found,
            find-remove_self dec c.next_elem e c.ll r.good,
            ground (arith, elem_of-remove dec c.next_elem k k e c.ll r.good hit),
            Good-remove dec c.next_elem e c.ll r.good,
          );
        }

    pub length-fronted : (v : V) → length (fronted v).ll ≡ length c.ll
    unfolding fronted
    length-fronted v =
        let (x, found, same, _) = find_of dec c.next_elem k e c.ll r.good hit in
        omega (arith, length-remove dec e c.ll x found)

    pub entries-fronted : (v : V) → entries (fronted v).ll ≡ touch dec k v (entries c.ll)
    unfolding fronted touch entries
    entries-fronted v = rw (entries-remove dec c.next_elem k e c.ll r.good hit)

    -- The cache without the element of the key.
    pub removed-IsIndexed : (x : LruEntry K V) → x.key ≡ k → IsIndexed (remove_element dec (e, x) c)
    unfolding remove_element
    removed-IsIndexed x same = record {
      agree = λ q. ground (
        arith,
        r.agree q,
        elem_of-remove dec c.next_elem k q e c.ll r.good hit,
        lookup-delete dec x.key q c.cache,
      );
      good = Good-remove dec c.next_elem e c.ll r.good;
    }

    pub entries-removed :
        (x : LruEntry K V)
        → entries (remove_element dec (e, x) c).ll ≡ Map.delete dec k (entries c.ll)
    unfolding remove_element
    entries-removed x = entries-remove dec c.next_elem k e c.ll r.good hit

  -- Nothing is evicted while the limit is kept.
  pub evict_none : (fuel : ℕ) (c : LruCache K V) → length c.ll ≤ c.limit → evict dec fuel c ≡ c
  unfolding evict
  evict_none zero c h = refl
  evict_none (suc fuel) c h = ground arith

  evict_more :
      (fuel : ℕ) (c : LruCache K V)
      → length c.ll ≡ suc c.limit
      → evict dec (suc fuel) c ≡ evict dec fuel (remove_oldest dec c)
  unfolding evict
  evict_more fuel c full = ground arith

  remove_oldest-back :
      (c : LruCache K V) (p : ℕ × LruEntry K V)
      → back c.ll ≡ some p
      → remove_oldest dec c ≡ remove_element dec p c
  unfolding remove_oldest
  remove_oldest-back c p last = ground arith

  evict_step :
      (fuel : ℕ) (c : LruCache K V) (p : ℕ × LruEntry K V)
      → length c.ll ≡ suc c.limit
      → back c.ll ≡ some p
      → remove_elem p.0 c.ll ≡ take c.limit c.ll
      → evict dec (suc fuel) c ≡ remove_element dec p c
  unfolding remove_element
  evict_step fuel c p full last gone =
      evict_more fuel c full
      ∙ ap (evict dec fuel) (remove_oldest-back c p last)
      ∙ evict_none fuel (remove_element dec p c)
          (omega (arith, ap length gone, length-take c.limit c.ll))

  -- One element too many: the last one goes.
  pub evict_last :
      (fuel : ℕ) (c : LruCache K V)
      → IsIndexed c
      → length c.ll ≡ suc c.limit
      → IsIndexed (evict dec (suc fuel) c)
        × ((evict dec (suc fuel) c).ll ≡ take c.limit c.ll)
        × ((evict dec (suc fuel) c).limit ≡ c.limit)
        × ((evict dec (suc fuel) c).closed ≡ c.closed)
  unfolding remove_element
  evict_last fuel c r full =
      let (p, last, gone, here) = back-take dec c.next_elem c.limit c.ll r.good full in
      let one = evict_step fuel c p full last gone in
      rw one (removed-IsIndexed c r p.1.key p.0 here p.1 refl, gone, refl, refl)
