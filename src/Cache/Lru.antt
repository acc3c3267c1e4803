-- ===== src/Cache/Lru.antt =====
-- pkg/util/cache/lru.go: a map from keys to the elements of a doubly linked list, the most recent
-- element in front. An element is named by a number that stands for its pointer; the list holds
-- each element's number and entry, the map the number of each key. The elements and the list are
-- those of container/list. The lock is held through each method, so that a method is one step.
pub mod Abstract
pub mod Elements
pub mod Refines
use net_flux.Base.{
  ℕ, zero, suc, ◌+◌, ◌≤◌, Bool, true, false, Option, none, some, List, [], ◌∷◌, length, ltb, leb,
  ◌==◌, if◌then◌else◌,
}
use net_flux.Base.Map

pub record LruEntry (K V : Type 0) : Type 0 where
  pub key : K
  pub value : V

pub record LruCache (K V : Type 0) : Type 0 where
  pub cache : List (K × ℕ)
  pub ll : List (ℕ × LruEntry K V)
  pub next_elem : ℕ
  pub limit : ℕ
  pub closed : Bool

abbrev pub default_limit : ℕ
default_limit = 1024

module _ {K V : Type 0} where
  -- A limit that is not positive is passed as 0.
  unfoldable pub new_lru_cache : ℕ → LruCache K V
  new_lru_cache limit = record {
    cache = [];
    ll = [];
    next_elem = 0;
    limit = if limit == 0 then default_limit else limit;
    closed = false;
  }

  -- The element with the number, and the list without it (`List.Remove`).
  unfoldable pub find_elem : ℕ → List (ℕ × LruEntry K V) → Option (LruEntry K V)
  find_elem e [] = none
  find_elem e ((i, x) ∷ ll) = if i == e then some x else find_elem e ll

  unfoldable pub remove_elem : ℕ → List (ℕ × LruEntry K V) → List (ℕ × LruEntry K V)
  remove_elem e [] = []
  remove_elem e ((i, x) ∷ ll) = if i == e then ll else (i, x) ∷ remove_elem e ll

  -- `MoveToFront`; an element that the list does not hold is ignored.
  unfoldable pub move_to_front : ℕ → List (ℕ × LruEntry K V) → List (ℕ × LruEntry K V)
  move_to_front e ll = elim (find_elem e ll) [ none ↦ ll | some x ↦ (e, x) ∷ remove_elem e ll ]

  -- `elem.Value.(*lruEntry).value = value`
  unfoldable pub set_value : ℕ → V → List (ℕ × LruEntry K V) → List (ℕ × LruEntry K V)
  set_value e v [] = []
  set_value e v ((i, x) ∷ ll) =
      if i == e then (i, record x { value = v }) ∷ ll else (i, x) ∷ set_value e v ll

  -- `Back`
  unfoldable pub back : List (ℕ × LruEntry K V) → Option (ℕ × LruEntry K V)
  back [] = none
  back (x ∷ []) = some x
  back (x ∷ y ∷ ll) = back (y ∷ ll)

module _ {K V : Type 0} (dec : Discrete K) where
  -- `removeElementLocked`, of an element and its entry.
  unfoldable pub remove_element : ℕ × LruEntry K V → LruCache K V → LruCache K V
  remove_element (e, x) c = record c {
    ll = remove_elem e c.ll;
    cache = Map.delete dec x.key c.cache;
  }

  unfoldable pub remove_oldest : LruCache K V → LruCache K V
  remove_oldest c = elim (back c.ll) [ none ↦ c | some x ↦ remove_element x c ]

  -- `for c.ll.Len() > c.limit`, on fuel.
  unfoldable pub evict : ℕ → LruCache K V → LruCache K V
  evict zero c = c
  evict (suc fuel) c =
      let rest = evict fuel (remove_oldest c) in if ltb c.limit (length c.ll) then rest else c

  -- The result is `none` where Go returns nil.
  unfoldable pub get : K → LruCache K V → LruCache K V × Option V
  get key c = if c.closed then (c, none) else elim (Map.lookup dec key c.cache) [
    | none ↦ (c, none)
    | some e ↦ elim (find_elem e c.ll) [
      | none ↦ (c, none)
      | some x ↦ (record c { ll = move_to_front e c.ll }, some x.value)
    ]
  ]

  -- A new element goes to the front, and then the oldest ones go until the limit is kept: fuel for
  -- as many rounds as there are elements.
  unfoldable pub push_new : K → V → LruCache K V → LruCache K V
  push_new key v c =
      let ll = (c.next_elem, record { key = key; value = v }) ∷ c.ll in
      evict (length ll) (record c {
        ll = ll;
        cache = Map.insert dec key c.next_elem c.cache;
        next_elem = c.next_elem + 1;
      })

  -- `Set`
  unfoldable pub put : K → V → LruCache K V → LruCache K V
  put key v c = if c.closed then c else elim (Map.lookup dec key c.cache) [
    | some e ↦ record c { ll = set_value e v (move_to_front e c.ll) }
    | none ↦ push_new key v c
  ]

  -- `Delete`
  unfoldable pub delete : K → LruCache K V → LruCache K V
  delete key c = if c.closed then c else elim (Map.lookup dec key c.cache) [
    | none ↦ c
    | some e ↦ elim (find_elem e c.ll) [ none ↦ c | some x ↦ remove_element (e, x) c ]
  ]

module _ {K V : Type 0} where
  unfoldable pub close : LruCache K V → LruCache K V
  close c = if c.closed then c else record c { closed = true; cache = []; ll = [] }

  unfoldable pub cache_length : LruCache K V → ℕ
  cache_length c = length c.ll
