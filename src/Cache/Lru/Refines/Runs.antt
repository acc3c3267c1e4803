-- ===== src/Cache/Lru/Refines/Runs.antt =====
-- A run of calls on a new cache against the same run on the abstract cache.
use net_flux.Base.{
  ℕ, ◌≤◌, ◌≡◌, refl, true, false, Option, none, List, [], ◌∷◌, Bool-cases, inl, inr, arith,
}
use net_flux.Base.Map
use net_flux.Cache.Lru.{LruCache, new_lru_cache, get, put, delete, close, cache_length}
use net_flux.Cache.Lru.Abstract
use net_flux.Cache.Lru.Abstract.{Recent}
use net_flux.Cache.Lru.Elements.{entries, elem_of}
use net_flux.Cache.Lru.Refines.{view, IsRep}
use net_flux.Cache.Lru.Refines.Calls.{get-Matches, put-Matches, delete-Matches}

pub data Call (K V : Type 0) : Type 0 where
  get_call : K → Call K V
  put_call : K → V → Call K V
  delete_call : K → Call K V
  close_call : Call K V

module _ {K V : Type 0} (dec : Discrete K) where
  -- A call, with what `Get` returned.
  unfoldable pub call : Call K V → LruCache K V → LruCache K V × Option V
  call (get_call k) c = get dec k c
  call (put_call k v) c = (put dec k v c, none)
  call (delete_call k) c = (delete dec k c, none)
  call close_call c = (close c, none)

  unfoldable pub abstract_call : Call K V → Recent K V → Recent K V × Option V
  abstract_call (get_call k) r = Abstract.get dec k r
  abstract_call (put_call k v) r = (Abstract.put dec k v r, none)
  abstract_call (delete_call k) r = (Abstract.delete dec k r, none)
  abstract_call close_call r = (Abstract.close dec r, none)

  -- What the calls of a run returned, and the state in the end.
  unfoldable pub run : List (Call K V) → LruCache K V → LruCache K V × List (Option V)
  run [] c = (c, [])
  run (o ∷ os) c = let (c1, v) = call o c in let (c2, vs) = run os c1 in (c2, v ∷ vs)

  unfoldable pub abstract_run : List (Call K V) → Recent K V → Recent K V × List (Option V)
  abstract_run [] r = (r, [])
  abstract_run (o ∷ os) r =
      let (r1, v) = abstract_call o r in let (r2, vs) = abstract_run os r1 in (r2, v ∷ vs)

  closed_call :
      (o : Call K V) (c : LruCache K V)
      → c.closed ≡ true
      → (call o c ≡ (c, none)) × (abstract_call o (view c) ≡ (view c, none))
  unfolding call abstract_call get put delete close view Abstract.get Abstract.put Abstract.delete
      Abstract.close
  closed_call (get_call k) c shut = ground arith
  closed_call (put_call k v) c shut = ground arith
  closed_call (delete_call k) c shut = ground arith
  closed_call close_call c shut = ground arith

  close-IsRep :
      (c : LruCache K V)
      → c.closed ≡ false
      → IsRep dec c
      → IsRep dec (close c) × (view (close c) ≡ Abstract.close dec (view c))
  unfolding close view Abstract.close elem_of entries Map.lookup
  close-IsRep c open_ r = rw open_ (
    record {
      indexed = record { agree = λ q. refl; good = tt };
      bound = omega arith;
      positive = r.positive;
    },
    refl,
  )

  open_call-Refines :
      (o : Call K V) (c : LruCache K V)
      → c.closed ≡ false
      → IsRep dec c
      → IsRep dec (call o c).0
        × (view (call o c).0 ≡ (abstract_call o (view c)).0)
        × ((call o c).1 ≡ (abstract_call o (view c)).1)
  unfolding call abstract_call
  open_call-Refines (get_call k) c open_ r =
      let (m, result) = get-Matches dec c open_ r k in (m.keeps, m.same, result)
  open_call-Refines (put_call k v) c open_ r =
      let m = put-Matches dec c open_ r k v in (m.keeps, m.same, refl)
  open_call-Refines (delete_call k) c open_ r =
      let m = delete-Matches dec c open_ r k in (m.keeps, m.same, refl)
  open_call-Refines close_call c open_ r =
      let (keeps, same) = close-IsRep c open_ r in (keeps, same, refl)

  call-Refines :
      (o : Call K V) (c : LruCache K V)
      → IsRep dec c
      → IsRep dec (call o c).0
        × (view (call o c).0 ≡ (abstract_call o (view c)).0)
        × ((call o c).1 ≡ (abstract_call o (view c)).1)
  call-Refines o c r = elim (Bool-cases c.closed) [
    | inl shut ↦ let (mine, its) = closed_call o c shut in rw mine (rw its (r, refl, refl))
    | inr open_ ↦ open_call-Refines o c open_ r
  ]

  new_lru_cache-IsRep : (limit : ℕ) → IsRep {V = V} dec (new_lru_cache limit)
  unfolding new_lru_cache elem_of Map.lookup
  new_lru_cache-IsRep limit = record {
    indexed = record { agree = λ q. refl; good = tt };
    bound = omega arith;
    positive = ground arith;
  }

  run-Matches :
      (os : List (Call K V)) (c : LruCache K V)
      → IsRep dec c
      → IsRep dec (run os c).0
        × (view (run os c).0 ≡ (abstract_run os (view c)).0)
        × ((run os c).1 ≡ (abstract_run os (view c)).1)
  unfolding run abstract_run
  run-Matches [] c r = (r, refl, refl)
  run-Matches (o ∷ os) c r =
      let (r1, state, result) = call-Refines o c r in
      let (r2, states, results) = run-Matches os (call o c).0 r1 in
      (r2, ground (arith, state, states), ground (arith, state, result, results))

  -- Whatever is called on a new cache, in whatever order: the calls return what they return on the
  -- abstract cache, the state stands for the abstract one's, and the number of its elements is
  -- within its limit.
  pub run-Refines :
      (limit : ℕ) (os : List (Call K V))
      → let c = new_lru_cache limit in
        ((run os c).1 ≡ (abstract_run os (view c)).1)
        × (view (run os c).0 ≡ (abstract_run os (view c)).0)
        × (cache_length (run os c).0 ≤ (run os c).0.limit)
  unfolding cache_length
  run-Refines limit os =
      let (r, states, results) = run-Matches os (new_lru_cache limit) (new_lru_cache-IsRep limit) in
      (results, states, r.bound)
