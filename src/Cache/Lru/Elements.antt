-- ===== src/Cache/Lru/Elements.antt =====
-- The list of elements: what finding and removing an element means for its keys and entries.
use net_flux.Base.{
  ℕ, zero, suc, ◌+◌, ◌<◌, ◌≡◌, refl, ap, Option, none, some, List, [], ◌∷◌, length, take, ◌==◌,
  Bool-cases, inl, inr, arith,
}
use mathlib.Core.Logic.{ite}
use net_flux.Base.Map
use net_flux.Cache.Lru.{LruEntry, find_elem, remove_elem, back}

module _ {K V : Type 0} where
  unfoldable pub entries : List (ℕ × LruEntry K V) → List (K × V)
  entries [] = []
  entries ((i, x) ∷ ll) = (x.key, x.value) ∷ entries ll

module _ {K V : Type 0} (dec : Discrete K) where
  -- The first element with the key.
  unfoldable pub elem_of : K → List (ℕ × LruEntry K V) → Option ℕ
  elem_of k [] = none
  elem_of k ((i, x) ∷ ll) = ite (dec x.key k) (some i) (elem_of k ll)

  -- No element and no key stands twice, and the numbers are below n.
  abbrev pub Good : ℕ → List (ℕ × LruEntry K V) → Type 0
  Good n [] = Unit
  Good n ((i, x) ∷ ll) = (i < n) × (find_elem i ll ≡ none) × (elem_of x.key ll ≡ none) × Good n ll

  pub find_of :
      (n : ℕ) (k : K) (e : ℕ) (ll : List (ℕ × LruEntry K V))
      → Good n ll
      → elem_of k ll ≡ some e
      → (x : LruEntry K V) × (find_elem e ll ≡ some x)
        × (x.key ≡ k)
        × (Map.lookup dec k (entries ll) ≡ some x.value)
  unfolding elem_of find_elem entries Map.lookup
  find_of n k e [] g h = cc
  find_of n k e ((i, x) ∷ ll) g h = elim (dec x.key k) [
    | yes p ↦ (x, ground arith, p, ground arith)
    | no p ↦
        let (y, found, same, looked) = find_of n k e ll g.3 (ground arith) in
        (y, ground arith, same, ground arith)
  ]

  pub find_below :
      (n e : ℕ) (ll : List (ℕ × LruEntry K V)) (y : LruEntry K V)
      → Good n ll
      → find_elem e ll ≡ some y
      → e < n
  unfolding find_elem
  find_below n e [] y g h = cc
  find_below n e ((i, x) ∷ ll) y g h = ground (arith, find_below n e ll y g.3)

  pub lookup-entries-none :
      (k : K) (ll : List (ℕ × LruEntry K V))
      → elem_of k ll ≡ none
      → Map.lookup dec k (entries ll) ≡ none
  unfolding elem_of entries Map.lookup
  lookup-entries-none k [] h = refl
  lookup-entries-none k ((i, x) ∷ ll) h = ground (arith, lookup-entries-none k ll)

  pub delete-entries-none :
      (k : K) (ll : List (ℕ × LruEntry K V))
      → elem_of k ll ≡ none
      → Map.delete dec k (entries ll) ≡ entries ll
  unfolding elem_of entries Map.delete
  delete-entries-none k [] h = refl
  delete-entries-none k ((i, x) ∷ ll) h = ground (arith, delete-entries-none k ll)

  pub find-remove_none :
      (i e : ℕ) (ll : List (ℕ × LruEntry K V))
      → find_elem i ll ≡ none
      → find_elem i (remove_elem e ll) ≡ none
  unfolding find_elem remove_elem
  find-remove_none i e [] h = refl
  find-remove_none i e ((j, x) ∷ ll) h = ground (arith, find-remove_none i e ll)

  pub elem_of-remove_none :
      (k : K) (e : ℕ) (ll : List (ℕ × LruEntry K V))
      → elem_of k ll ≡ none
      → elem_of k (remove_elem e ll) ≡ none
  unfolding elem_of remove_elem
  elem_of-remove_none k e [] h = refl
  elem_of-remove_none k e ((j, x) ∷ ll) h = ground (arith, elem_of-remove_none k e ll)

  pub Good-remove : (n e : ℕ) (ll : List (ℕ × LruEntry K V)) → Good n ll → Good n (remove_elem e ll)
  unfolding remove_elem
  Good-remove n e [] g = tt
  Good-remove n e ((j, x) ∷ ll) g = elim (Bool-cases (j == e)) [
    | inl same ↦ rw same g.3
    | inr other ↦ rw other (
      g.0,
      find-remove_none j e ll g.1,
      elem_of-remove_none x.key e ll g.2,
      Good-remove n e ll g.3,
    )
  ]

  pub find-remove_self :
      (n e : ℕ) (ll : List (ℕ × LruEntry K V)) → Good n ll → find_elem e (remove_elem e ll) ≡ none
  unfolding find_elem remove_elem
  find-remove_self n e [] g = refl
  find-remove_self n e ((j, x) ∷ ll) g = ground (arith, find-remove_self n e ll g.3)

  pub entries-remove :
      (n : ℕ) (k : K) (e : ℕ) (ll : List (ℕ × LruEntry K V))
      → Good n ll
      → elem_of k ll ≡ some e
      → entries (remove_elem e ll) ≡ Map.delete dec k (entries ll)
  unfolding elem_of remove_elem entries Map.delete
  entries-remove n k e [] g h = cc
  entries-remove n k e ((j, x) ∷ ll) g h =
      ground (arith, entries-remove n k e ll g.3, find_of n k e ll g.3, delete-entries-none k ll)

  pub elem_of-remove :
      (n : ℕ) (k q : K) (e : ℕ) (ll : List (ℕ × LruEntry K V))
      → Good n ll
      → elem_of k ll ≡ some e
      → elem_of q (remove_elem e ll) ≡ ite (dec k q) none (elem_of q ll)
  unfolding elem_of remove_elem
  elem_of-remove n k q e [] g h = cc
  elem_of-remove n k q e ((j, x) ∷ ll) g h =
      ground (arith, elem_of-remove n k q e ll g.3, find_of n k e ll g.3)

  pub length-remove :
      (e : ℕ) (ll : List (ℕ × LruEntry K V)) (y : LruEntry K V)
      → find_elem e ll ≡ some y
      → length (remove_elem e ll) + 1 ≡ length ll
  unfolding find_elem remove_elem
  length-remove e [] y h = cc
  length-remove e ((j, x) ∷ ll) y h = ground (arith, length-remove e ll y)

  back_step :
      (i m : ℕ) (x y : LruEntry K V) (t : List (ℕ × LruEntry K V)) (p : ℕ × LruEntry K V)
      → find_elem i t ≡ none
      → elem_of x.key t ≡ none
      → remove_elem p.0 t ≡ take m t
      → elem_of p.1.key t ≡ some p.0
      → find_elem p.0 t ≡ some y
      → (remove_elem p.0 ((i, x) ∷ t) ≡ (i, x) ∷ take m t)
        × (elem_of p.1.key ((i, x) ∷ t) ≡ some p.0)
  unfolding remove_elem elem_of
  back_step i m x y t p fresh_elem fresh_key removed found there = ground arith

  -- The last element: removing it leaves the first n.
  pub back-take :
      (n m : ℕ) (ll : List (ℕ × LruEntry K V))
      → Good n ll
      → length ll ≡ suc m
      → (p : ℕ × LruEntry K V) × (back ll ≡ some p)
        × (remove_elem p.0 ll ≡ take m ll)
        × (elem_of p.1.key ll ≡ some p.0)
  unfolding back
  back-take n m [] g h = absurd (omega arith)
  back-take n zero (p ∷ []) g h = let (gone, there) = only p.0 p.1 in (p, refl, gone, there)
    where
      only :
          (i : ℕ) (x : LruEntry K V)
          → (remove_elem i ((i, x) ∷ []) ≡ []) × (elem_of x.key ((i, x) ∷ []) ≡ some i)
      only i x = unfold remove_elem elem_of in ground arith
  back-take n (suc m) (p ∷ []) g h = absurd (omega arith)
  back-take n zero (p ∷ q ∷ ll) g h = absurd (omega arith)
  back-take n (suc m) ((i, x) ∷ q ∷ ll) g h =
      let (p, last, removed, found) = back-take n m (q ∷ ll) g.3 (omega arith) in
      let (y, there, _, _) = find_of n p.1.key p.0 (q ∷ ll) g.3 found in
      let (gone, here) = back_step i m x y (q ∷ ll) p g.1 g.2 removed found there in
      (p, last, gone, here)

  pub entries-take :
      (n : ℕ) (ll : List (ℕ × LruEntry K V)) → entries (take n ll) ≡ take n (entries ll)
  unfolding entries
  entries-take zero ll = refl
  entries-take (suc n) [] = refl
  entries-take (suc n) ((i, x) ∷ ll) = ap (◌∷◌ (x.key, x.value)) (entries-take n ll)

  pub length-entries : (ll : List (ℕ × LruEntry K V)) → length (entries ll) ≡ length ll
  unfolding entries
  length-entries [] = refl
  length-entries ((i, x) ∷ ll) = ap suc (length-entries ll)

module _ {K V : Type 0} (dec : Discrete K) where
  pub find_fresh : (n : ℕ) (ll : List (ℕ × LruEntry K V)) → Good dec n ll → find_elem n ll ≡ none
  unfolding find_elem
  find_fresh n [] g = refl
  find_fresh n ((i, x) ∷ ll) g = ground (arith, find_fresh n ll g.3)

  pub Good-suc : (n : ℕ) (ll : List (ℕ × LruEntry K V)) → Good dec n ll → Good dec (n + 1) ll
  Good-suc n [] g = tt
  Good-suc n ((i, x) ∷ ll) g = (omega arith, g.1, g.2, Good-suc n ll g.3)
