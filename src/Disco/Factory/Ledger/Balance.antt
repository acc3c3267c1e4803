-- ===== src/Disco/Factory/Ledger/Balance.antt =====
-- No client that the factory makes is lost: it is on its way, kept or closed.
use net_flux.Base.{
  ℕ, zero, suc, ◌+◌, ◌≡◌, refl, some, List, [], ◌∷◌, ◌++◌, map, Option-cases, inl, inr, arith,
}
use native.Mathlib.Decide.{ℕ_discrete}
use net_flux.Base.Map
use net_flux.Base.Map.Totals.{
  total, weight_of, DistinctKeys, insert-DistinctKeys, delete-DistinctKeys, total-insert,
  total-delete,
}
use net_flux.Base.Text.{Str, str_discrete}
use net_flux.Naming.Nacos.Clients.{NacosClient}
use net_flux.Disco.Factory.{Storage, StorageItem, item_of, keep_client, remove_client, remove_all}
use net_flux.Disco.Factory.Ledger.{
  Maker, Factory, new_factory, Step, miss, keep, remove, remove_each, pick_maker, step, run, is,
  times, times_held, times_in, times_stored,
}

-- No name stands twice in an item, and no connection twice in the storage.
unfoldable AllDistinct : Storage → Type 0
AllDistinct [] = Unit {0}
AllDistinct ((conn, item) ∷ storage) = DistinctKeys str_discrete item × AllDistinct storage

abbrev IsTable : Storage → Type 0
IsTable storage = DistinctKeys ℕ_discrete storage × AllDistinct storage

times-append :
    (c : NacosClient) (xs ys : List NacosClient) → times c (xs ++ ys) ≡ times c xs + times c ys
unfolding times
times-append c [] ys = omega arith
times-append c (x ∷ xs) ys = omega (arith, times-append c xs ys)

times-clients :
    (c : NacosClient) (item : StorageItem) → times c (map (λ p. p.1) item) ≡ times_in c item
unfolding times times_in total
times-clients c [] = refl
times-clients c ((name, d) ∷ item) = omega (arith, times-clients c item)

times_held-pick_maker :
    (c : NacosClient) (i : ℕ) (ms : List Maker) (m : Maker) (rest : List Maker)
    → pick_maker i ms ≡ some (m, rest)
    → times_held c ms ≡ is c m.made + times_held c rest
unfolding pick_maker times_held
times_held-pick_maker c i [] m rest picked = ground (arith, picked)
times_held-pick_maker c zero (x ∷ ms) m rest picked = ground (arith, picked)
times_held-pick_maker c (suc i) (x ∷ ms) m rest picked = elim (Option-cases (pick_maker i ms)) [
  | inl e ↦ ground (arith, e, picked)
  | inr ((m', rest'), e) ↦
      let others = times_held-pick_maker c i ms m' rest' e in ground (arith, e, picked, others)
]

insert-AllDistinct :
    (conn : ℕ) (item : StorageItem) (storage : Storage)
    → DistinctKeys str_discrete item
    → AllDistinct storage
    → AllDistinct (Map.insert ℕ_discrete conn item storage)
unfolding AllDistinct Map.insert
insert-AllDistinct conn item [] ok all = (ok, tt)
insert-AllDistinct conn item ((j, other) ∷ storage) ok (first, all) =
    let rest = insert-AllDistinct conn item storage ok all in ground (arith, ok, first, all, rest)

delete-AllDistinct :
    (conn : ℕ) (storage : Storage)
    → AllDistinct storage
    → AllDistinct (Map.delete ℕ_discrete conn storage)
unfolding AllDistinct Map.delete
delete-AllDistinct conn [] all = tt
delete-AllDistinct conn ((j, other) ∷ storage) (first, all) =
    let rest = delete-AllDistinct conn storage all in ground (arith, first, rest)

item_of-Distinct :
    (conn : ℕ) (storage : Storage)
    → AllDistinct storage
    → DistinctKeys str_discrete (item_of conn storage)
unfolding item_of AllDistinct Map.lookup DistinctKeys
item_of-Distinct conn [] all = tt
item_of-Distinct conn ((j, item) ∷ storage) (first, all) =
    let rest = item_of-Distinct conn storage all in ground (arith, first, rest)

times_in-item_of :
    (c : NacosClient) (conn : ℕ) (storage : Storage)
    → times_in c (item_of conn storage)
      ≡ weight_of (times_in c) (Map.lookup ℕ_discrete conn storage)
unfolding item_of times_in total
times_in-item_of c conn storage = ground arith

times_stored-insert :
    (c : NacosClient) (conn : ℕ) (item : StorageItem) (storage : Storage)
    → times_stored c (Map.insert ℕ_discrete conn item storage) + times_in c (item_of conn storage)
      ≡ times_stored c storage + times_in c item
unfolding times_stored
times_stored-insert c conn item storage =
    omega (
      arith,
      times_in-item_of c conn storage,
      total-insert ℕ_discrete (times_in c) conn item storage,
    )

keep_client-times :
    (c : NacosClient) (conn : ℕ) (name : Str) (cli : NacosClient) (storage : Storage)
    → let (storage', _, closed) = keep_client conn name cli storage in
      times_stored c storage' + times c closed ≡ times_stored c storage + is c cli
unfolding keep_client times
keep_client-times c conn name cli storage =
    let item = item_of conn storage in
    let item' = Map.insert str_discrete name cli item in
    let stored = times_stored-insert c conn item' storage in
    let more = total-insert str_discrete (is c) name cli item in
    unfold times_in in ground (arith, stored, more)

remove_client-times :
    (c : NacosClient) (conn : ℕ) (name : Str) (storage : Storage)
    → AllDistinct storage
    → let (storage', closed) = remove_client conn name storage in
      times_stored c storage' + times c closed ≡ times_stored c storage
unfolding remove_client times
remove_client-times c conn name storage all =
    let item = item_of conn storage in
    let item' = Map.delete str_discrete name item in
    let stored = times_stored-insert c conn item' storage in
    let less = total-delete str_discrete (is c) name item (item_of-Distinct conn storage all) in
    unfold times_in in unfold item_of in ground (arith, stored, less)

remove_all-times :
    (c : NacosClient) (conn : ℕ) (storage : Storage)
    → DistinctKeys ℕ_discrete storage
    → let (storage', closed) = remove_all conn storage in
      times_stored c storage' + times c closed ≡ times_stored c storage
unfolding remove_all times_stored
remove_all-times c conn storage ok = omega (
  arith,
  total-delete ℕ_discrete (times_in c) conn storage ok,
  times_in-item_of c conn storage,
  times-clients c (item_of conn storage),
)

keep_client-IsTable :
    (conn : ℕ) (name : Str) (cli : NacosClient) (storage : Storage)
    → IsTable storage
    → IsTable (keep_client conn name cli storage).0
unfolding keep_client
keep_client-IsTable conn name cli storage (distinct, all) =
    let item = item_of conn storage in
    let item' = Map.insert str_discrete name cli item in
    let ok = insert-DistinctKeys str_discrete name cli item (item_of-Distinct conn storage all) in
    let outer = insert-DistinctKeys ℕ_discrete conn item' storage distinct in
    let inner = insert-AllDistinct conn item' storage ok all in
    ground (arith, distinct, all, outer, inner)

remove_client-IsTable :
    (conn : ℕ) (name : Str) (storage : Storage)
    → IsTable storage
    → IsTable (remove_client conn name storage).0
unfolding remove_client
remove_client-IsTable conn name storage (distinct, all) =
    let item = item_of conn storage in
    let item' = Map.delete str_discrete name item in
    let ok = delete-DistinctKeys str_discrete name item (item_of-Distinct conn storage all) in
    let outer = insert-DistinctKeys ℕ_discrete conn item' storage distinct in
    let inner = insert-AllDistinct conn item' storage ok all in
    unfold item_of in ground (arith, distinct, all, outer, inner)

remove_all-IsTable :
    (conn : ℕ) (storage : Storage) → IsTable storage → IsTable (remove_all conn storage).0
unfolding remove_all
remove_all-IsTable conn storage (distinct, all) =
    (delete-DistinctKeys ℕ_discrete conn storage distinct, delete-AllDistinct conn storage all)

-- Each client is on its way, kept or closed as often as it was made.
abbrev pub Balances : NacosClient → Factory → Type 0
Balances c f = times c f.made ≡ times_held c f.makers + times_stored c f.storage + times c f.closed

step-IsTable : (s : Step) (f : Factory) → IsTable f.storage → IsTable (step s f).storage
unfolding step
step-IsTable (miss conn name cli) f ok = ground (arith, ok)
step-IsTable (keep i) f ok = elim (Option-cases (pick_maker i f.makers)) [
  | inl e ↦ ground (arith, e, ok)
  | inr ((m, rest), e) ↦
      rw (step, e) (keep_client-IsTable m.conn m.service_name m.made f.storage ok)
]
step-IsTable (remove conn name) f ok = remove_client-IsTable conn name f.storage ok
step-IsTable (remove_each conn) f ok = remove_all-IsTable conn f.storage ok

step-Balances :
    (c : NacosClient) (s : Step) (f : Factory)
    → IsTable f.storage
    → Balances c f
    → Balances c (step s f)
unfolding step
step-Balances c (miss conn name cli) f ok even =
    unfold times in unfold times_held in ground (arith, even)
step-Balances c (keep i) f ok even = elim (Option-cases (pick_maker i f.makers)) [
  | inl e ↦ ground (arith, e, even)
  | inr ((m, rest), e) ↦
      let kept = keep_client-times c m.conn m.service_name m.made f.storage in
      let held = times_held-pick_maker c i f.makers m rest e in
      let (_, _, closed) = keep_client m.conn m.service_name m.made f.storage in
      rw (step, e) (omega (arith, even, kept, held, times-append c closed f.closed))
]
step-Balances c (remove conn name) f ok even =
    let removed = remove_client-times c conn name f.storage ok.1 in
    let (_, closed) = remove_client conn name f.storage in
    omega (arith, even, removed, times-append c closed f.closed)
step-Balances c (remove_each conn) f ok even =
    let removed = remove_all-times c conn f.storage ok.0 in
    let (_, closed) = remove_all conn f.storage in
    omega (arith, even, removed, times-append c closed f.closed)

run-from :
    (c : NacosClient) (steps : List Step) (f : Factory)
    → IsTable f.storage
    → Balances c f
    → Balances c (run steps f)
unfolding run
run-from c [] f ok even = even
run-from c (s ∷ steps) f ok even =
    run-from c steps (step s f) (step-IsTable s f ok) (step-Balances c s f ok even)

-- Whatever goroutines ask a new factory for clients and remove them, with whatever comes between the
-- creation of a client and its being kept: each client is on its way, kept or closed as often as it
-- was made, so that one which was made once is never closed while it is kept, nor closed twice.
pub run-Balances : (c : NacosClient) (steps : List Step) → Balances c (run steps new_factory)
unfolding DistinctKeys AllDistinct times times_held times_stored total
run-Balances c steps = run-from c steps new_factory (tt, tt) refl
