-- ===== src/Cache/Tests.antt =====
-- The caches on short runs of calls.
use net_flux.Base.{ℕ, ◌+◌, Option, ◌≤◌, ◌≡◌, refl, false, none, some, List, [], ◌∷◌}
use native.Mathlib.Decide.{ℕ_discrete}
use net_flux.Base.Int.{pos, negsuc}
use net_flux.Base.Map
use net_flux.Base.Text.{codes, trim_space, trim_left, is_space}
use net_flux.Cache.Redis.{Universal, new_options_from_cluster, new_client}
use net_flux.Cache.Redis.Cluster.{join_comma, Makes, new_client-cluster}
use net_flux.Cache.Lru
use net_flux.Cache.Lru.{new_lru_cache, cache_length}
use net_flux.Cache.Lru.Refines.{view}
use net_flux.Cache.Lru.Refines.Runs
use net_flux.Cache.Lru.Refines.Runs.{
  get_call, put_call, delete_call, close_call, abstract_run, run-Refines,
}
use net_flux.Cache.InMem.{InMemCache, new_in_mem_cache}
use net_flux.Cache.InMem.Runs as Timed
use net_flux.Cache.InMem.Runs.{ledger_run, run-ledger}

abbrev lru_calls : List (Runs.Call ℕ ℕ)
lru_calls =
    put_call 1 10
    ∷ put_call 2 20
    ∷ get_call 1
    ∷ put_call 3 30
    ∷ get_call 2
    ∷ delete_call 1
    ∷ get_call 3
    ∷ close_call
    ∷ []

-- With room for two, the third key takes the place of the one that was not read.
lru_results :
    (Runs.run ℕ_discrete lru_calls (new_lru_cache 2)).1
    ≡ none ∷ none ∷ some 10 ∷ none ∷ none ∷ none ∷ some 30 ∷ none ∷ []
unfolding Runs.run Runs.call new_lru_cache Lru.get Lru.put Lru.push_new Lru.evict Lru.remove_oldest
    Lru.remove_element Lru.back Lru.delete Lru.close Lru.find_elem Lru.remove_elem Lru.move_to_front
    Lru.set_value Map.lookup Map.insert Map.delete ℕ_discrete
lru_results = refl

run-Refines_example :
    let c = new_lru_cache 2 in
    ((Runs.run ℕ_discrete lru_calls c).1 ≡ (abstract_run ℕ_discrete lru_calls (view c)).1)
    × (view (Runs.run ℕ_discrete lru_calls c).0 ≡ (abstract_run ℕ_discrete lru_calls (view c)).0)
    × (cache_length (Runs.run ℕ_discrete lru_calls c).0 ≤ (Runs.run ℕ_discrete lru_calls c).0.limit)
run-Refines_example = run-Refines ℕ_discrete 2 lru_calls

abbrev timed_calls : List (ℕ × Timed.Call ℕ ℕ)
timed_calls =
    (5, Timed.set_call 1 10 (pos 100))
    ∷ (50, Timed.get_call 1)
    ∷ (50, Timed.get_call 1)
    ∷ (60, Timed.cleanup_call)
    ∷ (1, Timed.get_call 1)
    ∷ (0, Timed.set_call 2 20 (pos 7))
    ∷ (8, Timed.read_call 2)
    ∷ (1, Timed.set_call 2 30 (pos 7))
    ∷ (1, Timed.delete_call 2)
    ∷ (1, Timed.get_call 2)
    ∷ []

run-ledger_example :
    (Timed.run ℕ_discrete 1 timed_calls new_in_mem_cache).1
    ≡ (ledger_run ℕ_discrete 1 timed_calls (record { last = λ _. none; closed = false })).1
run-ledger_example = run-ledger ℕ_discrete 1 timed_calls

abbrev stale : InMemCache ℕ ℕ
stale = record { cache = (1, record { value = 10; expiration = pos 5 }) ∷ []; closed = false }

-- The number of commands; every ping fails.
abbrev failing : Universal → ℕ → ℕ × Option ℕ
failing cli n = (n + 1, some 7)

new_client-cluster_example : Makes failing failing (codes "a:1" ∷ codes "b:2" ∷ []) [] (pos 10) 0 (
    new_client failing failing
      (some (
        new_options_from_cluster
          (join_comma (codes " a:1") (codes "  " ∷ codes "b:2" ∷ []))
          []
          (negsuc 4)))
      0)
unfolding trim_space trim_left is_space
new_client-cluster_example =
    new_client-cluster failing failing (codes " a:1") (codes "  " ∷ codes "b:2" ∷ []) [] (negsuc 4)
      0 refl
