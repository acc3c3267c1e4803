-- ===== src/Cache/InMem/Runs.antt =====
-- A run of timed calls against a ledger of what was written last, from which nothing is cleaned up.
use net_flux.Base.{
  ℕ, ◌+◌, ◌==◌, leb, not, ◌||◌, ◌≤◌, ◌≡◌, refl, inl, inr, Option-cases, ◌∙◌, Bool, true, false,
  Option, none, some, List, [], ◌∷◌, if◌then◌else◌, arith,
}
use mathlib.Core.Logic.{ite}
use net_flux.Base.Int.{ℤ, pos, negsuc}
use net_flux.Base.Map
use net_flux.Base.Map.{lookup-insert, lookup-delete}
use net_flux.Cache.InMem.{
  ItemWithTtl, InMemCache, new_in_mem_cache, add_ttl, is_past, expired, cleanup, close, delete,
  read, get, set_with_ttl,
}
use net_flux.Cache.InMem.Entries.{
  live_item, Distinct, insert-Distinct, delete-Distinct, lookup-sweep, sweep-Distinct, live-kept,
  expired_later,
}

pub data Call (K V : Type 0) : Type 0 where
  get_call read_call : K → Call K V
  set_call : K → V → ℤ → Call K V
  delete_call : K → Call K V
  cleanup_call : Call K V
  close_call : Call K V

-- What was written for a key last, when, and for how long.
pub record Written (V : Type 0) : Type 0 where
  pub value : V
  pub since : ℕ
  pub ttl : ℤ

-- Whether a value that was set at an instant for a time can be seen at a later one: until that time
-- is up, the last instant included. A deadline that is the zero time means for ever.
unfoldable pub is_seen : ℕ → ℕ → ℤ → Bool
is_seen t since (pos n) = leb t (since + n) || (since + n == 0)
is_seen t since (negsuc n) = since == n + 1

unfoldable pub seen : {V : Type 0} → ℕ → Option (Written V) → Option V
seen t none = none
seen t (some w) = if is_seen t w.since w.ttl then some w.value else none

-- What was written last for each key, unless it was deleted since.
pub record Ledger (K V : Type 0) : Type 0 where
  pub last : K → Option (Written V)
  pub closed : Bool

is_seen-is_past :
    (now t : ℕ) (ttl : ℤ) → now ≤ t → is_past t (add_ttl now ttl) ≡ not (is_seen t now ttl)
unfolding is_past add_ttl is_seen
is_seen-is_past now t (pos n) le = ground arith
is_seen-is_past now t (negsuc n) le = ground arith

-- A value that has just been set is seen as long as the entry made for it is not expired.
live_item-seen :
    {V : Type 0} (now t : ℕ) (v : V) (ttl : ℤ)
    → now ≤ t
    → live_item t (some (record { value = v; expiration = add_ttl now ttl }))
      ≡ seen t (some (record { value = v; since = now; ttl = ttl }))
unfolding live_item seen expired
live_item-seen now t v ttl le = ground (arith, is_seen-is_past now t ttl le)

module _ {K V : Type 0} (dec : Discrete K) where
  unfoldable pub call : ℕ → Call K V → InMemCache K V → InMemCache K V × Option V
  call now (get_call k) c = get dec now k c
  call now (read_call k) c = (c, (read dec now k c).0)
  call now (set_call k v ttl) c = (set_with_ttl dec now k v ttl c, none)
  call now (delete_call k) c = (delete dec k c, none)
  call now cleanup_call c = (cleanup now c, none)
  call now close_call c = (close c, none)

  unfoldable pub ledger_call : ℕ → Call K V → Ledger K V → Ledger K V × Option V
  ledger_call now (get_call k) a = (a, seen now (a.last k))
  ledger_call now (read_call k) a = (a, seen now (a.last k))
  ledger_call now (set_call k v ttl) a = (
    if a.closed then a else record a {
      last = λ q. ite (dec k q) (some (record { value = v; since = now; ttl = ttl })) (a.last q);
    },
    none,
  )
  ledger_call now (delete_call k) a = (record a { last = λ q. ite (dec k q) none (a.last q) }, none)
  ledger_call now cleanup_call a = (a, none)
  ledger_call now close_call a =
      (if a.closed then a else record { last = λ _. none; closed = true }, none)

  -- Each call comes with the time that passes before it. The results, and the state in the end.
  unfoldable pub run : ℕ → List (ℕ × Call K V) → InMemCache K V → InMemCache K V × List (Option V)
  run now [] c = (c, [])
  run now ((wait, o) ∷ os) c =
      let (c1, v) = call (now + wait) o c in let (c2, vs) = run (now + wait) os c1 in (c2, v ∷ vs)

  unfoldable pub ledger_run : ℕ → List (ℕ × Call K V) → Ledger K V → Ledger K V × List (Option V)
  ledger_run now [] a = (a, [])
  ledger_run now ((wait, o) ∷ os) a =
      let (a1, v) = ledger_call (now + wait) o a in
      let (a2, vs) = ledger_run (now + wait) os a1 in (a2, v ∷ vs)

  -- From now on, no one can tell the cache from the ledger.
  record Agrees (now : ℕ) (c : InMemCache K V) (a : Ledger K V) : Type 0 where
    same : (k : K) (t : ℕ) → now ≤ t → live_item t (Map.lookup dec k c.cache) ≡ seen t (a.last k)
    distinct : Distinct dec c.cache
    shut : c.closed ≡ a.closed

  -- What `Get` leaves of the entries, seen from now on.
  lookup-get :
      (now t : ℕ) (k q : K) (c : InMemCache K V)
      → now ≤ t
      → live_item t (Map.lookup dec q (get dec now k c).0.cache)
        ≡ live_item t (Map.lookup dec q c.cache)
  unfolding get read delete live_item
  lookup-get now t k q c le = elim (Option-cases (Map.lookup dec k c.cache)) [
    | inl miss ↦ ground arith
    | inr (item, hit) ↦ ground (arith, lookup-delete dec k q c.cache, expired_later now t item le)
  ]

  get_rest :
      (now : ℕ) (k : K) (c : InMemCache K V)
      → Distinct dec c.cache
      → Distinct dec (get dec now k c).0.cache
        × ((get dec now k c).0.closed ≡ c.closed)
        × ((get dec now k c).1 ≡ live_item now (Map.lookup dec k c.cache))
  unfolding get read delete live_item
  get_rest now k c d = elim (Option-cases (Map.lookup dec k c.cache)) [
    | inl miss ↦ ground arith
    | inr (item, hit) ↦ ground (arith, delete-Distinct dec k c.cache d)
  ]

  get-Agrees :
      (now : ℕ) (k : K) (c : InMemCache K V) (a : Ledger K V)
      → Agrees now c a
      → Agrees now (get dec now k c).0 a × ((get dec now k c).1 ≡ seen now (a.last k))
  get-Agrees now k c a r =
      let (distinct, closed, result) = get_rest now k c r.distinct in
      (
        record {
          same = λ q t le. lookup-get now t k q c le ∙ r.same q t le;
          distinct = distinct;
          shut = closed ∙ r.shut;
        },
        result ∙ r.same k now (omega arith),
      )

  read-result :
      (now : ℕ) (k : K) (c : InMemCache K V)
      → (read dec now k c).0 ≡ live_item now (Map.lookup dec k c.cache)
  unfolding read live_item
  read-result now k c = elim (Option-cases (Map.lookup dec k c.cache)) [
    | inl miss ↦ ground arith
    | inr (item, hit) ↦ ground arith
  ]

  set-Agrees :
      (now : ℕ) (k : K) (v : V) (ttl : ℤ) (c : InMemCache K V) (a : Ledger K V)
      → Agrees now c a
      → Agrees now (set_with_ttl dec now k v ttl c) (ledger_call now (set_call k v ttl) a).0
  unfolding set_with_ttl ledger_call
  set-Agrees now k v ttl c a r =
      let item : ItemWithTtl V = record { value = v; expiration = add_ttl now ttl } in
      record {
        same = λ q t le. ground (
          arith,
          r.same q t le,
          r.shut,
          lookup-insert dec k q item c.cache,
          live_item-seen now t v ttl le,
        );
        distinct = ground (arith, r.distinct, insert-Distinct dec k item c.cache r.distinct);
        shut = ground (arith, r.shut);
      }

  delete-Agrees :
      (now : ℕ) (k : K) (c : InMemCache K V) (a : Ledger K V)
      → Agrees now c a
      → Agrees now (delete dec k c) (ledger_call now (delete_call k) a).0
  unfolding delete ledger_call live_item seen
  delete-Agrees now k c a r = record {
    same = λ q t le. ground (arith, r.same q t le, lookup-delete dec k q c.cache);
    distinct = delete-Distinct dec k c.cache r.distinct;
    shut = r.shut;
  }

  cleanup-Agrees :
      (now : ℕ) (c : InMemCache K V) (a : Ledger K V)
      → Agrees now c a
      → Agrees now (cleanup now c) a
  unfolding cleanup
  cleanup-Agrees now c a r = record {
    same = λ q t le. ground (
      arith,
      r.same q t le,
      lookup-sweep dec now q c.cache r.distinct,
      live-kept now t (Map.lookup dec q c.cache) le,
    );
    distinct = ground (arith, r.distinct, sweep-Distinct dec now c.cache r.distinct);
    shut = ground (arith, r.shut);
  }

  close-Agrees :
      (now : ℕ) (c : InMemCache K V) (a : Ledger K V)
      → Agrees now c a
      → Agrees now (close c) (ledger_call now close_call a).0
  unfolding close ledger_call Distinct Map.lookup live_item seen
  close-Agrees now c a r = record {
    same = λ q t le. ground (arith, r.same q t le, r.shut);
    distinct = ground (arith, r.distinct);
    shut = ground (arith, r.shut);
  }

  call-Agrees :
      (now : ℕ) (o : Call K V) (c : InMemCache K V) (a : Ledger K V)
      → Agrees now c a
      → Agrees now (call now o c).0 (ledger_call now o a).0
        × ((call now o c).1 ≡ (ledger_call now o a).1)
  unfolding call ledger_call
  call-Agrees now (get_call k) c a r = get-Agrees now k c a r
  call-Agrees now (read_call k) c a r = (r, read-result now k c ∙ r.same k now (omega arith))
  call-Agrees now (set_call k v ttl) c a r = (set-Agrees now k v ttl c a r, refl)
  call-Agrees now (delete_call k) c a r = (delete-Agrees now k c a r, refl)
  call-Agrees now cleanup_call c a r = (cleanup-Agrees now c a r, refl)
  call-Agrees now close_call c a r = (close-Agrees now c a r, refl)

  later-Agrees :
      (now wait : ℕ) (c : InMemCache K V) (a : Ledger K V)
      → Agrees now c a
      → Agrees (now + wait) c a
  later-Agrees now wait c a r = record {
    same = λ k t le. r.same k t (omega arith);
    distinct = r.distinct;
    shut = r.shut;
  }

  run-Agrees :
      (now : ℕ) (os : List (ℕ × Call K V)) (c : InMemCache K V) (a : Ledger K V)
      → Agrees now c a
      → (run now os c).1 ≡ (ledger_run now os a).1
  unfolding run ledger_run
  run-Agrees now [] c a r = refl
  run-Agrees now ((wait, o) ∷ os) c a r =
      let (r1, result) = call-Agrees (now + wait) o c a (later-Agrees now wait c a r) in
      ground (
        arith,
        result,
        run-Agrees (now + wait) os (call (now + wait) o c).0 (ledger_call (now + wait) o a).0 r1,
      )

  -- A run of calls on a new cache, each after whatever time, returns what the ledger returns: `Get`
  -- gives the value set last if it was not deleted since, the cache was not closed, and no more time
  -- has passed than its time to live (or its deadline is the zero time). A `Get` is one call, or its
  -- read alone, after which the deletion of the key it found expired is a call of its own, with
  -- whatever others between them; such a deletion counts in the ledger like a `Delete`. The cleanups,
  -- and the deletion of a `Get` in one go, are not seen.
  pub run-ledger :
      (now : ℕ) (os : List (ℕ × Call K V))
      → (run now os new_in_mem_cache).1
        ≡ (ledger_run now os (record { last = λ _. none; closed = false })).1
  unfolding new_in_mem_cache Map.lookup Distinct live_item seen
  run-ledger now os =
      run-Agrees now os new_in_mem_cache (record { last = λ _. none; closed = false })
        (record { same = λ k t le. refl; distinct = tt; shut = refl })
