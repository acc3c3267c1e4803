-- ===== src/Balancer/Robin/Rotation.antt =====
-- A round of picks.
use net_flux.Base.{
  ℕ, zero, suc, ◌+◌, ◌-◌, ◌%◌, ◌≤◌, ◌<◌, ◌≡◌, refl, ap, sym, ◌∙◌, ◌⊎◌, inr, Option, some, List, [],
  ◌∷◌, ◌++◌, length, get_elem?, take, drop, take_enough, append-nil, length-drop, arith,
}
use native.Mathlib.Decide.{dec_lt}
use native.Mathlib.Nat.{mod-eq_of_lt, mod_self}
use native.Mathlib.Numerals.{unary_clauses}
use net_flux.Balancer.Client.{BalanceError}
use net_flux.Naming.Types.{Instance, Service}
use net_flux.Balancer.Robin.{RoundRobin, pick}

-- Picks of the same service, one after the other.
unfoldable pub picks : ℕ → Service → RoundRobin → RoundRobin × List (BalanceError ⊎ Option Instance)
picks zero service b = (b, [])
picks (suc m) service b =
    let (b1, r) = pick (some service) b in let (b2, rs) = picks m service b1 in (b2, r ∷ rs)

abbrev pub chosen : List Instance → List (BalanceError ⊎ Option Instance)
chosen [] = []
chosen (x ∷ xs) = inr (some x) ∷ chosen xs

chosen-append : (xs ys : List Instance) → chosen (xs ++ ys) ≡ chosen xs ++ chosen ys
chosen-append [] ys = refl
chosen-append (x ∷ xs) ys = ap (λ l. inr (some x) ∷ l) (chosen-append xs ys)

drop_at :
    {A : Type 0} (i : ℕ) (xs : List A)
    → i < length xs
    → (x : A) × (get_elem? xs i ≡ some x) × (drop i xs ≡ x ∷ drop (suc i) xs)
drop_at i [] lt = absurd (omega arith)
drop_at zero (x ∷ xs) lt = (x, refl, refl)
drop_at (suc i) (x ∷ xs) lt = drop_at i xs (omega arith)

picks-add :
    (m n : ℕ) (service : Service) (b : RoundRobin)
    → ((picks (m + n) service b).0 ≡ (picks n service (picks m service b).0).0)
      × ((picks (m + n) service b).1
          ≡ (picks m service b).1 ++ (picks n service (picks m service b).0).1)
unfolding picks
picks-add zero n service b =
    let e : 0 + n ≡ n = omega arith in
    (ap (λ k. (picks k service b).0) e, ap (λ k. (picks k service b).1) e)
picks-add (suc m) n service b =
    let e : suc m + n ≡ suc (m + n) = omega arith in
    let (state, results) = picks-add m n service (pick (some service) b).0 in
    (
      ap (λ k. (picks k service b).0) e ∙ state,
      ap (λ k. (picks k service b).1) e ∙ ap (λ l. (pick (some service) b).1 ∷ l) results,
    )

pick-step :
    (service : Service) (b : RoundRobin) (j : ℕ)
    → (b.next_index + 1) % length service.instances ≡ j
    → j < length service.instances
    → ((pick (some service) b).0.next_index ≡ j)
      × ((pick (some service) b).1 ≡ inr (get_elem? service.instances j))
unfolding pick
pick-step service b j here lt = ground arith

-- From the index j on, as long as the end is not passed.
picks-straight :
    (m j : ℕ) (service : Service) (b : RoundRobin)
    → (b.next_index + 1) % length service.instances ≡ j
    → j + suc m ≤ length service.instances
    → ((picks (suc m) service b).0.next_index ≡ j + m)
      × ((picks (suc m) service b).1 ≡ chosen (take (suc m) (drop j service.instances)))
unfolding picks
picks-straight zero j service b here room =
    let (x, found, split) = drop_at j service.instances (omega arith) in
    let (index, picked) = pick-step service b j here (omega arith) in
    (omega (arith, index), rw (picked, found, split) refl)
picks-straight (suc m) j service b here room =
    let (x, found, split) = drop_at j service.instances (omega arith) in
    let (index, picked) = pick-step service b j here (omega arith) in
    let (later, results) =
      picks-straight m (suc j) service (pick (some service) b).0
        (ap (λ i. (i + 1) % length service.instances) index
          ∙ mod-eq_of_lt (omega arith)
          ∙ omega arith)
        (omega arith) in
    (omega (arith, later), rw (picked, found, split, results) refl)

-- From the first instance to the last.
picks_whole :
    (service : Service) (b : RoundRobin)
    → b.next_index + 1 ≡ length service.instances
    → ((picks (length service.instances) service b).1 ≡ chosen (service.instances ++ []))
      × ((picks (length service.instances) service b).0.next_index ≡ b.next_index)
picks_whole service b last =
    let (index, results) =
      picks-straight b.next_index 0 service b
        (ap (λ k. k % length service.instances) last ∙ mod_self (length service.instances))
        (omega arith) in
    let long : length service.instances ≡ suc b.next_index = omega arith in
    let same = ap (λ k. picks k service b) long in
    (
      ap (λ p. p.1) same
          ∙ results
          ∙ ap chosen (
              take_enough (suc b.next_index) service.instances (omega arith)
              ∙ sym (append-nil service.instances)),
      ap (λ p. p.0.next_index) same ∙ index ∙ omega arith,
    )

-- From behind the current index to the end, and from the start up to it.
picks_around :
    (service : Service) (b : RoundRobin)
    → b.next_index + 1 < length service.instances
    → ((picks (length service.instances) service b).1
        ≡ chosen (
            drop (b.next_index + 1) service.instances ++ take (b.next_index + 1) service.instances))
      × ((picks (length service.instances) service b).0.next_index ≡ b.next_index)
picks_around service b before =
    let p = b.next_index in
    let m = length service.instances - (p + 2) in
    let mid = (picks (suc m) service b).0 in
    let (index, results) = picks-straight m (p + 1) service b (mod-eq_of_lt before) (omega arith) in
    let (index', results') =
      picks-straight p 0 service mid (wraps (p + 1 + m) mid index (omega arith)) (omega arith) in
    let (state, all) = picks-add (suc m) (suc p) service b in
    let same = ap (λ k. picks k service b) (total p m (omega arith)) in
    let to_end =
      take_enough (suc m) (drop (p + 1) service.instances)
        (omega (arith, length-drop (p + 1) service.instances)) in
    (
      ap (λ q. q.1) same
          ∙ all
          ∙ (rw (results, results', to_end)
              (simp unary_clauses (
                sym (
                  chosen-append (drop (suc p) service.instances)
                    (take (suc p) service.instances))))),
      ap (λ q. q.0.next_index) same ∙ ap (λ r. r.next_index) state ∙ index' ∙ omega arith,
    )
  where
    total :
        (p m : ℕ)
        → length service.instances ≡ suc m + suc p
        → length service.instances ≡ suc m + suc p
    total p m e = e

    wraps :
        (i : ℕ) (mid : RoundRobin)
        → mid.next_index ≡ i
        → i + 1 ≡ length service.instances
        → (mid.next_index + 1) % length service.instances ≡ 0
    wraps i mid e last =
        ap (λ k. (k + 1) % length service.instances) e
        ∙ ap (λ k. k % length service.instances) last
        ∙ mod_self (length service.instances)

-- As many picks as the service has instances choose each of them once, in the order of the list
-- from the one behind the current index on and round to it, and leave the index where it was. The
-- index is one of the service's.
pub picks-rotation :
    (service : Service) (b : RoundRobin)
    → b.next_index < length service.instances
    → let j = (b.next_index + 1) % length service.instances in
      ((picks (length service.instances) service b).1
        ≡ chosen (drop j service.instances ++ take j service.instances))
      × ((picks (length service.instances) service b).0.next_index ≡ b.next_index)
picks-rotation service b within = elim (dec_lt (b.next_index + 1) (length service.instances)) [
  | yes before ↦ rw (mod-eq_of_lt before) (picks_around service b before)
  | no last ↦ rw (at_end (omega arith)) (picks_whole service b (omega arith))
]
  where
    at_end :
        b.next_index + 1 ≡ length service.instances
        → (b.next_index + 1) % length service.instances ≡ 0
    at_end e = ap (λ k. k % length service.instances) e ∙ mod_self (length service.instances)
