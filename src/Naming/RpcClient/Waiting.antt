-- ===== src/Naming/RpcClient/Waiting.antt =====
-- The lookups of pkg/naming/rpc_client.go that several goroutines make at once, while the client is
-- not closed.
use net_flux.Base.{
  ℕ, zero, suc, ◌+◌, ◌<◌, ◌≡◌, ◌≢◌, refl, sym, ap, ◌∙◌, subst, inl, inr, Option, none, some, List,
  [], ◌∷◌, ◌++◌, Sum-cases, Option-cases, arith,
}
use net_flux.Base.Map
use net_flux.Base.Map.{lookup-insert, lookup-delete}
use net_flux.Base.Map.Totals.{
  DistinctKeys, insert-DistinctKeys, delete-DistinctKeys, delete_missing,
}
use net_flux.Base.Text.{Str, str_discrete}
use net_flux.Naming.Types.{Service}
use net_flux.Naming.RpcClient.{
  RpcClient, LookupError, Wake, begin_lookup, end_lookup, handle_lookup_ack, lookup_key, or_default,
}

-- The client, and the lookups that wait, each by its key and its channel.
pub record Waiters : Type 0 where
  pub client : RpcClient
  pub waiting : List (Str × ℕ)

-- A goroutine begins a lookup; an answer comes; the wait of the i-th of the lookups ends somehow.
pub data Step : Type 0 where
  begin : Str → Str → Step
  answer : Option (List (Option Service)) → Step
  finish : ℕ → Wake → Step

unfoldable pub nth_waiter : ℕ → List (Str × ℕ) → Option (Str × ℕ)
nth_waiter i [] = none
nth_waiter zero (p ∷ ps) = some p
nth_waiter (suc i) (p ∷ ps) = nth_waiter i ps

unfoldable pub without_nth : ℕ → List (Str × ℕ) → List (Str × ℕ)
without_nth i [] = []
without_nth zero (p ∷ ps) = ps
without_nth (suc i) (p ∷ ps) = p ∷ without_nth i ps

-- A lookup that fails at once does not wait.
unfoldable pub step : Step → Waiters → Waiters
step (begin service_name group_name) w =
    let (r, begun) = begin_lookup service_name group_name w.client in
    elim begun [
      | inl e ↦ record w { client = r }
      | inr p ↦ record { client = r; waiting = w.waiting ++ (p ∷ []) }
    ]
step (answer ack) w = record w { client = handle_lookup_ack ack w.client }
step (finish i wake) w = elim (nth_waiter i w.waiting) [
  | none ↦ w
  | some (key, ch) ↦
      let (r, _) = end_lookup key wake w.client in
      record { client = r; waiting = without_nth i w.waiting }
]

unfoldable pub run : List Step → Waiters → Waiters
run [] w = w
run (s ∷ steps) w = run steps (step s w)

abbrev AllAbove : ℕ → List (Str × ℕ) → Type 0
AllAbove ch [] = Unit {0}
AllAbove ch ((key, d) ∷ m) = (ch < d) × AllAbove ch m

-- The channels are those made so far, in the order in which they were made.
abbrev pub InOrder : ℕ → List (Str × ℕ) → Type 0
InOrder next [] = Unit {0}
InOrder next ((key, ch) ∷ m) = (ch < next) × AllAbove ch m × InOrder next m

-- The pending lookups are those that wait, with no key twice and no channel twice.
abbrev pub IsExact : Waiters → Type 0
IsExact w =
    (w.client.pending ≡ w.waiting)
    × DistinctKeys str_discrete w.client.pending
    × InOrder w.client.next_chan w.client.pending

insert_missing :
    (key : Str) (ch : ℕ) (m : List (Str × ℕ))
    → Map.lookup str_discrete key m ≡ none
    → Map.insert str_discrete key ch m ≡ m ++ ((key, ch) ∷ [])
unfolding Map.lookup Map.insert
insert_missing key ch [] missing = refl
insert_missing key ch ((k, d) ∷ m) missing = ground (arith, missing, insert_missing key ch m)

AllAbove-last :
    (ch next : ℕ) (key : Str) (m : List (Str × ℕ))
    → ch < next
    → AllAbove ch m
    → AllAbove ch (m ++ ((key, next) ∷ []))
AllAbove-last ch next key [] below above = (below, tt)
AllAbove-last ch next key ((k, d) ∷ m) below (first, above) =
    (first, AllAbove-last ch next key m below above)

InOrder-last :
    (next : ℕ) (key : Str) (m : List (Str × ℕ))
    → InOrder next m
    → InOrder (next + 1) (m ++ ((key, next) ∷ []))
InOrder-last next key [] ok = (omega arith, tt, tt)
InOrder-last next key ((k, d) ∷ m) (below, above, ok) =
    (omega (arith, below), AllAbove-last d next key m below above, InOrder-last next key m ok)

AllAbove-without_nth :
    (ch i : ℕ) (m : List (Str × ℕ)) → AllAbove ch m → AllAbove ch (without_nth i m)
unfolding without_nth
AllAbove-without_nth ch i [] above = tt
AllAbove-without_nth ch zero ((k, d) ∷ m) (first, above) = above
AllAbove-without_nth ch (suc i) ((k, d) ∷ m) (first, above) =
    (first, AllAbove-without_nth ch i m above)

InOrder-without_nth :
    (next i : ℕ) (m : List (Str × ℕ)) → InOrder next m → InOrder next (without_nth i m)
unfolding without_nth
InOrder-without_nth next i [] ok = tt
InOrder-without_nth next zero ((k, d) ∷ m) (below, above, ok) = ok
InOrder-without_nth next (suc i) ((k, d) ∷ m) (below, above, ok) =
    (below, AllAbove-without_nth d i m above, InOrder-without_nth next i m ok)

-- The keys of waiters are in the map.
lookup-nth_waiter :
    (i : ℕ) (key : Str) (ch : ℕ) (m : List (Str × ℕ))
    → nth_waiter i m ≡ some (key, ch)
    → Map.lookup str_discrete key m ≢ none
unfolding nth_waiter Map.lookup
lookup-nth_waiter i key ch [] at = ground (arith, at)
lookup-nth_waiter zero key ch ((k, d) ∷ m) at = ground (arith, at)
lookup-nth_waiter (suc i) key ch ((k, d) ∷ m) at =
    let rest = lookup-nth_waiter i key ch m in ground (arith, at, rest)

-- To delete the key of a waiter takes out that waiter.
delete-nth_waiter :
    (i : ℕ) (key : Str) (ch : ℕ) (m : List (Str × ℕ))
    → DistinctKeys str_discrete m
    → nth_waiter i m ≡ some (key, ch)
    → Map.delete str_discrete key m ≡ without_nth i m
unfolding nth_waiter without_nth Map.delete DistinctKeys
delete-nth_waiter i key ch [] ok at = refl
delete-nth_waiter zero key ch ((k, d) ∷ m) (new, ok) at =
    let same : k ≡ key = ground (arith, at) in
    let missing = sym (ap (λ q. Map.lookup str_discrete q m) same) ∙ new in
    ground (arith, same, delete_missing str_discrete key m missing)
delete-nth_waiter (suc i) key ch ((k, d) ∷ m) (new, ok) at =
    let rest = delete-nth_waiter i key ch m ok at in
    elim (str_discrete k key) [
      | yes same ↦
          absurd (
            lookup-nth_waiter i key ch m at
              (sym (ap (λ q. Map.lookup str_discrete q m) same) ∙ new))
      | no other ↦ ground (arith, other, rest)
    ]

without_nth-DistinctKeys :
    (i : ℕ) (key : Str) (ch : ℕ) (m : List (Str × ℕ))
    → DistinctKeys str_discrete m
    → nth_waiter i m ≡ some (key, ch)
    → DistinctKeys str_discrete (without_nth i m)
without_nth-DistinctKeys i key ch m ok at =
    subst (DistinctKeys str_discrete) (delete-nth_waiter i key ch m ok at)
      (delete-DistinctKeys str_discrete key m ok)

-- A lookup that begins under a new key.
begin_lookup-appends :
    (service_name group_name : Str) (r : RpcClient) (key : Str) (ch : ℕ)
    → (begin_lookup service_name group_name r).1 ≡ inr (key, ch)
    → let r' = (begin_lookup service_name group_name r).0 in
      let own = lookup_key service_name (or_default group_name r.group_name) in
      (key ≡ own)
      × (ch ≡ r.next_chan)
      × (Map.lookup str_discrete own r.pending ≡ none)
      × (r'.pending ≡ Map.insert str_discrete own r.next_chan r.pending)
      × (r'.next_chan ≡ r.next_chan + 1)
unfolding begin_lookup
begin_lookup-appends service_name group_name r key ch begun = ground (arith, begun)

begin_lookup-fails :
    (service_name group_name : Str) (r : RpcClient) (e : LookupError)
    → (begin_lookup service_name group_name r).1 ≡ inl e
    → (begin_lookup service_name group_name r).0 ≡ r
unfolding begin_lookup
begin_lookup-fails service_name group_name r e failed = ground (arith, failed)

begin-IsExact :
    (service_name group_name : Str) (w : Waiters)
    → IsExact w
    → IsExact (step (begin service_name group_name) w)
unfolding step
begin-IsExact service_name group_name w (same, distinct, order) =
    let r = w.client in
    let begun = begin_lookup service_name group_name r in
    elim (Sum-cases begun.1) [
      | inl (e, failed) ↦
          let kept = begin_lookup-fails service_name group_name r e failed in
          rw (step, failed, kept) (same, distinct, order)
      | inr ((key, ch), done) ↦
          let (own, fresh, missing, more, next) =
            begin_lookup-appends service_name group_name r key ch done in
          let name = lookup_key service_name (or_default group_name r.group_name) in
          let last = insert_missing name r.next_chan r.pending missing in
          rw (step, done, more, next, own, fresh)
            (
              last ∙ ap (λ m. m ++ ((name, r.next_chan) ∷ [])) same,
              insert-DistinctKeys str_discrete name r.next_chan r.pending distinct,
              subst (InOrder (r.next_chan + 1)) (sym last)
                  (InOrder-last r.next_chan name r.pending order),
            )
    ]

finish-IsExact : (i : ℕ) (wake : Wake) (w : Waiters) → IsExact w → IsExact (step (finish i wake) w)
unfolding step end_lookup
finish-IsExact i wake w (same, distinct, order) = elim (Option-cases (nth_waiter i w.waiting)) [
  | inl e ↦ rw (step, e) (same, distinct, order)
  | inr ((key, ch), e) ↦
      let at = ap (nth_waiter i) same ∙ e in
      let gone = delete-nth_waiter i key ch w.client.pending distinct at in
      rw (step, e, gone)
        (
          ap (without_nth i) same,
          without_nth-DistinctKeys i key ch w.client.pending distinct at,
          InOrder-without_nth w.client.next_chan i w.client.pending order,
        )
]

answer-IsExact :
    (ack : Option (List (Option Service))) (w : Waiters) → IsExact w → IsExact (step (answer ack) w)
unfolding step handle_lookup_ack
answer-IsExact none w ok = ok
answer-IsExact (some services) w ok = ok

step-IsExact : (s : Step) (w : Waiters) → IsExact w → IsExact (step s w)
step-IsExact (begin service_name group_name) w ok = begin-IsExact service_name group_name w ok
step-IsExact (answer ack) w ok = answer-IsExact ack w ok
step-IsExact (finish i wake) w ok = finish-IsExact i wake w ok

-- Through any lookups of several goroutines on a client that is not closed, LOOKUP_ACKs, and waits
-- that end, in any order and however they end: where the pending lookups are those that wait, with no
-- key twice and the channels in the order in which they were made, as on a new client, they stay so.
-- So a wait that ends takes its own lookup out of the pending ones, and no other.
pub run-IsExact : (steps : List Step) (w : Waiters) → IsExact w → IsExact (run steps w)
unfolding run
run-IsExact [] w ok = ok
run-IsExact (s ∷ steps) w ok = run-IsExact steps (step s w) (step-IsExact s w ok)
