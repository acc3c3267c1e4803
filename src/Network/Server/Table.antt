-- ===== src/Network/Server/Table.antt =====
-- The IDs in the table of connections.
use net_flux.Base.{
  ℕ, suc, ◌+◌, ◌%◌, ◌^◌, ◌≤◌, ◌<◌, ◌≡◌, refl, ◌⊎◌, inl, inr, Bool, Option, none, some, List, [],
  ◌∷◌, Bool-cases, Option-cases, arith,
}
use mathlib.Core.Logic.{ite}
use native.Mathlib.Decide.{ℕ_discrete}
use net_flux.Base.Map
use net_flux.Base.Map.{lookup-insert, lookup-delete}
use net_flux.Network.Packet.{NetError}
use net_flux.Network.Conn.{Options, TcpConn, new_server_conn}
use net_flux.Network.Server.Shutdown.{shutdown_first, shutdown_again}
use net_flux.Network.Server.{
  TcpServer, Event, context_done, accepted, outgoing_ready, accept_failed, conn_closed, stop_called,
  conn_options, register_conn, remove_conn, offer, stop, take_offer, new_tcp_server, shutdown, step,
  run,
}

-- Every ID in the table is at most n.
abbrev pub AllBelow : ℕ → List (ℕ × ℕ) → Type 0
AllBelow n [] = Unit
AllBelow n ((id, _) ∷ conns) = (id ≤ n) × AllBelow n conns

abbrev pub IsBelow : TcpServer → Type 0
IsBelow s = AllBelow s.next_id s.conns

AllBelow-mono : (n m : ℕ) (conns : List (ℕ × ℕ)) → n ≤ m → AllBelow n conns → AllBelow m conns
AllBelow-mono n m [] le h = tt
AllBelow-mono n m (c ∷ conns) le h = (omega arith, AllBelow-mono n m conns le h.1)

AllBelow-insert :
    (n id socket : ℕ) (conns : List (ℕ × ℕ))
    → id ≤ n
    → AllBelow n conns
    → AllBelow n (Map.insert ℕ_discrete id socket conns)
unfolding Map.insert
AllBelow-insert n id socket [] le h = (le, tt)
AllBelow-insert n id socket ((j, w) ∷ conns) le h =
    grind (arith, AllBelow-insert n id socket conns le h.1)

AllBelow-delete :
    (n id : ℕ) (conns : List (ℕ × ℕ))
    → AllBelow n conns
    → AllBelow n (Map.delete ℕ_discrete id conns)
unfolding Map.delete
AllBelow-delete n id [] h = tt
AllBelow-delete n id ((j, w) ∷ conns) h = grind (arith, AllBelow-delete n id conns h.1)

lookup_above :
    (n id : ℕ) (conns : List (ℕ × ℕ))
    → n < id
    → AllBelow n conns
    → Map.lookup ℕ_discrete id conns ≡ none
unfolding Map.lookup
lookup_above n id [] lt h = refl
lookup_above n id ((j, w) ∷ conns) lt h = ground (arith, lookup_above n id conns lt h.1)

new_server_conn-id :
    (socket : ℕ) (accept : Option NetError) (o : Options) {c : TcpConn}
    → (new_server_conn socket accept o).1 ≡ inr c
    → c.id ≡ o.id
unfolding new_server_conn
new_server_conn-id socket accept o h = ground arith

conn_options-id : (s : TcpServer) → (conn_options s).id ≡ (s.next_id + 1) % 2 ^ 32
unfolding conn_options
conn_options-id s = ground arith

-- What `registerConn` does to the server: the counter moves, and a connection that was made is
-- entered under the new value.
register_conn_cases :
    (socket : ℕ) (accept : Option NetError) (s : TcpServer)
    → let t = record s { next_id = (s.next_id + 1) % 2 ^ 32 } in
      ((e : NetError) × ((register_conn socket accept s).2 ≡ some e)
        × ((register_conn socket accept s).0 ≡ t))
      ⊎ (((register_conn socket accept s).2 ≡ none)
          × ((register_conn socket accept s).0 ≡ record t {
            conns = Map.insert ℕ_discrete ((s.next_id + 1) % 2 ^ 32) socket s.conns;
          }))
unfolding register_conn
register_conn_cases socket accept s = go (new_server_conn socket accept (conn_options s)).1 refl
  where
    go :
        (made : NetError ⊎ TcpConn)
        → (new_server_conn socket accept (conn_options s)).1 ≡ made
        → let t = record s { next_id = (s.next_id + 1) % 2 ^ 32 } in
          ((e : NetError) × ((register_conn socket accept s).2 ≡ some e)
            × ((register_conn socket accept s).0 ≡ t))
          ⊎ (((register_conn socket accept s).2 ≡ none)
              × ((register_conn socket accept s).0 ≡ record t {
                conns = Map.insert ℕ_discrete ((s.next_id + 1) % 2 ^ 32) socket s.conns;
              }))
    go (inl e) h = inl (e, ground arith, ground arith)
    go (inr c) h = inr (
      ground arith,
      ground
          (arith, new_server_conn-id socket accept (conn_options s) {c = c} h, conn_options-id s),
    )

-- As long as the 32-bit counter has not wrapped, an accepted connection gets an ID that no
-- connection in the table has: it is entered under that ID, and every other entry stays.
pub register_conn_fresh :
    (socket : ℕ) (accept : Option NetError) (s : TcpServer) (q : ℕ)
    → IsBelow s
    → s.next_id + 1 < 2 ^ 32
    → (register_conn socket accept s).2 ≡ none
    → (Map.lookup ℕ_discrete (s.next_id + 1) s.conns ≡ none)
      × (Map.lookup ℕ_discrete q (register_conn socket accept s).0.conns
          ≡ ite (ℕ_discrete (s.next_id + 1) q) (some socket) (Map.lookup ℕ_discrete q s.conns))
register_conn_fresh socket accept s q below room done = (
  lookup_above s.next_id (s.next_id + 1) s.conns (omega arith) below,
  elim (register_conn_cases socket accept s) [
    | inl (e, failed, _) ↦ absurd (cc)
    | inr (_, made) ↦
        rw made (rw id_exact (lookup-insert ℕ_discrete (s.next_id + 1) q socket s.conns))
  ],
)
  where
    id_exact : (s.next_id + 1) % 2 ^ 32 ≡ s.next_id + 1
    id_exact = omega arith

-- The sockets that the listener has handed over.
abbrev pub accepts : List Event → ℕ
accepts [] = 0
accepts (accepted _ _ ∷ es) = suc (accepts es)
accepts (_ ∷ es) = accepts es

shutdown-IsBelow :
    (s : TcpServer) → IsBelow s → IsBelow (shutdown s).0 × ((shutdown s).0.next_id ≡ s.next_id)
shutdown-IsBelow s h = elim (Bool-cases s.shutting_down) [
  | inl again ↦ rw (shutdown_again s again) (h, refl)
  | inr first ↦ rw (shutdown_first s first) (tt, refl)
]

register_conn-IsBelow :
    (socket : ℕ) (accept : Option NetError) (s : TcpServer)
    → s.next_id + 1 < 2 ^ 32
    → IsBelow s
    → IsBelow (register_conn socket accept s).0
      × ((register_conn socket accept s).0.next_id ≡ s.next_id + 1)
register_conn-IsBelow socket accept s room h = elim (register_conn_cases socket accept s) [
  | inl (e, _, kept) ↦
      rw kept (rw id_exact (AllBelow-mono s.next_id (s.next_id + 1) s.conns (omega arith) h, refl))
  | inr (_, made) ↦ rw made (
      rw id_exact (
        AllBelow-insert (s.next_id + 1) (s.next_id + 1) socket s.conns (omega arith)
            (AllBelow-mono s.next_id (s.next_id + 1) s.conns (omega arith) h),
        refl,
      ))
]
  where
    id_exact : (s.next_id + 1) % 2 ^ 32 ≡ s.next_id + 1
    id_exact = omega arith

take_offer-IsBelow :
    (ids : List ℕ) (s : TcpServer)
    → IsBelow s
    → IsBelow (take_offer ids s) × ((take_offer ids s).next_id ≡ s.next_id)
unfolding take_offer remove_conn
take_offer-IsBelow [] s h = (h, refl)
take_offer-IsBelow (id ∷ ids) s h = (AllBelow-delete s.next_id id s.conns h, refl)

accepts-cons : (e : Event) (es : List Event) → accepts (e ∷ es) ≡ accepts (e ∷ []) + accepts es
accepts-cons context_done es = omega arith
accepts-cons (accepted _ _) es = omega arith
accepts-cons outgoing_ready es = omega arith
accepts-cons (accept_failed _) es = omega arith
accepts-cons (conn_closed _ _) es = omega arith
accepts-cons stop_called es = omega arith

-- The counter after an event is the counter before it, and one more for an accepted socket.
step-IsBelow :
    (e : Event) (s : TcpServer)
    → IsBelow s
    → s.next_id + accepts (e ∷ []) < 2 ^ 32
    → IsBelow (step e s).0 × ((step e s).0.next_id ≤ s.next_id + accepts (e ∷ []))
unfolding step
step-IsBelow context_done s h room = ground (arith, shutdown-IsBelow s h)
step-IsBelow (accepted socket accept) s h room =
    ground (arith, register_conn-IsBelow socket accept s)
step-IsBelow outgoing_ready s h room = ground (arith, take_offer-IsBelow s.outgoing s h)
step-IsBelow (accept_failed e) s h room = ground (arith, shutdown-IsBelow s h)
step-IsBelow (conn_closed skip id) s h room = unfold offer in ground arith
step-IsBelow stop_called s h room = unfold stop in (h, omega arith)

run-IsBelow :
    (es : List Event) (s : TcpServer)
    → IsBelow s
    → s.next_id + accepts es < 2 ^ 32
    → IsBelow (run es s).0
unfolding run
run-IsBelow [] s h room = h
run-IsBelow (e ∷ es) s h room =
    let (kept, moved) = step-IsBelow e s h (omega (arith, accepts-cons e es)) in
    elim (Option-cases (step e s).2) [
      | inr (err, over) ↦ rw (over, run) kept
      | inl on ↦ rw (on, run) (run-IsBelow es (step e s).0 kept (omega (arith, accepts-cons e es)))
    ]

-- While fewer than 2 ^ 32 - 1 sockets were accepted, in any order of accepted sockets, connections
-- that end, offers that are taken, failures, `Stop` and shutdown: no ID in the table of a new server
-- is above its counter, so that the next accepted connection is given an ID which is not in use.
pub run_fresh_id :
    (has_handler : Bool) (options : Option Options) (es : List Event)
    → accepts es + 1 < 2 ^ 32
    → let s = (run es (new_tcp_server has_handler options)).0 in
      IsBelow s × (Map.lookup ℕ_discrete (s.next_id + 1) s.conns ≡ none)
unfolding new_tcp_server
run_fresh_id has_handler options es room =
    let s = (run es (new_tcp_server has_handler options)).0 in
    let below = run-IsBelow es (new_tcp_server has_handler options) tt (omega arith) in
    (below, lookup_above s.next_id (s.next_id + 1) s.conns (omega arith) below)
