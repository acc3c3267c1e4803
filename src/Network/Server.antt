-- ===== src/Network/Server.antt =====
-- pkg/network/tcp_server.go: the accepting loop, the table of connections, and the shutdown.
pub mod Table
pub mod Shutdown
use net_flux.Base.{
  ℕ, zero, suc, ◌+◌, ◌%◌, ◌^◌, ◌⊎◌, inl, inr, Bool, true, false, Option, none, some, List, [], ◌∷◌,
  ◌++◌, ◌&&◌, ◌||◌, not, ltb, length, if◌then◌else◌,
}
use native.Mathlib.Decide.{ℕ_discrete}
use net_flux.Base.Map
use net_flux.Network.Packet.{NetError, err_closed}
use net_flux.Network.Conn.{Effect, closed_socket, aborted_socket, Options, TcpConn, new_server_conn}

-- `conns` and `outgoing` hold connections by their IDs; `conns` gives the socket of each. The
-- context of `Run` is `cancelled` once `Stop` was called or its parent was cancelled.
pub record TcpServer : Type 0 where
  pub next_id : ℕ  -- uint32
  pub conns : List (ℕ × ℕ)
  pub outgoing : List ℕ
  pub has_handler : Bool
  pub options : Option Options
  pub cancelled : Bool
  pub shutting_down : Bool

abbrev pub outgoing_capacity : ℕ
outgoing_capacity = 16

unfoldable pub new_tcp_server : Bool → Option Options → TcpServer
new_tcp_server has_handler options = record {
  next_id = 1;
  conns = [];
  outgoing = [];
  has_handler = has_handler;
  options = options;
  cancelled = false;
  shutting_down = false;
}

-- `atomic.AddUint32(&s.nextID, 1)`
abbrev pub fresh_id : TcpServer → ℕ
fresh_id s = (s.next_id + 1) % 2 ^ 32

-- The options of an accepted connection; the interval is ten seconds in nanoseconds.
unfoldable pub conn_options : TcpServer → Options
conn_options s = elim s.options [
  | none ↦ record {
    id = fresh_id s;
    has_event = s.has_handler;
    has_outgoing = true;
    heartbeat_interval = 10_000_000_000;
    reconnect_interval = 0;
    reconnect_max = 0;
  }
  | some o ↦ record o { id = fresh_id s; has_event = s.has_handler; has_outgoing = true }
]

-- `registerConn`, with the socket and the answer of the event handler's `OnConnect`.
unfoldable pub register_conn :
    ℕ → Option NetError → TcpServer → TcpServer × List Effect × Option NetError
unfolding conn_options
register_conn socket accept s =
    let t = record s { next_id = fresh_id s } in
    let (effects, made) = new_server_conn socket accept (conn_options s) in
    elim made [
      | inl e ↦ (t, effects, some e)
      | inr c ↦ (record t { conns = Map.insert ℕ_discrete c.id socket s.conns }, effects, none)
    ]

unfoldable pub remove_conn : ℕ → TcpServer → TcpServer
remove_conn id s = record s { conns = Map.delete ℕ_discrete id s.conns }

-- The send of `OnClose` into the channel, which is left out for a connection with `skipOutgoing`, and
-- dropped if the channel is full.
unfoldable pub offer : Bool → ℕ → TcpServer → TcpServer
offer skip id s =
    if not skip && ltb (length s.outgoing) outgoing_capacity
    then record s { outgoing = s.outgoing ++ (id ∷ []) }
    else s

unfoldable pub stop : TcpServer → TcpServer
stop s = record s { cancelled = true }

unfoldable pub drain_from : List ℕ → TcpServer → TcpServer
drain_from [] s = s
drain_from (id ∷ ids) s = drain_from ids (remove_conn id s)

-- `drainOutgoing`
unfoldable pub drain_outgoing : TcpServer → TcpServer
unfolding drain_from
drain_outgoing s = drain_from s.outgoing (record s { outgoing = [] })

-- The calls of `abortClose(true)`, one for each connection of the table, by their sockets. What such a
-- call does is `abort_close` of the connection, which does nothing for one that is closed already. The
-- order is that of the list, where Go's map has any.
abbrev pub abort_all : List (ℕ × ℕ) → List Effect
abort_all [] = []
abort_all ((id, socket) ∷ conns) = aborted_socket socket ∷ abort_all conns

-- `closeConns`: the table is emptied and every connection that it held is told to abort. How long it
-- waits for them, and what becomes of each, is not modelled.
unfoldable pub close_conns : TcpServer → TcpServer × List Effect
close_conns s = (record s { conns = [] }, abort_all s.conns)

unfoldable pub shutdown : TcpServer → TcpServer × List Effect
unfolding close_conns drain_outgoing
shutdown s =
    let (t, effects) = close_conns (record s { shutting_down = true }) in
    if s.shutting_down then (s, []) else (drain_outgoing t, effects)

-- What happens to the server: the cases of the `select` of `Run`, and between two rounds of it a
-- connection that closes, with its `skipOutgoing`, or a call of `Stop`.
pub data Event : Type 0 where
  context_done : Event
  accepted : ℕ → Option NetError → Event
  outgoing_ready : Event
  accept_failed : NetError → Event
  conn_closed : Bool → ℕ → Event
  stop_called : Event

-- The receive from `outgoing`, given what waits there.
unfoldable pub take_offer : List ℕ → TcpServer → TcpServer
take_offer [] s = s
take_offer (id ∷ ids) s = remove_conn id (record s { outgoing = ids })

abbrev is_err_closed : NetError → Bool
is_err_closed err_closed = true
is_err_closed _ = false

-- The server after the event, what was done, and what `Run` returns if it does.
unfoldable pub step : Event → TcpServer → TcpServer × List Effect × Option (Option NetError)
step context_done s =
    if s.cancelled
    then (let (t, effects) = shutdown s in (t, effects, some none))
    else (s, [], none)
step (accepted socket accept) s =
    if s.shutting_down
    then (s, closed_socket socket ∷ [], none)
    else (let (t, effects, err) = register_conn socket accept s in
        (t, elim err [ some _ ↦ effects ++ (closed_socket socket ∷ []) | none ↦ effects ], none))
step outgoing_ready s = (take_offer s.outgoing s, [], none)
step (accept_failed e) s =
    if s.cancelled || s.shutting_down
    then (let (t, effects) = shutdown s in (t, effects, some none))
    else (s, [], some (if is_err_closed e then none else some e))
step (conn_closed skip id) s = (offer skip id s, [], none)
step stop_called s = (stop s, [], none)

-- `Run` takes events until it returns.
unfoldable pub run : List Event → TcpServer → TcpServer × Option (Option NetError)
run [] s = (s, none)
run (e ∷ es) s =
    let (t, _, returned) = step e s in
    let rest = run es t in elim returned [ some err ↦ (t, some err) | none ↦ rest ]
