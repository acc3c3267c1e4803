-- ===== src/Network/Conn.antt =====
-- pkg/network/tcp_con.go: the life of a `tcpConn`, from its construction through `Connect`, `close`
-- and `reconnect`. A method returns the connection after the call, what it did to the outside in
-- order, and its error.
pub mod Reconnect
pub mod Lifecycle
pub mod Reuse
pub mod SocketOptions
pub mod Heartbeat
use net_flux.Base.{
  ℕ, zero, suc, ◌+◌, ◌⊎◌, inl, inr, Bool, true, false, Option, none, some, List, [], ◌∷◌, ◌++◌,
  ◌&&◌, ◌||◌, not, ltb, ◌==◌, if◌then◌else◌,
}
use net_flux.Network.Packet.{NetError, err_closed, err_no_ready, unknown_command}

-- What a call does outside of the record: calls of the event handler, of the socket with the given
-- number, an offer to the server's channel, and goroutines that it starts. `double_close` stands
-- for the panic of closing a channel twice.
pub data Effect : Type 0 where
  called_on_connect called_on_close offered_outgoing double_close : Effect
  started_reader started_heartbeat started_reconnect : Effect
  closed_socket aborted_socket : ℕ → Effect

-- `closeChan`.
pub data Chan : Type 0 where
  absent open_chan closed_chan : Chan

-- The fields of `tcpConn` and those of its options that steer it. `has_event` and `has_outgoing`
-- tell whether `event` and `outgoingCh` are not nil, `known_addr` whether `remoteAddr` is not
-- empty; `once_done` is the state of `closeOnce`.
pub record TcpConn : Type 0 where
  pub conn : Option ℕ
  pub id : ℕ
  pub known_addr : Bool
  pub closed : Bool
  pub skip_outgoing : Bool
  pub once_done : Bool
  pub close_chan : Chan
  pub has_event : Bool
  pub has_reader : Bool
  pub has_writer : Bool
  pub has_outgoing : Bool
  pub heartbeat_interval : ℕ
  pub reconnect_interval : ℕ
  pub reconnect_max : ℕ

abbrev pub Outcome : Type 0
Outcome = TcpConn × List Effect × Option NetError

-- `initIO`; `accept` is what the event handler's `OnConnect` returns. `newReader` refuses a
-- connection that is closed.
unfoldable pub init_io : Option NetError → TcpConn → Outcome
init_io accept c =
    let made : Chan = elim c.close_chan [ absent ↦ open_chan | ch ↦ ch ] in
    let c' = record c { close_chan = made; has_writer = true } in
    if c.has_event
    then elim accept [
      | some e ↦ (c', called_on_connect ∷ [], some e)
      | none ↦
          if c.closed
          then (record c' { has_reader = false }, called_on_connect ∷ [], some err_no_ready)
          else (record c' { has_reader = true }, called_on_connect ∷ started_reader ∷ [], none)
    ]
    else (c', [], none)

-- The options that a constructor is given.
pub record Options : Type 0 where
  pub id : ℕ
  pub has_event : Bool
  pub has_outgoing : Bool
  pub heartbeat_interval : ℕ
  pub reconnect_interval : ℕ
  pub reconnect_max : ℕ

unfoldable pub fresh : Option ℕ → Options → TcpConn
fresh conn o = record {
  conn = conn;
  id = o.id;
  known_addr = false;
  closed = false;
  skip_outgoing = false;
  once_done = false;
  close_chan = absent;
  has_event = o.has_event;
  has_reader = false;
  has_writer = false;
  has_outgoing = o.has_outgoing;
  heartbeat_interval = o.heartbeat_interval;
  reconnect_interval = o.reconnect_interval;
  reconnect_max = o.reconnect_max;
}

unfoldable pub new_client_conn : Options → TcpConn
unfolding fresh
new_client_conn o = fresh none o

-- Over an accepted socket; if `initIO` fails the socket is closed and there is no connection.
unfoldable pub new_server_conn : ℕ → Option NetError → Options → List Effect × (NetError ⊎ TcpConn)
unfolding fresh init_io
new_server_conn socket accept o =
    let (c, effects, err) = init_io accept (fresh (some socket) o) in
    elim err [ some e ↦ (effects ++ (closed_socket socket ∷ []), inl e) | none ↦ (effects, inr c) ]

abbrev pub heartbeat_start : TcpConn → List Effect
heartbeat_start c = if ltb 0 c.heartbeat_interval then started_heartbeat ∷ [] else []

-- What `Connect` and `ConnectWithTLS` do behind the dial, which gives an error or a socket.
unfoldable pub connect : NetError ⊎ ℕ → Option NetError → TcpConn → Outcome
unfolding init_io
connect (inl e) accept c = (c, [], some e)
connect (inr socket) accept c =
    let (c', effects, err) =
      init_io accept (record c { conn = some socket; known_addr = true; closed = false }) in
    elim err [
      | some e ↦ (record c' { conn = none }, effects ++ (closed_socket socket ∷ []), some e)
      | none ↦ (c', effects ++ heartbeat_start c', none)
    ]

-- `OnClose` of the connection as its own handler.
unfoldable pub on_close : TcpConn → List Effect
on_close c =
    (if c.has_event then called_on_close ∷ [] else [])
    ++ (if c.has_outgoing && not c.skip_outgoing then offered_outgoing ∷ [] else [])

abbrev pub chan_effects : Chan → List Effect
chan_effects absent = []
chan_effects open_chan = []
chan_effects closed_chan = double_close ∷ []

abbrev pub chan_after : Chan → Chan
chan_after absent = absent
chan_after _ = closed_chan

abbrev pub reconnect_start : Bool → TcpConn → List Effect
reconnect_start abort c =
    if abort && (ltb 0 c.reconnect_interval && (not c.has_outgoing && c.known_addr))
    then started_reconnect ∷ []
    else []

-- The function that `close` hands to `closeOnce`. The second argument is what the socket's `Close`
-- returns, which an abort does not wait for.
unfoldable pub close_body : Bool → Option NetError → TcpConn → Option ℕ → Outcome
unfolding on_close
close_body abort sock_err c none = (record c { once_done = true }, [], some err_no_ready)
close_body abort sock_err c (some socket) = (
  record c { once_done = true; closed = true; close_chan = chan_after c.close_chan; conn = none },
  chan_effects c.close_chan
      ++ (on_close c
          ++ ((if abort then aborted_socket socket else closed_socket socket)
              ∷ reconnect_start abort c)),
  (if abort then none else sock_err),
)

unfoldable pub close_with : Bool → Option NetError → TcpConn → Outcome
unfolding close_body
close_with abort sock_err c =
    if c.once_done then (c, [], none) else close_body abort sock_err c c.conn

unfoldable pub close : Option NetError → TcpConn → Outcome
unfolding close_with
close sock_err c = close_with false sock_err c

unfoldable pub abort_close : Bool → TcpConn → Outcome
unfolding close_with
abort_close skip c = close_with true none (record c { skip_outgoing = c.skip_outgoing || skip })

unfoldable pub is_closed : TcpConn → Bool
is_closed c = c.closed

-- The tests of `Write` and `Read`: the error, or the socket that is called.
unfoldable pub usable_socket : TcpConn → NetError ⊎ ℕ
usable_socket c = elim c.conn [
  | none ↦ inl err_closed
  | some socket ↦ if c.closed then inl err_closed else inr socket
]

-- The methods that set an option of the socket refuse only a missing socket.
unfoldable pub option_socket : TcpConn → NetError ⊎ ℕ
option_socket c = elim c.conn [ none ↦ inl err_no_ready | some socket ↦ inr socket ]

unfoldable pub set_heartbeat_interval : ℕ → TcpConn → TcpConn × Option NetError
set_heartbeat_interval d c = elim c.conn [
  | none ↦ (c, some err_no_ready)
  | some _ ↦ (record c { heartbeat_interval = d }, none)
]
