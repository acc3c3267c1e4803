-- ===== src/Network/Client.antt =====
-- pkg/network/tcp_cli.go: the client that owns one connection.
pub mod Ends
use net_flux.Base.{ℕ, ◌⊎◌, Bool, true, false, Option, none, some, List, ◌++◌, if◌then◌else◌}
use net_flux.Network.Packet.{NetError, err_closed, err_no_ready}
use net_flux.Network.Conn.{Effect, TcpConn, Options, new_client_conn, connect, close}

-- `options` tells whether options were given; the connection has the handler in `has_event`.
pub record TcpClient : Type 0 where
  pub has_event : Bool
  pub conn : TcpConn

unfoldable pub new_tcp_client : Bool → Options → TcpClient
new_tcp_client has_event o = record {
  has_event = has_event;
  conn = new_client_conn (record o { has_event = has_event });
}

abbrev pub is_expected : NetError → Bool
is_expected err_closed = true
is_expected err_no_ready = true
is_expected _ = false

-- `shutdown`, with what the socket's `Close` returns.
unfoldable pub client_shutdown :
    Option NetError → Option NetError → TcpClient → TcpClient × List Effect × Option NetError
client_shutdown cause sock_err c =
    let (t, effects, err) = close sock_err c.conn in
    (
      record c { conn = t },
      effects,
      elim err [ none ↦ cause | some e ↦ if is_expected e then cause else some e ],
    )

unfoldable pub client_close :
    Option NetError → TcpClient → TcpClient × List Effect × Option NetError
client_close sock_err c = client_shutdown none sock_err c

unfoldable pub client_connect :
    NetError ⊎ ℕ → Option NetError → TcpClient → TcpClient × List Effect × Option NetError
client_connect dial accept c =
    let (t, effects, err) = connect dial accept c.conn in (record c { conn = t }, effects, err)

-- `Wait`, once the context is done, with its error.
unfoldable pub wait :
    Option NetError → Option NetError → TcpClient → TcpClient × List Effect × Option NetError
wait cause sock_err c = client_shutdown cause sock_err c

-- `Run`: the client connects and waits until the context is done. `between` is what happens to the
-- client until then: its reader, its loop of reconnecting and calls from other goroutines.
unfoldable pub client_run :
    NetError ⊎ ℕ
    → Option NetError
    → (TcpClient → TcpClient × List Effect)
    → Option NetError
    → Option NetError
    → TcpClient
    → TcpClient × List Effect × Option NetError
client_run dial accept between cause sock_err c =
    let (t, effects, err) = client_connect dial accept c in
    let (t', meanwhile) = between t in
    let (u, more, result) = wait cause sock_err t' in
    elim err [ some e ↦ (t, effects, some e) | none ↦ (u, effects ++ meanwhile ++ more, result) ]

unfoldable pub set_event_handler : Bool → TcpClient → TcpClient
set_event_handler has_event c = record c {
  has_event = has_event;
  conn = record c.conn { has_event = has_event };
}

unfoldable pub event_handler : TcpClient → Bool
event_handler c = c.has_event
