-- ===== src/Network/Client/Ends.antt =====
-- How `Run` of the client leaves its connection.
use net_flux.Base.{
  ℕ, ◌≡◌, refl, ◌⊎◌, inl, inr, Bool, true, false, Option, none, some, List, [], ◌∷◌, Bool-cases,
  arith,
}
use net_flux.Network.Packet.{NetError}
use net_flux.Network.Conn.{
  Effect, TcpConn, Options, new_client_conn, fresh, init_io, connect, close, abort_close, is_closed,
}
use net_flux.Network.Conn.Reconnect.{Attempt, dial_failed, dialled, attempt}
use net_flux.Network.Conn.Lifecycle.{Op, connect_op, close_op, abort_op, attempt_op, step, run}
use net_flux.Network.Client.{
  TcpClient, new_tcp_client, client_connect, client_shutdown, wait, client_run,
}

-- No call of `Connect` is among the calls.
abbrev pub no_connect : List Op → Bool
no_connect [] = true
no_connect (connect_op dial accept ∷ ops) = false
no_connect (close_op e ∷ ops) = no_connect ops
no_connect (abort_op skip ∷ ops) = no_connect ops
no_connect (attempt_op a ∷ ops) = no_connect ops

-- Calls on the client's connection.
abbrev pub meanwhile : List Op → TcpClient → TcpClient × List Effect
meanwhile ops c = let (t, effects) = run ops c.conn in (record c { conn = t }, effects)

-- A connection that is down, or one that the next close takes down.
abbrev IsEnding : TcpConn → Type 0
IsEnding c =
    ((c.conn ≡ none) × (c.closed ≡ true))
    ⊎ ((socket : ℕ) × (c.conn ≡ some socket) × (c.once_done ≡ false))

IsDown : TcpConn → Type 0
IsDown c = (c.conn ≡ none) × (c.closed ≡ true)

close-IsDown : (e : Option NetError) (c : TcpConn) → IsEnding c → IsDown (close e c).0
unfolding close IsDown
close-IsDown e c (inl (gone, marked)) = ground arith
close-IsDown e c (inr (socket, there, unused)) = ground arith

abort_close-IsDown : (skip : Bool) (c : TcpConn) → IsEnding c → IsDown (abort_close skip c).0
unfolding abort_close IsDown
abort_close-IsDown skip c (inl (gone, marked)) = ground arith
abort_close-IsDown skip c (inr (socket, there, unused)) = ground arith

attempt-IsEnding : (a : Attempt) (c : TcpConn) → IsEnding c → IsEnding (attempt a c).0
unfolding attempt init_io
attempt-IsEnding dial_failed c ends = ends
attempt-IsEnding (dialled socket accept) c ends = elim (Bool-cases c.has_event) [
  | inr alone ↦ inr (socket, ground arith, ground arith)
  | inl event ↦ go accept
]
  where
    go : (accept : Option NetError) → IsEnding (attempt (dialled socket accept) c).0
    go none = inr (socket, ground arith, ground arith)
    go (some e) = ground arith

run-IsEnding :
    (ops : List Op) (c : TcpConn) → no_connect ops ≡ true → IsEnding c → IsEnding (run ops c).0
unfolding run step IsDown
run-IsEnding [] c none_ ends = ends
run-IsEnding (connect_op dial accept ∷ ops) c none_ ends = ground arith
run-IsEnding (close_op e ∷ ops) c none_ ends =
    run-IsEnding ops (close e c).0 none_ (inl (close-IsDown e c ends))
run-IsEnding (abort_op skip ∷ ops) c none_ ends =
    run-IsEnding ops (abort_close skip c).0 none_ (inl (abort_close-IsDown skip c ends))
run-IsEnding (attempt_op a ∷ ops) c none_ ends =
    run-IsEnding ops (attempt a c).0 none_ (attempt-IsEnding a c ends)

-- A new client that connects without an error.
connect_new :
    (has_event : Bool) (o : Options) (socket : ℕ)
    → let (c, effects, err) = client_connect (inr socket) none (new_tcp_client has_event o) in
      (err ≡ none) × IsEnding c.conn
unfolding client_connect new_tcp_client connect new_client_conn fresh init_io
connect_new true o socket = (refl, inr (socket, refl, refl))
connect_new false o socket = (refl, inr (socket, refl, refl))

-- A new client whose dial succeeds and whose event handler, if there is one, accepts, and whatever
-- closes, aborts and attempts to reconnect there are before the context of `Run` is done, but no
-- other `Connect`: when `Run` returns, the connection is closed and has no socket.
pub client_run_ends :
    (has_event : Bool) (o : Options) (socket : ℕ) (ops : List Op) (cause sock_err : Option NetError)
    → no_connect ops ≡ true
    → let u =
        (client_run
          (inr socket)
          none
          (meanwhile ops)
          cause
          sock_err
          (new_tcp_client has_event o)).0 in
      (is_closed u.conn ≡ true) × (u.conn.conn ≡ none)
unfolding client_run wait client_shutdown is_closed IsDown client_connect connect new_tcp_client
    new_client_conn
client_run_ends has_event o socket ops cause sock_err none_ =
    let c = (client_connect (inr socket) none (new_tcp_client has_event o)).0.conn in
    let (fine, ends) = connect_new has_event o socket in
    let (gone, marked) = close-IsDown sock_err (run ops c).0 (run-IsEnding ops c none_ ends) in
    rw fine (marked, gone)
