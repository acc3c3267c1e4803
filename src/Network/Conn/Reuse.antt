-- ===== src/Network/Conn/Reuse.antt =====
-- A connection that is connected again by hand after it was closed.
use net_flux.Base.{ℕ, ◌≡◌, Bool, Option, none, inr, [], arith}
use net_flux.Network.Packet.{NetError}
use net_flux.Network.Conn.{TcpConn, connect, init_io, close, abort_close, usable_socket}

-- `closeOnce` is used up by the first `Close`, also by one that finds no socket, and `Connect` does
-- not renew it: after a `Close`, a `Connect` that dials the socket and is accepted makes the
-- connection usable, and every later `Close` returns without an error, does nothing, and leaves the
-- connection usable; so does `abortClose`, but for its flag.
pub close-connect-close :
    (c : TcpConn) (e e' : Option NetError) (skip : Bool) (socket : ℕ)
    → let c' = (connect (inr socket) none (close e c).0).0 in
      (usable_socket c' ≡ inr socket)
      × (close e' c' ≡ (c', [], none))
      × (abort_close skip c'
          ≡ (record c' { skip_outgoing = (abort_close skip c').0.skip_outgoing }, [], none))
unfolding connect init_io close abort_close usable_socket
close-connect-close c e e' skip socket = ground arith
