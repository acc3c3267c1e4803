-- ===== src/Network/Conn/Reconnect.antt =====
-- `reconnect`: a loop of dials, each of which may fail or lead to an `initIO` that fails.
pub mod Outcome
use net_flux.Base.{
  ℕ, zero, suc, ◌+◌, ◌-◌, ◌≤◌, ◌<◌, ◌≡◌, refl, ap, Bool, true, false, Option, none, some, List, [],
  ◌∷◌, ◌++◌, ◌||◌, ltb, ◌==◌, if◌then◌else◌, ◌⊎◌, inl, inr, length, arith,
}
use net_flux.Network.Packet.{NetError}
use net_flux.Network.Conn.{Effect, closed_socket, open_chan, TcpConn, init_io, heartbeat_start}

-- What the environment answers to an attempt: a failed dial, or a socket and what the event
-- handler's `OnConnect` returns.
pub data Attempt : Type 0 where
  dial_failed : Attempt
  dialled : ℕ → Option NetError → Attempt

-- `waiting` is a loop that has used up the attempts it was given and has not ended.
pub data Progress : Type 0 where
  reconnected gave_up waiting : Progress

-- One attempt: the connection, what was done, and whether the loop is left with success.
unfoldable pub attempt : Attempt → TcpConn → TcpConn × List Effect × Bool
attempt dial_failed c = (c, [], false)
attempt (dialled socket accept) c =
    let (c', effects, err) = init_io accept (record c {
      conn = some socket;
      closed = false;
      once_done = false;
      close_chan = open_chan;
    }) in
    elim err [
      | some e ↦
          (record c' { conn = none; closed = true }, effects ++ (closed_socket socket ∷ []), false)
      | none ↦ (c', effects ++ heartbeat_start c', true)
    ]

-- The loop, from its i-th round on: `c.options.ReconnectMax == 0 || i < c.options.ReconnectMax`.
unfoldable pub reconnect_from : ℕ → List Attempt → TcpConn → TcpConn × List Effect × Progress
reconnect_from i [] c =
    (c, [], if c.reconnect_max == 0 || ltb i c.reconnect_max then waiting else gave_up)
reconnect_from i (a ∷ more) c =
    let (c', effects, done) = attempt a c in
    let (last, later, progress) = reconnect_from (i + 1) more c' in
    if c.reconnect_max == 0 || ltb i c.reconnect_max
    then (if done then (c', effects, reconnected) else (last, effects ++ later, progress))
    else (c, [], gave_up)

unfoldable pub reconnect : List Attempt → TcpConn → TcpConn × List Effect × Progress
unfolding reconnect_from
reconnect attempts c = if c.known_addr then reconnect_from 0 attempts c else (c, [], gave_up)
