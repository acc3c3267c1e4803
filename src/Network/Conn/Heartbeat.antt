-- ===== src/Network/Conn/Heartbeat.antt =====
-- pkg/network/tcp_con.go: the goroutine that `Connect` and `reconnect` start to send PINGs.
use net_flux.Base.{Bool, true, false, ◌||◌, not, Option, List, [], ◌∷◌, if◌then◌else◌}
use net_flux.Base.Int.{ℤ}
use net_flux.Network.Packet.{NetError}
use net_flux.Network.Conn.{TcpConn}

-- What ends a wait of the `select`: the ticker, at some time, with the connection as it is then, or
-- the channel that was `closeChan` when the wait began.
pub data Wakeup : Type 0 where
  ticked : ℤ → TcpConn → Wakeup
  chan_closed : Wakeup

-- `ping` writes a PING with the time by the connection's writer, and its error is dropped. The second
-- result tells whether the goroutine has ended.
module _ {S : Type 0} (ping : ℤ → S → S × Option NetError) where
  unfoldable pub beat : Wakeup → S → S × Bool
  beat (ticked now c) s =
      if not c.has_writer || c.closed then (s, false) else ((ping now s).0, false)
  beat chan_closed s = (s, true)

  unfoldable pub heartbeat : List Wakeup → S → S × Bool
  heartbeat [] s = (s, false)
  heartbeat (w ∷ ws) s =
      let (t, ended) = beat w s in let rest = heartbeat ws t in if ended then (t, true) else rest
