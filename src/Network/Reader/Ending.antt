-- ===== src/Network/Reader/Ending.antt =====
-- How a reader of pkg/network/tcp_reader.go starts and ends. The `WaitGroup` that counts the readers of
-- a server is a number, where there is one.
use net_flux.Base.{ℕ, ◌+◌, ◌-◌, Bool, true, false, Option, none, some, [], if◌then◌else◌}
use net_flux.Network.Packet.{NetError, err_no_ready, handler_required}
use net_flux.Network.Conn.{TcpConn, Outcome, is_closed, abort_close}

abbrev pub counted : (ℕ → ℕ) → Option ℕ → Option ℕ
counted change none = none
counted change (some n) = some (change n)

-- `newReader` of a connection that is not nil: the readers that are counted, and the error. Without an
-- error the goroutine of the loop is started.
unfoldable pub new_reader : Bool → TcpConn → Option ℕ → Option ℕ × Option NetError
new_reader has_handler c readers =
    if is_closed c
    then (readers, some err_no_ready)
    else if has_handler
    then (counted (λ n. n + 1) readers, none)
    else (readers, some handler_required)

-- What the loop does last, however it ends.
unfoldable pub loop_exit : TcpConn → Option ℕ → Outcome × Option ℕ
unfolding abort_close
loop_exit c readers =
    ((if is_closed c then (c, [], none) else abort_close false c), counted (λ n. n - 1) readers)

-- `Close`, with the state of its `closeOnce`.
unfoldable pub reader_close : Bool → TcpConn → Bool × Outcome
unfolding abort_close
reader_close true c = (true, (c, [], none))
reader_close false c = (true, if is_closed c then (c, [], none) else abort_close false c)
