-- ===== src/Network/Conn/Lifecycle.antt =====
-- What holds of a connection through any sequence of calls.
use net_flux.Base.{
  ℕ, ◌+◌, ◌≤◌, ◌≡◌, refl, ◌⊎◌, Bool, true, false, Option, none, List, [], ◌∷◌, ◌++◌, if◌then◌else◌,
  arith,
}
use net_flux.Network.Packet.{NetError}
use net_flux.Network.Conn.{
  Effect, called_on_close, double_close, closed_chan, TcpConn, Options, new_client_conn, fresh,
  init_io, connect, close, abort_close,
}
use net_flux.Network.Conn.Reconnect.{Attempt, dialled, attempt}

-- The calls that change a connection; the goroutine of `reconnect` makes its attempts one by one,
-- in between the others.
pub data Op : Type 0 where
  connect_op : NetError ⊎ ℕ → Option NetError → Op
  close_op : Option NetError → Op
  abort_op : Bool → Op
  attempt_op : Attempt → Op

unfoldable pub step : Op → TcpConn → TcpConn × List Effect
step (connect_op dial accept) c = let (c', effects, _) = connect dial accept c in (c', effects)
step (close_op e) c = let (c', effects, _) = close e c in (c', effects)
step (abort_op skip) c = let (c', effects, _) = abort_close skip c in (c', effects)
step (attempt_op a) c = let (c', effects, _) = attempt a c in (c', effects)

unfoldable pub run : List Op → TcpConn → TcpConn × List Effect
run [] c = (c, [])
run (op ∷ ops) c =
    let (c', effects) = step op c in let (c'', more) = run ops c' in (c'', effects ++ more)

-- A closed channel is found only behind a `closeOnce` that has been used.
abbrev pub IsSafe : TcpConn → Type 0
IsSafe c = c.close_chan ≡ closed_chan → c.once_done ≡ true

abbrev is_double : Effect → Bool
is_double double_close = true
is_double _ = false

abbrev is_on_close : Effect → Bool
is_on_close called_on_close = true
is_on_close _ = false

abbrev pub count : (Effect → Bool) → List Effect → ℕ
count p [] = 0
count p (e ∷ es) = (if p e then 1 else 0) + count p es

-- How often a channel is closed that is closed already.
abbrev pub double_closes : List Effect → ℕ
double_closes = count is_double

-- How often the event handler's `OnClose` is called.
abbrev pub on_closes : List Effect → ℕ
on_closes = count is_on_close

pub count-append :
    (p : Effect → Bool) (es fs : List Effect) → count p (es ++ fs) ≡ count p es + count p fs
count-append p [] fs = omega arith
count-append p (e ∷ es) fs = omega (arith, count-append p es fs)

-- A use of `closeOnce` that is still to come.
abbrev slot : TcpConn → ℕ
slot c = if c.once_done then 0 else 1

abbrev op_sockets : Op → ℕ
op_sockets (attempt_op (dialled _ _)) = 1
op_sockets _ = 0

-- The sockets that `reconnect` has dialled.
abbrev pub redials : List Op → ℕ
redials [] = 0
redials (op ∷ ops) = op_sockets op + redials ops

pub step-IsSafe : (op : Op) (c : TcpConn) → IsSafe c → IsSafe (step op c).0
unfolding step connect close abort_close attempt init_io
step-IsSafe (connect_op dial accept) c h = ground arith
step-IsSafe (close_op e) c h = ground arith
step-IsSafe (abort_op skip) c h = ground arith
step-IsSafe (attempt_op a) c h = ground arith

step_no_double : (op : Op) (c : TcpConn) → IsSafe c → double_closes (step op c).1 ≡ 0
unfolding step connect close abort_close attempt init_io
step_no_double (connect_op dial accept) c h = ground arith
step_no_double (close_op e) c h = ground arith
step_no_double (abort_op skip) c h = ground arith
step_no_double (attempt_op a) c h = ground arith

on_closes-step :
    (op : Op) (c : TcpConn) → on_closes (step op c).1 + slot (step op c).0 ≤ slot c + op_sockets op
unfolding step connect close abort_close attempt init_io
on_closes-step (connect_op dial accept) c = ground arith
on_closes-step (close_op e) c = ground arith
on_closes-step (abort_op skip) c = ground arith
on_closes-step (attempt_op a) c = ground arith

double_closes-run : (ops : List Op) (c : TcpConn) → IsSafe c → double_closes (run ops c).1 ≡ 0
unfolding run
double_closes-run [] c h = refl
double_closes-run (op ∷ ops) c h = omega (
  arith,
  count-append is_double (step op c).1 (run ops (step op c).0).1,
  step_no_double op c h,
  double_closes-run ops (step op c).0 (step-IsSafe op c h),
)

on_closes-run :
    (ops : List Op) (c : TcpConn)
    → on_closes (run ops c).1 + slot (run ops c).0 ≤ slot c + redials ops
unfolding run
on_closes-run [] c = omega arith
on_closes-run (op ∷ ops) c = omega (
  arith,
  count-append is_on_close (step op c).1 (run ops (step op c).0).1,
  on_closes-step op c,
  on_closes-run ops (step op c).0,
)

-- Through any sequence of calls of `Connect`, `Close`, `abortClose` and attempts to reconnect, on a
-- new client connection, `closeChan` is never closed twice, and the event handler's `OnClose` is
-- called at most once more than `reconnect` has dialled a socket.
pub client_closes_once :
    (o : Options) (ops : List Op)
    → (double_closes (run ops (new_client_conn o)).1 ≡ 0)
      × (on_closes (run ops (new_client_conn o)).1 ≤ 1 + redials ops)
unfolding new_client_conn
client_closes_once o ops = (
  double_closes-run ops (fresh none o) (unfold fresh in λ h. cc),
  ground (arith, on_closes-run ops (fresh none o)),
)
