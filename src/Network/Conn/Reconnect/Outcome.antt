-- ===== src/Network/Conn/Reconnect/Outcome.antt =====
-- How the loop of `reconnect` ends.
use net_flux.Base.{
  ℕ, ◌+◌, ◌++◌, ◌≡◌, refl, inl, inr, Bool, true, false, none, some, List, [], ◌∷◌, ◌||◌, ltb, ◌==◌,
  if◌then◌else◌, length, Bool-cases, arith,
}
use net_flux.Network.Packet.{NetError}
use net_flux.Network.Conn.{Effect, started_reader, open_chan, TcpConn, init_io}
use net_flux.Network.Conn.Reconnect.{
  Attempt, dial_failed, dialled, Progress, reconnected, gave_up, waiting, attempt, reconnect_from,
  reconnect,
}

-- A connection that was closed and has no socket.
pub record IsDown (c : TcpConn) : Type 0 where
  pub no_socket : c.conn ≡ none
  pub marked : c.closed ≡ true

abbrev starts : Effect → ℕ
starts started_reader = 1
starts _ = 0

-- How many readers the effects start.
abbrev pub readers : List Effect → ℕ
readers [] = 0
readers (e ∷ effects) = starts e + readers effects

-- A connection that serves: it has a socket and a writer and can be closed, and if it has an event
-- handler it has a reader, whose goroutine has been started once.
pub record IsLive (effects : List Effect) (c : TcpConn) : Type 0 where
  pub socket : ℕ
  pub has_socket : c.conn ≡ some socket
  pub unmarked : c.closed ≡ false
  pub can_close : c.once_done ≡ false
  pub channel : c.close_chan ≡ open_chan
  pub writes : c.has_writer ≡ true
  pub reads : c.has_event ≡ true → c.has_reader ≡ true
  pub started : readers effects ≡ (if c.has_event then 1 else 0)

-- The attempts that the event handler or the network turns down.
abbrev pub Fails : Attempt → Type 0
Fails dial_failed = Unit
Fails (dialled socket accept) = (e : NetError) × (accept ≡ some e)

abbrev pub AllFail : List Attempt → Type 0
AllFail [] = Unit
AllFail (a ∷ more) = Fails a × AllFail more

readers-append : (xs ys : List Effect) → readers (xs ++ ys) ≡ readers xs + readers ys
readers-append [] ys = omega arith
readers-append (x ∷ xs) ys = omega (arith, readers-append xs ys)

attempt_fails :
    (a : Attempt) (c : TcpConn)
    → (attempt a c).2 ≡ false
    → IsDown c
    → IsDown (attempt a c).0 × (readers (attempt a c).1 ≡ 0)
unfolding attempt init_io
attempt_fails dial_failed c h d = (d, refl)
attempt_fails (dialled socket accept) c h d = ground arith

attempt_succeeds :
    (a : Attempt) (c : TcpConn) → (attempt a c).2 ≡ true → IsLive (attempt a c).1 (attempt a c).0
unfolding attempt init_io
attempt_succeeds dial_failed c h = cc
attempt_succeeds (dialled socket accept) c h = record {
  socket = socket;
  has_socket = ground arith;
  unmarked = ground arith;
  can_close = ground arith;
  channel = ground arith;
  writes = ground arith;
  reads = ground arith;
  started = ground arith;
}

-- The condition of the loop before its i-th round.
abbrev goes_on : ℕ → TcpConn → Bool
goes_on i c = c.reconnect_max == 0 || ltb i c.reconnect_max

-- What each end of the loop promises of the effects and the connection.
abbrev pub Ensures : Progress → List Effect → TcpConn → Type 0
Ensures reconnected effects c = IsLive effects c
Ensures gave_up effects c = IsDown c × (readers effects ≡ 0)
Ensures waiting effects c = IsDown c × (readers effects ≡ 0)

-- What was done before without starting a reader does not matter.
after :
    (p : Progress) (before effects : List Effect) (c : TcpConn)
    → readers before ≡ 0
    → Ensures p effects c
    → Ensures p (before ++ effects) c
after reconnected before effects c idle live = record {
  socket = live.socket;
  has_socket = live.has_socket;
  unmarked = live.unmarked;
  can_close = live.can_close;
  channel = live.channel;
  writes = live.writes;
  reads = live.reads;
  started = ground (arith, readers-append before effects, live.started);
}
after gave_up before effects c idle (d, none_) = (d, ground (arith, readers-append before effects))
after waiting before effects c idle (d, none_) = (d, ground (arith, readers-append before effects))

reconnect_from-Ensures :
    (i : ℕ) (attempts : List Attempt) (c : TcpConn)
    → IsDown c
    → let (c', effects, progress) = reconnect_from i attempts c in Ensures progress effects c'
unfolding reconnect_from
reconnect_from-Ensures i [] c d = elim (Bool-cases (goes_on i c)) [
  | inl on ↦ rw on (d, refl)
  | inr over ↦ rw over (d, refl)
]
reconnect_from-Ensures i (a ∷ more) c d = elim (Bool-cases (goes_on i c)) [
  | inr over ↦ rw over (d, refl)
  | inl on ↦ elim (Bool-cases (attempt a c).2) [
    | inl yes_ ↦ rw (on, yes_) (attempt_succeeds a c yes_)
    | inr no_ ↦
        let (c', effects, _) = attempt a c in
        let (last, later, progress) = reconnect_from (i + 1) more c' in
        let (down, idle) = attempt_fails a c no_ d in
        rw (on, no_)
          (after progress effects later last idle (reconnect_from-Ensures (i + 1) more c' down))
  ]
]

-- From a connection that was closed, whatever the dials and the event handler answer: if the loop
-- reports success, the connection has a socket and a writer, is not marked closed, its `closeOnce`
-- is unused and its channel open, and if it has an event handler it has a reader, whose loop was
-- started exactly once (and none without one); if it gives up, or is still trying, the connection
-- has no socket, is marked closed, and no reader was started.
pub reconnect-Ensures :
    (attempts : List Attempt) (c : TcpConn)
    → IsDown c
    → let (c', effects, progress) = reconnect attempts c in Ensures progress effects c'
unfolding reconnect
reconnect-Ensures attempts c d = elim (Bool-cases c.known_addr) [
  | inl known ↦ simp known (reconnect_from-Ensures 0 attempts c d)
  | inr unknown ↦ simp unknown (d, refl)
]

attempt-Fails_same :
    (a : Attempt) (c : TcpConn)
    → Fails a
    → c.has_event ≡ true
    → ((attempt a c).2 ≡ false)
      × ((attempt a c).0.reconnect_max ≡ c.reconnect_max)
      × ((attempt a c).0.has_event ≡ true)
unfolding attempt init_io
attempt-Fails_same dial_failed c f h = (refl, refl, h)
attempt-Fails_same (dialled socket accept) c f h = ground arith

reconnect_from_patience :
    (i : ℕ) (attempts : List Attempt) (c : TcpConn)
    → AllFail attempts
    → c.has_event ≡ true
    → (reconnect_from i attempts c).2 ≡ (
        if c.reconnect_max == 0 || ltb (i + length attempts) c.reconnect_max
        then waiting
        else gave_up)
unfolding reconnect_from
reconnect_from_patience i [] c f h = ground arith
reconnect_from_patience i (a ∷ more) c f h =
    let (lost, same, event) = attempt-Fails_same a c f.0 h in
    ground (arith, reconnect_from_patience (i + 1) more (attempt a c).0 f.1 event)

-- While every attempt fails, a connection with an event handler and an address goes on as long as
-- `ReconnectMax` is 0 or more than the number of attempts made, and gives up else.
pub reconnect_patience :
    (attempts : List Attempt) (c : TcpConn)
    → AllFail attempts
    → c.has_event ≡ true
    → c.known_addr ≡ true
    → (reconnect attempts c).2
      ≡ (if c.reconnect_max == 0 || ltb (length attempts) c.reconnect_max then waiting else gave_up)
unfolding reconnect
reconnect_patience attempts c f h known = ground (arith, reconnect_from_patience 0 attempts c f h)
