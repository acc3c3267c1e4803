-- ===== src/Network/Tests.antt =====
-- The theorems on the network's parts at concrete inputs.
use net_flux.Base.{
  ℕ, ◌+◌, ◌≤◌, ◌≡◌, refl, ap, sym, ◌⊎◌, inl, inr, true, false, ◌||◌, Option, none, some, List, [],
  ◌∷◌, ◌++◌, length, take, replicate, length-replicate, length-take, ltb, ◌==◌, if◌then◌else◌,
  arith, not, ◌&&◌,
}
use native.Mathlib.Decide.{ℕ_discrete}
use net_flux.Base.Map
use net_flux.Network.Packet.{NetError, eof, other, PacketHeader}
use net_flux.Network.Writer.{IoWriter, TcpWriter, write_packet}
use net_flux.Network.Writer.Frame.{frame, header_of}
use net_flux.Network.Writer.Sends.{Sent, write_packet_sends}
use net_flux.Network.Reader.{TcpReader, Exit, failed, loop}
use net_flux.Network.Reader.Framing.{Message, frames, handle_all, loop-frames}
use net_flux.Network.Reader.Progress.{loop_ends}
use net_flux.Network.Dispatch.{Kind, HandlerCall}
use net_flux.Network.Conn.{
  TcpConn, Options, new_client_conn, fresh, connect, close, abort_close, usable_socket,
}
use net_flux.Network.Conn.Lifecycle.{
  Op, connect_op, close_op, abort_op, attempt_op, run, double_closes, on_closes, redials,
  client_closes_once,
}
use net_flux.Network.Conn.Reuse.{close-connect-close}
use net_flux.Network.Conn.Reconnect.{dial_failed, dialled, gave_up, waiting, reconnect}
use net_flux.Network.Conn.Reconnect.Outcome.{Ensures, reconnect-Ensures, reconnect_patience}
use net_flux.Network.Conn.{is_closed}
use net_flux.Network.Client.{client_run, new_tcp_client}
use net_flux.Network.Client.Ends.{meanwhile, client_run_ends}
use net_flux.Network.Server
use net_flux.Network.Server.{
  TcpServer, new_tcp_server, register_conn, offer, accepted, conn_closed, outgoing_ready,
}
use net_flux.Network.Server.Table.{IsBelow, run_fresh_id}
use net_flux.Network.Server.Shutdown.{among, lookup-run-offer}

abbrev head : PacketHeader
head = header_of 30 33 513

take_short : (p : List ℕ) → take (length (take 3 p)) p ≡ take 3 p
take_short [] = refl
take_short (a ∷ []) = refl
take_short (a ∷ b ∷ []) = refl
take_short (a ∷ b ∷ c ∷ p) = refl

-- A writer that takes three bytes at a time.
abbrev dripping : IoWriter
dripping = record {
  State = List ℕ;
  write = λ p s. (s ++ take 3 p, length (take 3 p), none);
  taken = λ s. s;
  bounded = λ p s. omega (arith, length-take 3 p);
  progress = λ p s h some_. omega (arith, length-take 3 p);
  takes = λ p s. ap (λ q. s ++ q) (sym (take_short p));
}

-- A message is its number of zero bytes, and 13 has no encoding.
abbrev marshal : ℕ → NetError ⊎ List ℕ
marshal n = if n == 13 then inl (other 1) else inr (replicate n 0)

abbrev writer : TcpWriter
writer = record { storage = 9 ∷ 9 ∷ 9 ∷ [] }

write_packet_sends_example :
    (tw' : TcpWriter) × (t : List ℕ) × (err : Option NetError) × (write_packet dripping marshal 20
        true 30 10 4 writer []
      ≡ some (tw', t, err))
    × Sent dripping marshal (frame 30 10 (replicate 4 0)) [] t err
write_packet_sends_example =
    write_packet_sends dripping marshal 20 30 10 4 (replicate 4 0) writer [] refl
      (omega (arith, length-replicate {A = ℕ} 4 0)) (omega (arith, length-replicate {A = ℕ} 4 0))

-- A handler that keeps the lengths of the payloads, and fails.
abbrev keep_length : PacketHeader → List ℕ → List ℕ → List ℕ × Option NetError
keep_length h payload s = (length payload ∷ s, some (other 2))

abbrev messages : List Message
messages = (10, 10, 1 ∷ 2 ∷ []) ∷ (20, 12, []) ∷ []

loop-frames_example :
    (storage' : List ℕ) × (loop
        (λ _. false)
        (λ _. true)
        keep_length
        3
        0
        (record { input = frames messages; storage = [] })
        []
      ≡ some (
        record { input = []; storage = storage' },
        handle_all keep_length messages [],
        failed eof,
      ))
loop-frames_example =
    loop-frames keep_length messages 3 0 [] [] (omega arith, (omega arith, tt)) (omega arith)

loop_ends_example :
    (r' : TcpReader) × (s' : List ℕ) × (e : Exit) × (loop
        (λ k. k == 5)
        (λ _. true)
        keep_length
        6
        0
        (record { input = replicate 5 7; storage = [] })
        []
      ≡ some (r', s', e))
loop_ends_example =
    loop_ends (λ k. k == 5) (λ _. true) keep_length 6 0
      (record { input = replicate 5 7; storage = [] }) []
      (omega (arith, length-replicate {A = ℕ} 5 7))

-- Messages as their types with the bytes; the empty payload is malformed.
abbrev unmarshal : Kind → List ℕ → NetError ⊎ Kind × List ℕ
unmarshal kind [] = inl (other 3)
unmarshal kind (b ∷ bytes) = inr (kind, b ∷ bytes)

abbrev record_call :
    HandlerCall (Kind × List ℕ)
    → List (HandlerCall (Kind × List ℕ))
    → List (HandlerCall (Kind × List ℕ)) × Option NetError
record_call call calls = (call ∷ calls, none)

abbrev options : Options
options = record {
  id = 1;
  has_event = true;
  has_outgoing = false;
  heartbeat_interval = 10;
  reconnect_interval = 5;
  reconnect_max = 2;
}

abbrev calls : List Op
calls =
    connect_op (inr 3) none
    ∷ close_op none
    ∷ attempt_op (dialled 4 none)
    ∷ close_op none
    ∷ close_op none
    ∷ []

client_closes_once_example :
    (double_closes (run calls (new_client_conn options)).1 ≡ 0)
    × (on_closes (run calls (new_client_conn options)).1 ≤ 1 + redials calls)
client_closes_once_example = client_closes_once options calls

abbrev client : TcpConn
client = new_client_conn options

close-connect-close_example :
    let c' = (connect (inr 7) none (close none client).0).0 in
    (usable_socket c' ≡ inr 7)
    × (close (some eof) c' ≡ (c', [], none))
    × (abort_close true c'
        ≡ (record c' { skip_outgoing = (abort_close true c').0.skip_outgoing }, [], none))
close-connect-close_example = close-connect-close client none (some eof) true 7

-- A connection that was lost.
abbrev lost : TcpConn
lost = record (fresh none options) { closed = true; known_addr = true; once_done = true }

reconnect-Ensures_example :
    Ensures
      (reconnect (dial_failed ∷ dialled 8 none ∷ []) lost).2
      (reconnect (dial_failed ∷ dialled 8 none ∷ []) lost).1
      (reconnect (dial_failed ∷ dialled 8 none ∷ []) lost).0
unfolding fresh
reconnect-Ensures_example =
    reconnect-Ensures (dial_failed ∷ dialled 8 none ∷ []) lost
      (record { no_socket = refl; marked = refl })

reconnect_patience_example :
    (reconnect (dial_failed ∷ dialled 8 (some eof) ∷ []) lost).2
    ≡ (if lost.reconnect_max == 0 || ltb 2 lost.reconnect_max then waiting else gave_up)
unfolding fresh
reconnect_patience_example =
    reconnect_patience (dial_failed ∷ dialled 8 (some eof) ∷ []) lost (tt, ((eof, refl), tt)) refl
      refl

abbrev server : TcpServer
server = record (new_tcp_server true none) {
  next_id = 2;
  conns = (2, 5) ∷ [];
  outgoing = replicate 16 2;
}

abbrev events : List Server.Event
events = accepted 5 none ∷ conn_closed false 2 ∷ outgoing_ready ∷ accepted 6 none ∷ []

run_fresh_id_example :
    let s = (Server.run events (new_tcp_server true none)).0 in
    IsBelow s × (Map.lookup ℕ_discrete (s.next_id + 1) s.conns ≡ none)
run_fresh_id_example = run_fresh_id true none events (omega arith)

lookup-run-offer_example :
    Map.lookup ℕ_discrete 3
      (Server.run
        (replicate (length (offer false 3 server).outgoing) outgoing_ready)
        (offer false 3 server)).0.conns
    ≡ (if (not false && ltb (length server.outgoing) 16) || among 3 server.outgoing
        then none
        else Map.lookup ℕ_discrete 3 server.conns)
lookup-run-offer_example = lookup-run-offer false 3 server

-- The peer breaks off, one attempt to reconnect fails and the next one succeeds.
abbrev broken_once : List Op
broken_once = abort_op false ∷ attempt_op dial_failed ∷ attempt_op (dialled 4 none) ∷ []

client_run_ends_example :
    let u =
      (client_run
        (inr 3)
        none
        (meanwhile broken_once)
        (some (other 4))
        (some eof)
        (new_tcp_client true options)).0 in
    (is_closed u.conn ≡ true) × (u.conn.conn ≡ none)
client_run_ends_example =
    client_run_ends true options 3 broken_once (some (other 4)) (some eof) refl
