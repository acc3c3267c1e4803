-- ===== src/Network/Server/Shutdown.antt =====
-- What `shutdown` leaves, and which closed connections leave the table.
use net_flux.Base.{
  ℕ, ◌≡◌, refl, Bool, true, false, ◌&&◌, ◌||◌, not, none, List, [], ◌∷◌, ◌++◌, ltb, length,
  replicate, if◌then◌else◌, arith,
}
use mathlib.Core.Logic.{ite}
use native.Mathlib.Decide.{ℕ_discrete}
use net_flux.Base.Map
use net_flux.Base.Map.{lookup-delete}
use net_flux.Network.Server.{
  TcpServer, outgoing_ready, take_offer, step, run, offer, remove_conn, drain_from, drain_outgoing,
  shutdown, close_conns, abort_all,
}

abbrev pub among : ℕ → List ℕ → Bool
among id [] = false
among id (j ∷ ids) = ite (ℕ_discrete j id) true (among id ids)

among-append : (id : ℕ) (xs ys : List ℕ) → among id (xs ++ ys) ≡ (among id xs || among id ys)
among-append id [] ys = refl
among-append id (x ∷ xs) ys = ground (arith, among-append id xs ys)

lookup-drain_from :
    (id : ℕ) (ids : List ℕ) (s : TcpServer)
    → Map.lookup ℕ_discrete id (drain_from ids s).conns
      ≡ (if among id ids then none else Map.lookup ℕ_discrete id s.conns)
unfolding drain_from remove_conn
lookup-drain_from id [] s = refl
lookup-drain_from id (j ∷ ids) s =
    ground
      (arith, lookup-drain_from id ids (remove_conn j s), lookup-delete ℕ_discrete j id s.conns)

-- The loop takes all offers that wait, one in each round.
run-drain_from :
    (ids : List ℕ) (s : TcpServer)
    → s.outgoing ≡ ids
    → run (replicate (length ids) outgoing_ready) s
      ≡ (drain_from ids (record s { outgoing = [] }), none)
unfolding run step take_offer drain_from remove_conn
run-drain_from [] s waits = ground (arith, waits)
run-drain_from (id ∷ ids) s waits =
    rw waits (run-drain_from ids (remove_conn id (record s { outgoing = ids })) refl)

-- A connection that closes offers itself to the accepting loop, unless it skips that, and the loop
-- has removed it after as many rounds of receiving as offers wait. But an offer made while sixteen
-- others wait is dropped: unless the connection is among those already, it stays in the table, and
-- what the table holds under its ID does not change; and so it is for one that makes no offer.
pub lookup-run-offer :
    (skip : Bool) (id : ℕ) (s : TcpServer)
    → let t = offer skip id s in
      Map.lookup ℕ_discrete id (run (replicate (length t.outgoing) outgoing_ready) t).0.conns ≡ (
        if (not skip && ltb (length s.outgoing) 16) || among id s.outgoing
        then none
        else Map.lookup ℕ_discrete id s.conns)
lookup-run-offer skip id s = rw (run-drain_from (offer skip id s).outgoing (offer skip id s) refl) (
    unfold offer in
    ground (
      arith,
      lookup-drain_from id s.outgoing (record s { outgoing = [] }),
      lookup-drain_from id (s.outgoing ++ (id ∷ [])) (record s { outgoing = [] }),
      among-append id s.outgoing (id ∷ []),
    ))

drain_from-empty :
    (ids : List ℕ) (s : TcpServer)
    → drain_from ids (record s { conns = [] }) ≡ record s { conns = [] }
unfolding drain_from remove_conn Map.delete
drain_from-empty [] s = refl
drain_from-empty (j ∷ ids) s = drain_from-empty ids s

pub shutdown_again : (s : TcpServer) → s.shutting_down ≡ true → shutdown s ≡ (s, [])
unfolding shutdown
shutdown_again s h = ground arith

pub shutdown_first :
    (s : TcpServer)
    → s.shutting_down ≡ false
    → shutdown s ≡ (record s { conns = []; outgoing = []; shutting_down = true }, abort_all s.conns)
unfolding shutdown close_conns drain_outgoing
shutdown_first s h =
    ground (arith, drain_from-empty s.outgoing (record s { outgoing = []; shutting_down = true }))
