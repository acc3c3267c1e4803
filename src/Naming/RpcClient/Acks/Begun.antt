-- ===== src/Naming/RpcClient/Acks/Begun.antt =====
-- A LOOKUP_ACK that comes after a lookup has begun.
use net_flux.Base.{
  ℕ, ◌≡◌, ◌≢◌, refl, inr, true, false, Option, none, some, List, [], ◌∷◌, ◌++◌, length, ◌==◌, arith,
}
use native.Mathlib.Decide.{ℕ_discrete}
use net_flux.Base.Map
use net_flux.Base.Map.{lookup-insert, lookup-insert_self, lookup-delete_self}
use net_flux.Base.Text.{Str}
use net_flux.Naming.Types.{Service}
use net_flux.Naming.RpcClient.{
  lookup_key, found, RpcClient, begin_lookup, or_default, handle_lookup_ack,
}
use net_flux.Base.Text.{str_discrete}
use net_flux.Naming.RpcClient.Acks.{owns, owns_any, named_in, filled, handle_lookup_ack-chans}

or_default-given : (grp fallback : Str) → grp ≢ [] → or_default grp fallback ≡ grp
unfolding or_default
or_default-given [] fallback given = absurd (given refl)
or_default-given (c ∷ grp) fallback given = refl

-- What a lookup that has begun leaves.
begin_lookup-fresh :
    (service_name group_name : Str) (r : RpcClient) (key : Str) (ch : ℕ)
    → (begin_lookup service_name group_name r).1 ≡ inr (key, ch)
    → group_name ≢ []
    → let r' = (begin_lookup service_name group_name r).0 in
      (Map.lookup str_discrete (lookup_key service_name group_name) r'.pending ≡ some ch)
      × (Map.lookup ℕ_discrete ch r'.chans ≡ none)
unfolding begin_lookup
begin_lookup-fresh service_name group_name r key ch begun given = ground (
  arith,
  or_default-given group_name r.group_name given,
  lookup-insert_self str_discrete (lookup_key service_name group_name) r.next_chan r.pending,
  lookup-delete_self ℕ_discrete r.next_chan r.chans,
)

named_in-append :
    (group_name : Str) (pending : List (Str × ℕ)) (ch : ℕ) (svc : Service)
    (before after : List (Option Service))
    → Map.lookup str_discrete (lookup_key svc.name svc.group_name) pending ≡ some ch
    → named_in group_name pending ch (before ++ (some svc ∷ after)) ≡ true
unfolding named_in owns_any owns lookup_key
named_in-append group_name pending ch svc [] after h = ground arith
named_in-append group_name pending ch svc (none ∷ before) after h =
    named_in-append group_name pending ch svc before after h
named_in-append group_name pending ch svc (some other ∷ before) after h =
    ground (arith, named_in-append group_name pending ch svc before after h)

not_empty :
    (svc : Service) (before after : List (Option Service))
    → (length (before ++ (some svc ∷ after)) == 0) ≡ false
not_empty svc [] after = ground arith
not_empty svc (x ∷ before) after = ground arith

-- A lookup that has begun with a group given, and then a LOOKUP_ACK with a service of that name in
-- that group, whatever others the message has: all services of the message wait in the lookup's
-- channel.
pub begin_lookup-ack :
    (svc : Service) (before after : List (Option Service)) (r : RpcClient) (key : Str) (ch : ℕ)
    → (begin_lookup svc.name svc.group_name r).1 ≡ inr (key, ch)
    → svc.group_name ≢ []
    → let services = before ++ (some svc ∷ after) in
      let r' = handle_lookup_ack (some services) (begin_lookup svc.name svc.group_name r).0 in
      Map.lookup ℕ_discrete ch r'.chans ≡ some (found services)
unfolding filled
begin_lookup-ack svc before after r key ch begun given =
    let services = before ++ (some svc ∷ after) in
    let r1 = (begin_lookup svc.name svc.group_name r).0 in
    let (owned, empty) = begin_lookup-fresh svc.name svc.group_name r key ch begun given in
    ground (
      arith,
      (handle_lookup_ack-chans services r1 ch).1,
      not_empty svc before after,
      named_in-append r1.group_name r1.pending ch svc before after owned,
    )
