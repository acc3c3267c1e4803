-- ===== src/Naming/RpcClient.antt =====
-- pkg/naming/rpc_client.go: lookups of services over the TCP connection. A lookup waits on a channel
-- of capacity one, which is a number here; `chans` holds what waits in each channel. The steps of a
-- lookup that other goroutines can come between are functions of their own: `begin_lookup` up to
-- the request, and `end_lookup` from the moment the waiting ends.
pub mod Acks
pub mod Choice
pub mod Config
pub mod Events
pub mod Setup
pub mod Waiting
use net_flux.Base.{
  ℕ, zero, suc, ◌+◌, ◌-◌, ◌*◌, ◌^◌, ◌≡◌, ◌⊎◌, inl, inr, Bool, true, false, ◌&&◌, ◌||◌, not, Option,
  none, some, List, [], ◌∷◌, ◌++◌, length, ltb, leb, ◌==◌, if◌then◌else◌,
}
use mathlib.Core.List.{List-discrete}
use mathlib.Core.Logic.{ite}
use native.Mathlib.Decide.{ℕ_discrete}
use net_flux.Base.Int.{ℤ, pos, negsuc}
use net_flux.Base.Map
use net_flux.Base.Text.{Str, str_discrete, is_int}
use net_flux.Naming.Types.{Instance, Service}

unfoldable pub lookup_key : Str → Str → Str
lookup_key service_name group_name = service_name ++ (64 ∷ group_name)

-- `lookupResult`. `none` is a nil service.
pub data LookupResult : Type 0 where
  found : List (Option Service) → LookupResult
  client_closed : LookupResult

pub data LookupError : Type 0 where
  no_client invalid_group in_progress timed_out closed_error not_found no_service no_instance :
      LookupError
  write_error : ℕ → LookupError

pub record RpcClient : Type 0 where
  pub has_cli : Bool
  pub group_name : Str
  pub pending : List (Str × ℕ)
  pub chans : List (ℕ × LookupResult)
  pub next_chan : ℕ

unfoldable pub or_default : Str → Str → Str
or_default [] fallback = fallback
or_default (c ∷ grp) fallback = c ∷ grp

-- `lookup` until the request is sent: the key and the channel, which is new and empty.
unfoldable pub begin_lookup : Str → Str → RpcClient → RpcClient × (LookupError ⊎ Str × ℕ)
begin_lookup service_name group_name r =
    let grp = or_default group_name r.group_name in
    let key = lookup_key service_name grp in
    let fresh = record r {
      pending = Map.insert str_discrete key r.next_chan r.pending;
      chans = Map.delete ℕ_discrete r.next_chan r.chans;
      next_chan = r.next_chan + 1;
    } in
    if not r.has_cli
    then (r, inl no_client)
    else if not (is_int grp)
    then (r, inl invalid_group)
    else elim (Map.lookup str_discrete key r.pending) [
      | some _ ↦ (r, inl in_progress)
      | none ↦ (fresh, inr (key, r.next_chan))
    ]

-- How the waiting ends: the request is not written, the timeout, or a result in the channel.
pub data Wake : Type 0 where
  write_failed : ℕ → Wake
  timeout : Wake
  received : LookupResult → Wake

unfoldable pub wake_result : Wake → LookupError ⊎ List (Option Service)
wake_result (write_failed e) = inl (write_error e)
wake_result timeout = inl timed_out
wake_result (received (found services)) = inr services
wake_result (received client_closed) = inl closed_error

-- The rest of `lookup`, its deferred deletion included.
unfoldable pub end_lookup :
    Str → Wake → RpcClient → RpcClient × (LookupError ⊎ List (Option Service))
end_lookup key wake r =
    (record r { pending = Map.delete str_discrete key r.pending }, wake_result wake)

-- A send that does not wait: nothing happens if the channel holds a result.
unfoldable pub send : ℕ → LookupResult → List (ℕ × LookupResult) → List (ℕ × LookupResult)
send ch res chans = elim (Map.lookup ℕ_discrete ch chans) [
  | some _ ↦ chans
  | none ↦ Map.insert ℕ_discrete ch res chans
]

-- The body of the inner loop, with the keys delivered so far.
unfoldable pub deliver :
    List (Str × ℕ)
    → LookupResult
    → Str
    → List (ℕ × LookupResult) × List (Str × Unit {0})
    → List (ℕ × LookupResult) × List (Str × Unit {0})
deliver pending res key (chans, delivered) = elim (Map.lookup str_discrete key delivered) [
  | some _ ↦ (chans, delivered)
  | none ↦ elim (Map.lookup str_discrete key pending) [
    | none ↦ (chans, delivered)
    | some ch ↦ (send ch res chans, Map.insert str_discrete key tt delivered)
  ]
]

unfoldable pub deliver_keys :
    List (Str × ℕ)
    → LookupResult
    → List Str
    → List (ℕ × LookupResult) × List (Str × Unit {0})
    → List (ℕ × LookupResult) × List (Str × Unit {0})
deliver_keys pending res [] p = p
deliver_keys pending res (key ∷ keys) p = deliver_keys pending res keys (deliver pending res key p)

unfoldable pub keys_of : Str → Service → List Str
keys_of group_name svc =
    lookup_key svc.name svc.group_name
    ∷ lookup_key svc.name group_name
    ∷ lookup_key svc.name []
    ∷ []

unfoldable pub deliver_services :
    Str
    → List (Str × ℕ)
    → LookupResult
    → List (Option Service)
    → List (ℕ × LookupResult) × List (Str × Unit {0})
    → List (ℕ × LookupResult) × List (Str × Unit {0})
deliver_services group_name pending res [] p = p
deliver_services group_name pending res (none ∷ services) p =
    deliver_services group_name pending res services p
deliver_services group_name pending res (some svc ∷ services) p =
    deliver_services group_name pending res services
      (deliver_keys pending res (keys_of group_name svc) p)

-- The sends to everyone who waits.
unfoldable pub send_all :
    LookupResult → List (Str × ℕ) → List (ℕ × LookupResult) → List (ℕ × LookupResult)
send_all res [] chans = chans
send_all res ((key, ch) ∷ pending) chans = send_all res pending (send ch res chans)

-- `HandleLookupAck`; `none` is a nil message.
unfoldable pub handle_lookup_ack : Option (List (Option Service)) → RpcClient → RpcClient
handle_lookup_ack none r = r
handle_lookup_ack (some services) r =
    let (chans, _) =
      deliver_services r.group_name r.pending (found services) services (r.chans, []) in
    record r { chans = if length services == 0 then send_all (found []) r.pending chans else chans }

-- `Close` of the client, without its storage and the Redis client.
unfoldable pub close : RpcClient → RpcClient
close r = record r { chans = send_all client_closed r.pending r.chans; pending = [] }

-- The choice that `GetService` makes among the services of a lookup.
unfoldable pub find_named : Str → List (Option Service) → Option Service
find_named name [] = none
find_named name (none ∷ services) = find_named name services
find_named name (some svc ∷ services) =
    ite (str_discrete svc.name name) (some svc) (find_named name services)

unfoldable pub get_service :
    Str → LookupError ⊎ List (Option Service) → LookupError ⊎ Option Service
get_service name (inl e) = inl e
get_service name (inr []) = inl not_found
get_service name (inr (svc ∷ services)) = elim (find_named name (svc ∷ services)) [
  | some named ↦ inr (some named)
  | none ↦ inr svc
]

unfoldable pub first_usable : List Instance → Option Instance
first_usable [] = none
first_usable (inst ∷ rest) = if inst.healthy && inst.enable then some inst else first_usable rest

unfoldable pub pick_instance : Option Service → LookupError ⊎ Instance
pick_instance none = inl no_service
pick_instance (some svc) = elim svc.instances [
  | [] ↦ inl no_instance
  | inst ∷ rest ↦ elim (first_usable (inst ∷ rest)) [ some usable ↦ inr usable | none ↦ inr inst ]
]

unfoldable pub get_service_instance :
    Str → LookupError ⊎ List (Option Service) → LookupError ⊎ Instance
get_service_instance name services = elim (get_service name services) [
  | inl e ↦ inl e
  | inr svc ↦ pick_instance svc
]

unfoldable pub get_service_instances :
    Str → LookupError ⊎ List (Option Service) → LookupError ⊎ List Instance
get_service_instances name services = elim (get_service name services) [
  | inl e ↦ inl e
  | inr none ↦ inl not_found
  | inr (some svc) ↦ inr svc.instances
]
