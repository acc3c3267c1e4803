-- ===== src/Naming/Tests.antt =====
-- Lookups with a few services.
use net_flux.Base.{
  ℕ, suc, Option, List, ◌≡◌, refl, inr, Bool, true, false, none, some, [], ◌∷◌, ◌++◌, length, ◌==◌,
  if◌then◌else◌, arith,
}
use native.Mathlib.Decide.{ℕ_discrete}
use net_flux.Base.Map
use net_flux.Network.Packet.{NetError, unknown_command, PacketHeader}
use net_flux.Network.Dispatch.{HandlerCall}
use net_flux.Naming.Types.{Instance, Service}
use net_flux.Naming.Samples.{sample}
use net_flux.Base.Map.Totals.{DistinctKeys}
use net_flux.Naming.RpcClient.Waiting.{begin, answer as ack_step, finish, run, IsExact, run-IsExact}
use net_flux.Naming.RpcClient.{timeout, RpcClient, found, handle_lookup_ack, get_service_instance}
use net_flux.Base.Text.{codes, is_int, atoi, parse_digits}
use net_flux.Naming.RpcClient.Acks.{filled, waits_on, named_in, handle_lookup_ack-chans}
use net_flux.Naming.RpcClient.Choice.{get_service_instance-first}

abbrev inst : ℕ → Bool → Instance
inst n good = sample n good

abbrev users : Service
users = record {
  name = 117 ∷ [];
  group_name = 49 ∷ [];
  cluster = [];
  valid = true;
  instances = inst 1 false ∷ inst 2 true ∷ [];
}

abbrev orders : Service
orders = record {
  name = 111 ∷ [];
  group_name = 50 ∷ [];
  cluster = [];
  valid = true;
  instances = [];
}

abbrev idle : RpcClient
idle = record { has_cli = true; group_name = 50 ∷ []; pending = []; chans = []; next_chan = 4 }

negative : (is_int (45 ∷ 49 ∷ 50 ∷ []) ≡ true) × (is_int (49 ∷ 97 ∷ []) ≡ false)
unfolding is_int atoi parse_digits
negative = (refl, refl)

abbrev waiting : RpcClient
waiting = record idle { pending = (117 ∷ 64 ∷ 49 ∷ [], 3) ∷ []; chans = (2, found []) ∷ [] }

handle_lookup_ack-chans_example :
    let services = none ∷ some orders ∷ some users ∷ [] in
    let r' = handle_lookup_ack (some services) waiting in
    (r'.pending ≡ waiting.pending)
    × (Map.lookup ℕ_discrete 3 r'.chans
        ≡ filled
            (found services)
            (if length services == 0
              then waits_on waiting.pending 3
              else named_in waiting.group_name waiting.pending 3 services)
            (Map.lookup ℕ_discrete 3 waiting.chans))
handle_lookup_ack-chans_example =
    handle_lookup_ack-chans (none ∷ some orders ∷ some users ∷ []) waiting 3

get_service_instance-first_example :
    get_service_instance (117 ∷ []) (inr ((none ∷ some orders ∷ []) ++ (some users ∷ [])))
    ≡ inr (inst 2 true)
get_service_instance-first_example =
    get_service_instance-first (117 ∷ []) (none ∷ some orders ∷ []) [] users (inst 1 false ∷ []) []
      (inst 2 true) ((λ e. ground (arith, e)), tt) refl refl (refl, tt) refl

-- A message is an answer with its services, or another one.
abbrev Message : Type 0
Message = Option (List (Option Service))

abbrev counting : HandlerCall Message → ℕ → ℕ × Option NetError
counting call n = (suc n, some unknown_command)

abbrev answer : Message
answer = some (none ∷ some users ∷ [])

abbrev ack_head : PacketHeader
ack_head = record { length = 2; cmd = 20; sub_cmd = 13; version = 1; flags = 0; reserved = 0 }

-- Two lookups begin, the first one times out, and its service is looked up again.
run-IsExact_example : IsExact (
    run
      (begin (codes "users") (codes "1")
        ∷ begin (codes "orders") []
        ∷ ack_step (some (none ∷ some users ∷ []))
        ∷ finish 0 timeout
        ∷ begin (codes "users") (codes "1")
        ∷ [])
      (record { client = idle; waiting = [] }))
unfolding DistinctKeys
run-IsExact_example = run-IsExact _ (record { client = idle; waiting = [] }) (refl, tt, tt)
