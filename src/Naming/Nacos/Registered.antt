-- ===== src/Naming/Nacos/Registered.antt =====
-- An instance that is registered, as those who look for it see it.
use net_flux.Base.{
  ◌≡◌, refl, sym, ap, ◌∙◌, inr, Bool, true, false, ◌||◌, not, none, List, [], ◌∷◌, ◌++◌, ◌==◌,
  arith,
}
use mathlib.Core.Bool.{true≢false}
use net_flux.Base.Int.{ℤ, pos, negsuc, int_of, int32_of, int32, uint64, FitsInt32, int32-FitsInt32}
use net_flux.Base.Map
use net_flux.Base.Text.{Str, str_discrete, codes, itoa, atoi}
use net_flux.Base.Text.Decimal.{FitsInt, atoi-itoa, itoa_some}
use net_flux.Naming.Types.{Instance}
use net_flux.Naming.RpcClient.{or_default}
use net_flux.Naming.Nacos.{
  Metadata, Host, NamingApi, Registration, register_host, register_instance, get_service_instances,
  instances_result, to_instances, value_of, number_of, metadata_of, copy_map, host_instance,
  from_instance,
}

pub fits-FitsInt32 : (v : ℤ) → FitsInt32 v → FitsInt v
fits-FitsInt32 (pos n) fits = omega arith
fits-FitsInt32 (negsuc n) fits = omega arith

number_of-itoa :
    (key : Str) (fallback v : ℤ) (m : Metadata)
    → FitsInt32 v
    → value_of key m ≡ itoa v
    → number_of key fallback m ≡ v
unfolding number_of
number_of-itoa key fallback v m fits e =
    let (c, s, e') = itoa_some v in
    let read = ap atoi (sym e') ∙ atoi-itoa v (fits-FitsInt32 v fits) in
    rw (number_of, e) (rw (number_of, e') (rw (number_of, read) refl))

-- A test for texts that are not the same, which computes.
abbrev differs : Str → Str → Bool
differs [] [] = false
differs [] (c ∷ s) = true
differs (c ∷ s) [] = true
differs (c ∷ s) (d ∷ t) = not (c == d) || differs s t

differs_irrefl : (s : Str) → differs s s ≡ false
differs_irrefl [] = refl
differs_irrefl (c ∷ s) = ground (arith, differs_irrefl s)

value_of-insert_self :
    (key value : Str) (m : Metadata) → value_of key (Map.insert str_discrete key value m) ≡ value
unfolding value_of
value_of-insert_self key value m = ground (arith, Map.lookup-insert_self str_discrete key value m)

value_of-insert_ne :
    (key q value : Str) (m : Metadata)
    → differs key q ≡ true
    → value_of q (Map.insert str_discrete key value m) ≡ value_of q m
unfolding value_of
value_of-insert_ne key q value m d = elim (str_discrete key q) [
  | yes same ↦ absurd (true≢false (sym d ∙ rw same (differs_irrefl q)))
  | no other ↦ ground (arith, Map.lookup-insert str_discrete key q value m)
]

-- What each key of the metadata holds.
node_value : (inst : Instance) → value_of (codes "node") (metadata_of inst) ≡ itoa inst.node
unfolding metadata_of
node_value inst = value_of-insert_self _ _ _

public_port_value :
    (inst : Instance) → value_of (codes "public_port") (metadata_of inst) ≡ itoa inst.public_port
unfolding metadata_of
public_port_value inst = value_of-insert_ne _ _ _ _ refl ∙ value_of-insert_self _ _ _

public_ip_value :
    (inst : Instance) → value_of (codes "public_ip") (metadata_of inst) ≡ inst.public_ip
unfolding metadata_of
public_ip_value inst =
    value_of-insert_ne _ _ _ _ refl ∙ value_of-insert_ne _ _ _ _ refl ∙ value_of-insert_self _ _ _

inner_port_value :
    (inst : Instance) → value_of (codes "inner_port") (metadata_of inst) ≡ itoa inst.inner_port
unfolding metadata_of
inner_port_value inst =
    value_of-insert_ne _ _ _ _ refl
    ∙ value_of-insert_ne _ _ _ _ refl
    ∙ value_of-insert_ne _ _ _ _ refl
    ∙ value_of-insert_self _ _ _

inner_ip_value : (inst : Instance) → value_of (codes "inner_ip") (metadata_of inst) ≡ inst.inner_ip
unfolding metadata_of
inner_ip_value inst =
    value_of-insert_ne _ _ _ _ refl
    ∙ value_of-insert_ne _ _ _ _ refl
    ∙ value_of-insert_ne _ _ _ _ refl
    ∙ value_of-insert_ne _ _ _ _ refl
    ∙ value_of-insert_self _ _ _

int32_of-uint64 : (v : ℤ) → FitsInt32 v → int32_of (uint64 v) ≡ v
int32_of-uint64 v fits = unfold int32 in int32-FitsInt32 v fits

-- The ports and the node of an instance are those that an `int32` holds.
abbrev pub NumbersFit : Instance → Type 0
NumbersFit inst =
    FitsInt32 inst.private_port
    × FitsInt32 inst.inner_port
    × FitsInt32 inst.public_port
    × FitsInt32 inst.node

read_number :
    (key : Str) (fallback v : ℤ) (m : Metadata)
    → FitsInt32 v
    → value_of key m ≡ itoa v
    → int32 (number_of key fallback m) ≡ v
read_number key fallback v m fits e =
    ap int32 (number_of-itoa key fallback v m fits e) ∙ int32-FitsInt32 v fits

-- A host with the address and the metadata of an instance is read as the instance, but for what the
-- host's record says itself and the addresses that are missing.
pub host_instance-from_instance :
    (inst : Instance) (host : Host)
    → NumbersFit inst
    → host.ip ≡ inst.private_ip
    → host.port ≡ uint64 inst.private_port
    → host.metadata ≡ metadata_of inst
    → host_instance host ≡ record inst {
      instance_id = host.instance_id;
      instance_name = host.service_name;
      inner_ip = or_default inst.inner_ip inst.private_ip;
      public_ip = or_default inst.public_ip inst.private_ip;
      weight = host.weight;
      healthy = host.healthy;
      enable = host.enable;
      ephemeral = host.ephemeral;
      extra = copy_map (metadata_of inst);
    }
unfolding host_instance
host_instance-from_instance inst host (private, inner, public, node) same_ip same_port same_data =
    let pub_ip = ap (value_of (codes "public_ip")) same_data ∙ public_ip_value inst in
    let inn_ip = ap (value_of (codes "inner_ip")) same_data ∙ inner_ip_value inst in
    let priv = ap int32_of same_port ∙ int32_of-uint64 inst.private_port private in
    let pub_port =
      read_number (codes "public_port") (int_of host.port) inst.public_port host.metadata public
        (ap (value_of (codes "public_port")) same_data ∙ public_port_value inst) in
    let inn_port =
      read_number (codes "inner_port") (int_of host.port) inst.inner_port host.metadata inner
        (ap (value_of (codes "inner_port")) same_data ∙ inner_port_value inst) in
    let nod =
      read_number (codes "node") (pos 0) inst.node host.metadata node
        (ap (value_of (codes "node")) same_data ∙ node_value inst) in
    cc

to_instances-append :
    (xs ys : List Host) → to_instances (xs ++ ys) ≡ to_instances xs ++ to_instances ys
unfolding to_instances
to_instances-append [] ys = refl
to_instances-append (x ∷ xs) ys = ap (◌∷◌ (host_instance x)) (to_instances-append xs ys)

-- The host has the contents of the registration.
abbrev pub IsHostOf : Registration → Host → Type 0
IsHostOf p host =
    (host.ip ≡ p.ip)
    × (host.port ≡ p.port)
    × (host.metadata ≡ p.metadata)
    × (host.weight ≡ p.weight)
    × (host.healthy ≡ p.healthy)
    × (host.enable ≡ p.enable)
    × (host.ephemeral ≡ p.ephemeral)

-- What was registered without an error is among the hosts that are selected next by its name and
-- group.
abbrev pub KeepsRegistrations : NamingApi → Type 0
KeepsRegistrations api =
    (p : Registration) (s : api.State)
    → (api.register p s).1 ≡ none
    → (before : List Host) × (host : Host) × (after : List Host) × ((api.select_all p.service_name
          p.group_name [] (api.register p s).0).1
        ≡ inr (before ++ (host ∷ after)))
      × IsHostOf p host

-- An instance as it is seen after its registration.
abbrev pub seen_as : Instance → Host → Instance
seen_as inst host = record inst {
  instance_id = host.instance_id;
  instance_name = host.service_name;
  inner_ip = or_default inst.inner_ip inst.private_ip;
  public_ip = or_default inst.public_ip inst.private_ip;
  weight = pos 1;
  healthy = true;
  enable = true;
  ephemeral = true;
  extra = copy_map (metadata_of inst);
}

-- What `RegisterInstance` registers for an instance.
abbrev pub registration_of : Instance → Registration
registration_of inst = record {
  service_name = inst.instance_name;
  group_name = itoa inst.node;
  ip = inst.private_ip;
  port = uint64 inst.private_port;
  enable = true;
  healthy = true;
  weight = pos 1;
  ephemeral = true;
  metadata = metadata_of inst;
}

-- A list of hosts with one for the instance, as instances.
pub to_instances-registered :
    (inst : Instance) (before after : List Host) (host : Host)
    → NumbersFit inst
    → IsHostOf (registration_of inst) host
    → to_instances (before ++ (host ∷ after))
      ≡ to_instances before ++ (seen_as inst host ∷ to_instances after)
unfolding to_instances
to_instances-registered inst before after host fits (ip, port, stored, one, well, on, brief) =
    to_instances-append before (host ∷ after)
    ∙ ap (λ i. to_instances before ++ (i ∷ to_instances after))
        (host_instance-from_instance inst host fits ip port stored ∙ cc)

-- Where the naming service keeps what it registers: an instance whose ports and node an `int32`
-- holds, registered without an error, is among those that are got next for its name and its node
-- as the group. It has the addresses, ports and node it had, except that its private address
-- stands for one it lacks, and a weight of one, healthy, enabled and ephemeral whatever it was;
-- its identifier and name are those of the service, and its extra entries have the metadata as
-- well.
pub register_instance-get_service_instances :
    (api : NamingApi) (inst : Instance) (s : api.State)
    → KeepsRegistrations api
    → NumbersFit inst
    → (register_instance api inst s).1 ≡ none
    → (before : List Instance) × (host : Host) × (after : List Instance) × ((get_service_instances
          api inst.instance_name
          (itoa inst.node)
          []
          (register_instance api inst s).0).1
        ≡ inr (before ++ (seen_as inst host ∷ after)))
unfolding register_instance register_host get_service_instances from_instance
register_instance-get_service_instances api inst s keeps fits done =
    let (before, host, after, e, is_host) = keeps _ s done in
    (
      to_instances before,
      host,
      to_instances after,
      ap instances_result e
          ∙ unfold instances_result in
            ap inr (to_instances-registered inst before after host fits is_host),
    )
