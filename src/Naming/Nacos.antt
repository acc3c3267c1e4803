-- ===== src/Naming/Nacos.antt =====
-- pkg/naming/nacos_client.go and nacos_naming_cli.go: services over Nacos. The SDK's naming client is
-- a parameter, with errors as numbers; a weight is one as an `int`, which the program reads it as.
pub mod Registered
pub mod Clients
pub mod Config
pub mod Memory
mod Tests
use net_flux.Base.{
  ℕ, ◌≡◌, ◌⊎◌, inl, inr, Bool, true, false, Option, none, some, List, [], ◌∷◌, if◌then◌else◌,
}
use net_flux.Base.Int.{ℤ, pos, int_of, int32_of, int32, uint64}
use net_flux.Base.Map
use net_flux.Base.Text.{Str, str_discrete, codes, itoa, atoi}
use net_flux.Naming.Types.{Instance, Service}
use net_flux.Naming.RpcClient.{or_default}

abbrev pub Metadata : Type 0
Metadata = List (Str × Str)

-- `model.Instance` of the SDK, as far as the program uses it.
pub record Host : Type 0 where
  pub instance_id : Str
  pub service_name : Str
  pub ip : Str
  pub port : ℕ
  pub weight : ℤ
  pub healthy : Bool
  pub enable : Bool
  pub ephemeral : Bool
  pub metadata : Metadata

-- `model.Service`
pub record HostedService : Type 0 where
  pub name : Str
  pub group_name : Str
  pub clusters : Str
  pub valid : Bool
  pub hosts : List Host

-- `vo.RegisterInstanceParam`
pub record Registration : Type 0 where
  pub service_name : Str
  pub group_name : Str
  pub ip : Str
  pub port : ℕ
  pub enable : Bool
  pub healthy : Bool
  pub weight : ℤ
  pub ephemeral : Bool
  pub metadata : Metadata

-- `INamingClient`. The lists are the clusters asked for.
pub record NamingApi : Type 1 where
  pub State : Type 0
  pub register : Registration → State → State × Option ℕ
  pub deregister : Str → Str → Str → ℕ → State → State × Option ℕ
  pub all_services : Str → State → State × (ℕ ⊎ List Str)
  pub service : Str → Str → List Str → State → State × (ℕ ⊎ HostedService)
  pub select_one : Str → Str → List Str → State → State × (ℕ ⊎ Option Host)
  pub select_all : Str → Str → List Str → State → State × (ℕ ⊎ List Host)

unfoldable pub default_group : Str
default_group = codes "DEFAULT_GROUP"

-- The copy of a map.
unfoldable pub copy_map : Metadata → Metadata
copy_map [] = []
copy_map ((key, value) ∷ m) = Map.insert str_discrete key value (copy_map m)

-- The value of a key, "" where it is missing.
unfoldable pub value_of : Str → Metadata → Str
value_of key m = elim (Map.lookup str_discrete key m) [ none ↦ [] | some value ↦ value ]

-- A number in the metadata, with what stands for it if there is none.
unfoldable pub number_of : Str → ℤ → Metadata → ℤ
number_of key fallback m = elim (value_of key m) [
  | [] ↦ fallback
  | c ∷ s ↦ elim (atoi (c ∷ s)) [ none ↦ fallback | some n ↦ n ]
]

-- `toInstance` of an instance that is not nil.
unfoldable pub host_instance : Host → Instance
host_instance host = record {
  instance_id = host.instance_id;
  instance_name = host.service_name;
  private_ip = host.ip;
  private_port = int32_of host.port;
  inner_ip = or_default (value_of (codes "inner_ip") host.metadata) host.ip;
  inner_port = int32 (number_of (codes "inner_port") (int_of host.port) host.metadata);
  public_ip = or_default (value_of (codes "public_ip") host.metadata) host.ip;
  public_port = int32 (number_of (codes "public_port") (int_of host.port) host.metadata);
  weight = host.weight;
  healthy = host.healthy;
  enable = host.enable;
  ephemeral = host.ephemeral;
  node = int32 (number_of (codes "node") (pos 0) host.metadata);
  extra = copy_map host.metadata;
}

-- `none` is a nil instance, for which Go returns an error.
unfoldable pub to_instance : Option Host → Option Instance
to_instance none = none
to_instance (some host) = some (host_instance host)

unfoldable pub metadata_of : Instance → Metadata
metadata_of inst = Map.insert str_discrete (codes "node") (itoa inst.node) (
    Map.insert str_discrete (codes "public_port") (itoa inst.public_port) (
      Map.insert str_discrete (codes "public_ip") inst.public_ip (
        Map.insert str_discrete (codes "inner_port") (itoa inst.inner_port)
          (Map.insert str_discrete (codes "inner_ip") inst.inner_ip (copy_map inst.extra)))))

unfoldable pub from_instance : Instance → Host
from_instance inst = record {
  instance_id = inst.instance_id;
  service_name = inst.instance_name;
  ip = inst.private_ip;
  port = uint64 inst.private_port;
  weight = pos 0;
  healthy = false;
  enable = false;
  ephemeral = false;
  metadata = metadata_of inst;
}

-- The loop of `GetService`, `GetServiceInstances` and `GetServiceInstancesByName`, where the pointer
-- to a host is not nil.
unfoldable pub to_instances : List Host → List Instance
to_instances [] = []
to_instances (host ∷ hosts) = host_instance host ∷ to_instances hosts

-- `none` is the error for a nil instance.
unfoldable pub instance_result : ℕ ⊎ Option Host → Option ℕ ⊎ Instance
instance_result (inl e) = inl (some e)
instance_result (inr host) = elim (to_instance host) [ none ↦ inl none | some inst ↦ inr inst ]

unfoldable pub instances_result : ℕ ⊎ List Host → ℕ ⊎ List Instance
instances_result (inl e) = inl e
instances_result (inr hosts) = inr (to_instances hosts)

unfoldable pub service_result : ℕ ⊎ HostedService → ℕ ⊎ Service
service_result (inl e) = inl e
service_result (inr found) = inr (record {
  name = found.name;
  group_name = found.group_name;
  cluster = found.clusters;
  valid = found.valid;
  instances = to_instances found.hosts;
})

module _ (api : NamingApi) where
  unfoldable pub register_host : Str → Str → Str → ℕ → Metadata → api.State → api.State × Option ℕ
  register_host service_name group_name ip port metadata = api.register (record {
    service_name = service_name;
    group_name = group_name;
    ip = ip;
    port = port;
    enable = true;
    healthy = true;
    weight = pos 1;
    ephemeral = true;
    metadata = metadata;
  })

  unfoldable pub register_instance : Instance → api.State → api.State × Option ℕ
  register_instance inst s =
      let host = from_instance inst in
      register_host host.service_name (itoa inst.node) host.ip host.port host.metadata s

  unfoldable pub deregister_instance : Str → Str → Str → ℕ → api.State → api.State × Option ℕ
  deregister_instance service_name group_name ip port s =
      api.deregister service_name group_name ip port s

  unfoldable pub get_all_services : Str → api.State → api.State × (ℕ ⊎ List Str)
  get_all_services group_name s = api.all_services group_name s

  unfoldable pub get_service : Str → Str → List Str → api.State → api.State × (ℕ ⊎ Service)
  get_service service_name group_name clusters s =
      let (t, found) = api.service service_name group_name clusters s in (t, service_result found)

  unfoldable pub get_service_instance :
      Str → Str → List Str → api.State → api.State × (Option ℕ ⊎ Instance)
  get_service_instance service_name group_name clusters s =
      let (t, host) = api.select_one service_name group_name clusters s in (t, instance_result host)

  unfoldable pub get_service_instance_by_group :
      Str → Str → api.State → api.State × (Option ℕ ⊎ Instance)
  get_service_instance_by_group service_name group_name s =
      let (t, host) = api.select_one service_name group_name [] s in (t, instance_result host)

  -- The group is left to the SDK.
  unfoldable pub get_service_instance_by_name : Str → api.State → api.State × (Option ℕ ⊎ Instance)
  get_service_instance_by_name service_name s =
      let (t, host) = api.select_one service_name [] [] s in (t, instance_result host)

  unfoldable pub get_service_instances :
      Str → Str → List Str → api.State → api.State × (ℕ ⊎ List Instance)
  get_service_instances service_name group_name clusters s =
      let (t, hosts) = api.select_all service_name group_name clusters s in
      (t, instances_result hosts)

  unfoldable pub get_service_instances_by_name : Str → api.State → api.State × (ℕ ⊎ List Instance)
  get_service_instances_by_name service_name s =
      let (t, hosts) = api.select_all service_name default_group [] s in (t, instances_result hosts)
