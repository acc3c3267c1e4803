-- ===== src/Naming/Nacos/Tests.antt =====
-- A naming service that keeps registrations in memory, with an instance registered in it.
use net_flux.Base.{◌-◌, ◌^◌, ◌≡◌, refl, ap, inr, true, false, none, List, [], ◌∷◌, ◌++◌, arith}
use net_flux.Base.Int.{pos, negsuc, uint64, int32, int32_of}
use net_flux.Base.Text.{codes, itoa}
use net_flux.Naming.Types.{Instance}
use net_flux.Naming.Samples.{sample}
use net_flux.Naming.Nacos.{
  Host, Registration, NamingApi, register_instance, register_host, get_service_instances,
}
use net_flux.Naming.Nacos.Memory.{host_of, hosts_of, hosts_of-registered}
use net_flux.Naming.Nacos.Registered.{
  KeepsRegistrations, seen_as, register_instance-get_service_instances,
}

abbrev memory : NamingApi
memory = record {
  State = List Registration;
  register = λ p ps. (p ∷ ps, none);
  deregister = λ _ _ _ _ ps. (ps, none);
  all_services = λ _ ps. (ps, inr []);
  service = λ name group_name _ ps. (
    ps,
    inr (record {
      name = name;
      group_name = group_name;
      clusters = [];
      valid = true;
      hosts = hosts_of name group_name ps;
    }),
  );
  select_one = λ name group_name _ ps. (ps, inr none);
  select_all = λ name group_name _ ps. (ps, inr (hosts_of name group_name ps));
}

memory-KeepsRegistrations : KeepsRegistrations memory
memory-KeepsRegistrations p ps done = (
  [],
  host_of p,
  hosts_of p.service_name p.group_name ps,
  ap inr (hosts_of-registered p ps),
  (refl, refl, refl, refl, refl, refl, refl),
)

abbrev shop : Instance
shop = record (sample 3 false) {
  instance_name = codes "shop";
  private_ip = codes "10.0.0.7";
  private_port = pos 8080;
  inner_port = negsuc 0;
  public_ip = codes "1.2.3.4";
  public_port = pos 443;
  node = pos 12;
}

register_instance-get_service_instances_example :
    (before : List Instance) × (host : Host) × (after : List Instance) × ((get_service_instances
        memory
        (codes "shop")
        (itoa (pos 12))
        []
        (register_instance memory shop []).0).1
      ≡ inr (before ++ (seen_as shop host ∷ after)))
register_instance-get_service_instances_example =
    register_instance-get_service_instances memory shop [] memory-KeepsRegistrations
      (omega arith, omega arith, omega arith, omega arith)
      (unfold register_instance in unfold register_host in refl)

bits :
    (uint64 (negsuc 0) ≡ 2 ^ 64 - 1)
    × (int32_of (uint64 (negsuc 0)) ≡ negsuc 0)
    × (int32 (pos (2 ^ 31)) ≡ negsuc (2 ^ 31 - 1))
unfolding uint64 int32 int32_of
bits = (refl, refl, refl)
