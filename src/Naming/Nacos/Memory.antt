-- ===== src/Naming/Nacos/Memory.antt =====
-- A naming service in memory for the tests: what is registered stays, the newest first.
use net_flux.Base.{◌≡◌, List, [], ◌∷◌, ◌++◌, arith}
use mathlib.Core.Logic.{ite}
use net_flux.Base.Text.{Str, str_discrete}
use net_flux.Naming.Nacos.{Host, Registration}

abbrev pub host_of : Registration → Host
host_of p = record {
  instance_id = [];
  service_name = p.service_name;
  ip = p.ip;
  port = p.port;
  weight = p.weight;
  healthy = p.healthy;
  enable = p.enable;
  ephemeral = p.ephemeral;
  metadata = p.metadata;
}

unfoldable pub hosts_of : Str → Str → List Registration → List Host
hosts_of service_name group_name [] = []
hosts_of service_name group_name (p ∷ ps) =
    let rest = hosts_of service_name group_name ps in
    ite (str_discrete p.service_name service_name)
      (ite (str_discrete p.group_name group_name) (host_of p ∷ rest) rest) rest

pub hosts_of-registered :
    (p : Registration) (ps : List Registration)
    → hosts_of p.service_name p.group_name (p ∷ ps)
      ≡ host_of p ∷ hosts_of p.service_name p.group_name ps
unfolding hosts_of
hosts_of-registered p ps = ground arith

pub hosts_of-member :
    (p : Registration) (xs ys : List Registration)
    → hosts_of p.service_name p.group_name (xs ++ (p ∷ ys))
      ≡ hosts_of p.service_name p.group_name xs
        ++ (host_of p ∷ hosts_of p.service_name p.group_name ys)
unfolding hosts_of
hosts_of-member p [] ys = hosts_of-registered p ys
hosts_of-member p (x ∷ xs) ys = ground (arith, hosts_of-member p xs ys)
