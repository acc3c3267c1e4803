-- ===== src/Disco/Tests.antt =====
-- The discovery server over a naming service in memory, and a factory with two goroutines.
use net_flux.Base.{
  ℕ, ◌+◌, ◌≡◌, refl, ap, inl, inr, true, false, Option, none, some, List, [], ◌∷◌, ◌++◌, get_or,
  arith,
}
use native.Mathlib.Decide.{ℕ_discrete}
use net_flux.Base.Map
use net_flux.Base.Int.{pos}
use net_flux.Base.Text.{codes, itoa, atoi, is_int, digits, parse_digits}
use net_flux.Network.Packet.{NetError}
use net_flux.Network.Dispatch.{HandlerCall, on_cmd_system, on_cmd_discovery}
use net_flux.Naming.Types.{Instance}
use net_flux.Naming.Samples.{sample}
use net_flux.Naming.Nacos.{
  Host, Registration, register_instance, register_host, get_service_instances, instances_result,
}
use net_flux.Naming.Nacos.Memory.{host_of, hosts_of, hosts_of-member}
use net_flux.Naming.Nacos.Clients.{Sdk, NacosClient, new_nacos_client}
use net_flux.Naming.RpcClient
use net_flux.Naming.RpcClient.{RpcClient, found, begin_lookup, handle_lookup_ack}
use net_flux.Disco.Factory.{find_client, item_of, keep_client, get_disco_client}
use net_flux.Disco.Factory.Ledger.{new_factory, miss, keep, remove, remove_each, run}
use net_flux.Disco.Factory.Ledger.Balance.{Balances, run-Balances}
use net_flux.Disco.Server.{
  State, Packet, ping, instance_packet, lookup_packet, handle, handle_discovery, handle_system,
  handle_register, handle_lookup, serve,
}
use net_flux.Disco.Kept.{KeepsHosts, Leaves, LeavesAll}
use net_flux.Disco.Found.{request_for, Finds, registered-found}

-- The registrations, and the number of the next client.
abbrev memory : Sdk
memory = record {
  State = List Registration × ℕ;
  create_config_client = λ (ps, n). ((ps, n + 1), inr n);
  create_naming_client = λ (ps, n). ((ps, n + 1), inr n);
  close_config_client = λ _ s. s;
  close_naming_client = λ _ s. s;
  register = λ _ p (ps, n). ((p ∷ ps, n), none);
  deregister = λ _ _ _ _ _ s. (s, none);
  all_services = λ _ _ s. (s, inr []);
  service = λ _ name group_name _ (ps, n). (
    (ps, n),
    inr (record {
      name = name;
      group_name = group_name;
      clusters = [];
      valid = true;
      hosts = hosts_of name group_name ps;
    }),
  );
  select_one = λ _ _ _ _ s. (s, inr none);
  select_all = λ _ name group_name _ (ps, n). ((ps, n), inr (hosts_of name group_name ps));
}

abbrev IsRegistered : Registration → List Registration × ℕ → Type 0
IsRegistered p (ps, n) =
    (newer : List Registration) × (older : List Registration) × (ps ≡ newer ++ (p ∷ older))

memory-selected :
    (p : Registration) (ps newer older : List Registration) (hosts : List Host)
    → ps ≡ newer ++ (p ∷ older)
    → (memory.select_all 0 p.service_name p.group_name [] (ps, 0)).1 ≡ inr hosts
    → hosts
      ≡ hosts_of p.service_name p.group_name newer
        ++ (host_of p ∷ hosts_of p.service_name p.group_name older)
memory-selected p ps newer older hosts e chosen =
    let member = hosts_of-member p newer older in
    let same = ap (hosts_of p.service_name p.group_name) e in ground (arith, member, same, chosen)

memory-KeepsHosts : KeepsHosts memory
memory-KeepsHosts = record {
  Holds = IsRegistered;
  registered = λ cli p (ps, n) done. ([], ps, refl);
  kept_by_register = λ cli p q (ps, n) other (newer, older, e). (q ∷ newer, older, ap (◌∷◌ q) e);
  kept_by_config = λ p (ps, n) h. h;
  kept_by_naming = λ p (ps, n) h. h;
  kept_by_select = λ cli p name group (ps, n) h. h;
  selected = λ cli p (ps, n) hosts (newer, older, e) chosen. (
    hosts_of p.service_name p.group_name newer,
    host_of p,
    hosts_of p.service_name p.group_name older,
    memory-selected p ps newer older hosts e chosen,
    (refl, refl, refl, refl, refl, refl, refl),
  );
}

abbrev shop : Instance
shop = record (sample 3 false) {
  instance_name = codes "shop";
  private_ip = codes "10.0.0.7";
  private_port = pos 8080;
  public_ip = codes "1.2.3.4";
  public_port = pos 443;
  node = pos 12;
}

abbrev page : Instance
page = record (sample 4 true) { instance_name = codes "page"; node = pos 12 }

abbrev idle : RpcClient
idle = record { has_cli = true; group_name = codes "12"; pending = []; chans = []; next_chan = 4 }

-- The writes of the connections.
abbrev log :
    ℕ → ℕ → ℕ → Packet → List (ℕ × ℕ × ℕ × Packet) → List (ℕ × ℕ × ℕ × Packet) × Option NetError
log conn cmd subcmd pkt sent = ((conn, cmd, subcmd, pkt) ∷ sent, none)

abbrev between : List (ℕ × HandlerCall Packet)
between =
    (3, on_cmd_system (some (ping (pos 5))))
    ∷ (3, on_cmd_discovery (some (instance_packet page)))
    ∷ []

between-LeavesAll : LeavesAll shop between
unfolding LeavesAll Leaves
between-LeavesAll = (tt, (inl (λ e. ground (arith, ap (λ s. get_or s 0 0) e)), tt))

done_first :
    (handle memory log 1 (on_cmd_discovery (some (instance_packet shop))) (([], ([], 0)), [])).1
    ≡ none
unfolding handle handle_discovery handle_register get_disco_client find_client new_nacos_client
    keep_client item_of Map.lookup register_instance register_host
done_first = refl

begun_first : (begin_lookup shop.instance_name (itoa shop.node) idle).1 ≡ inr (codes "shop@12", 4)
unfolding begin_lookup is_int atoi parse_digits itoa digits Map.lookup RpcClient.or_default
    RpcClient.lookup_key
begun_first = refl

abbrev first_state : State memory log
first_state =
    let call = on_cmd_discovery (some (instance_packet shop)) in
    (handle memory log 1 call (([], ([], 0)), [])).0

abbrev earlier : State memory log
earlier = serve memory log between first_state

done_last :
    (handle memory log 2 (on_cmd_discovery (some (lookup_packet (request_for shop)))) earlier).1
    ≡ none
unfolding handle handle_discovery handle_system handle_register handle_lookup serve get_disco_client
    find_client new_nacos_client keep_client item_of Map.lookup Map.insert register_instance
    register_host get_service_instances instances_result ℕ_discrete
done_last = refl

registered-found_example :
    let call = on_cmd_discovery (some (lookup_packet (request_for shop))) in
    Finds log 2 shop idle 4 earlier.1 (handle memory log 2 call earlier).0.1
registered-found_example =
    registered-found memory memory-KeepsHosts log shop 1 2 between (([], ([], 0)), []) idle
      (codes "shop@12") 4 (omega arith, omega arith, omega arith, omega arith) done_first
      between-LeavesAll done_last begun_first

abbrev client : ℕ → NacosClient
client n = record { config_client = n; naming_client = n + 1 }

-- Two goroutines make a client for the same connection and name, the second one is closed.
run-Balances_example : Balances (client 3) (
    run
      (miss 7 (codes "web") (client 1)
        ∷ miss 7 (codes "web") (client 3)
        ∷ keep 1
        ∷ keep 0
        ∷ remove 7 (codes "web")
        ∷ remove_each 7
        ∷ [])
      new_factory)
run-Balances_example = run-Balances (client 3) _
