-- ===== src/Disco/Factory/Ledger.antt =====
-- The factory of examples/disco/server/disco_cli_factory.go when several goroutines use it, and what
-- has become of the clients that it made.
pub mod Balance
use net_flux.Base.{
  ℕ, zero, suc, ◌+◌, Bool, true, false, ◌&&◌, Option, none, some, List, [], ◌∷◌, ◌++◌, ◌==◌,
  if◌then◌else◌,
}
use net_flux.Base.Map.Totals.{total}
use net_flux.Base.Text.{Str}
use net_flux.Naming.Nacos.Clients.{NacosClient}
use net_flux.Disco.Factory.{
  Storage, StorageItem, keep_client, remove_client, remove_all, find_client,
}

-- A goroutine with a client that it has made and not yet kept.
pub record Maker : Type 0 where
  pub conn : ℕ
  pub service_name : Str
  pub made : NacosClient

-- The factory with the goroutines in the middle of `GetDiscoClient`, the clients ever made and those
-- closed.
pub record Factory : Type 0 where
  pub storage : Storage
  pub makers : List Maker
  pub made : List NacosClient
  pub closed : List NacosClient

abbrev pub new_factory : Factory
new_factory = record { storage = []; makers = []; made = []; closed = [] }

-- A goroutine does not find a client, and makes one; the goroutine with some index keeps its client;
-- and the calls of the methods that remove clients.
pub data Step : Type 0 where
  miss : ℕ → Str → NacosClient → Step
  keep : ℕ → Step
  remove : ℕ → Str → Step
  remove_each : ℕ → Step

unfoldable pub pick_maker : ℕ → List Maker → Option (Maker × List Maker)
pick_maker i [] = none
pick_maker zero (m ∷ ms) = some (m, ms)
pick_maker (suc i) (m ∷ ms) = elim (pick_maker i ms) [
  | none ↦ none
  | some (found, rest) ↦ some (found, m ∷ rest)
]

-- A step that is not possible changes nothing.
unfoldable pub step : Step → Factory → Factory
step (miss conn service_name cli) f = elim (find_client conn service_name f.storage) [
  | some _ ↦ f
  | none ↦ record f {
    makers = record { conn = conn; service_name = service_name; made = cli } ∷ f.makers;
    made = cli ∷ f.made;
  }
]
step (keep i) f = elim (pick_maker i f.makers) [
  | none ↦ f
  | some (m, rest) ↦
      let (storage, _, closed) = keep_client m.conn m.service_name m.made f.storage in
      record f { storage = storage; makers = rest; closed = closed ++ f.closed }
]
step (remove conn service_name) f =
    let (storage, closed) = remove_client conn service_name f.storage in
    record f { storage = storage; closed = closed ++ f.closed }
step (remove_each conn) f =
    let (storage, closed) = remove_all conn f.storage in
    record f { storage = storage; closed = closed ++ f.closed }

unfoldable pub run : List Step → Factory → Factory
run [] f = f
run (s ∷ steps) f = run steps (step s f)

-- One for a client, nothing for any other.
unfoldable pub is : NacosClient → NacosClient → ℕ
is c d =
    if (c.config_client == d.config_client) && (c.naming_client == d.naming_client) then 1 else 0

unfoldable pub times : NacosClient → List NacosClient → ℕ
times c [] = 0
times c (d ∷ ds) = is c d + times c ds

unfoldable pub times_held : NacosClient → List Maker → ℕ
times_held c [] = 0
times_held c (m ∷ ms) = is c m.made + times_held c ms

unfoldable pub times_in : NacosClient → StorageItem → ℕ
times_in c item = total (is c) item

unfoldable pub times_stored : NacosClient → Storage → ℕ
times_stored c storage = total (times_in c) storage
