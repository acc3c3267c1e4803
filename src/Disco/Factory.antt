-- ===== src/Disco/Factory.antt =====
-- examples/disco/server/disco_cli_factory.go: the clients of the naming service that the server keeps
-- for each connection and name. What the factory does under its lock is a function on its storage,
-- which also gives the clients that are closed meanwhile.
pub mod Ledger
use net_flux.Base.{
  ℕ, ◌≡◌, ◌⊎◌, inl, inr, Option, none, some, List, [], ◌∷◌, map, ◌++◌, if◌then◌else◌,
}
use native.Mathlib.Decide.{ℕ_discrete}
use net_flux.Base.Map
use net_flux.Base.Text.{Str, str_discrete, codes, is_empty_str}
use net_flux.Naming.Nacos.Clients.{Sdk, NacosClient, new_nacos_client, close_nacos_client}

-- `storageItem`, and the map of them by the connection's ID.
abbrev pub StorageItem : Type 0
StorageItem = List (Str × NacosClient)

abbrev pub Storage : Type 0
Storage = List (ℕ × StorageItem)

unfoldable pub name_or_web : Str → Str
name_or_web service_name = if is_empty_str service_name then codes "web" else service_name

-- The clients of a connection, none where the map has no item for it.
unfoldable pub item_of : ℕ → Storage → StorageItem
item_of conn storage = elim (Map.lookup ℕ_discrete conn storage) [ none ↦ [] | some item ↦ item ]

-- What `GetDiscoClient` does under the lock for reading.
unfoldable pub find_client : ℕ → Str → Storage → Option NacosClient
find_client conn service_name storage = elim (Map.lookup ℕ_discrete conn storage) [
  | none ↦ none
  | some item ↦ Map.lookup str_discrete service_name item
]

-- What it does under the lock with the client that it has made: the client that is returned, and those
-- that are closed.
unfoldable pub keep_client :
    ℕ → Str → NacosClient → Storage → Storage × NacosClient × List NacosClient
keep_client conn service_name cli storage =
    let item = item_of conn storage in
    elim (Map.lookup str_discrete service_name item) [
      | some existing ↦ (storage, existing, cli ∷ [])
      | none ↦
          let item' = Map.insert str_discrete service_name cli item in
          (Map.insert ℕ_discrete conn item' storage, cli, [])
    ]

unfoldable pub remove_client : ℕ → Str → Storage → Storage × List NacosClient
remove_client conn service_name storage = elim (Map.lookup ℕ_discrete conn storage) [
  | none ↦ (storage, [])
  | some clients ↦
      let found = Map.lookup str_discrete service_name clients in
      let clients' = Map.delete str_discrete service_name clients in
      (Map.insert ℕ_discrete conn clients' storage, elim found [ none ↦ [] | some cli ↦ cli ∷ [] ])
]

-- `RemoveAll`. The order of the clients is that of the list, Go's is any.
unfoldable pub remove_all : ℕ → Storage → Storage × List NacosClient
remove_all conn storage =
    (Map.delete ℕ_discrete conn storage, map (λ p. p.1) (item_of conn storage))

module _ (sdk : Sdk) where
  unfoldable pub close_each : List NacosClient → sdk.State → sdk.State
  close_each [] s = s
  close_each (cli ∷ clients) s = close_each clients (close_nacos_client sdk cli s)

  -- `GetDiscoClient`, with nothing between the two times that it holds the lock. `none` is a nil
  -- client.
  unfoldable pub get_disco_client :
      ℕ → Str → Storage × sdk.State → (Storage × sdk.State) × Option NacosClient
  get_disco_client conn service_name (storage, s) =
      let name = name_or_web service_name in
      elim (find_client conn name storage) [
        | some cli ↦ ((storage, s), some cli)
        | none ↦
            let (t, made) = new_nacos_client sdk s in
            elim made [
              | inl e ↦ ((storage, t), none)
              | inr cli ↦
                  let (storage', kept, closed) = keep_client conn name cli storage in
                  ((storage', close_each closed t), some kept)
            ]
      ]

  unfoldable pub remove_disco_client : ℕ → Str → Storage × sdk.State → Storage × sdk.State
  remove_disco_client conn service_name (storage, s) =
      let (storage', closed) = remove_client conn service_name storage in
      (storage', close_each closed s)

  unfoldable pub remove_all_disco_clients : ℕ → Storage × sdk.State → Storage × sdk.State
  remove_all_disco_clients conn (storage, s) =
      let (storage', closed) = remove_all conn storage in (storage', close_each closed s)
