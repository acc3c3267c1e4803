-- ===== src/Naming/Nacos/Config.antt =====
-- pkg/naming/nacos_client.go and nacos_config_cli.go: configurations over Nacos, and the client as
-- the one that the balancers call. The SDK's configuration client is a parameter; contents are kept
-- under an identifier and a group.
use net_flux.Base.{ℕ, ◌≡◌, ◌⊎◌, inl, inr, Option, none, some, List, [], map}
use net_flux.Base.Text.{Str}
use net_flux.Naming.Types.{Service, DiscoClient, KeepsConfig}
use net_flux.Naming.Nacos.{NamingApi, get_service}

pub record ConfigItem : Type 0 where
  pub id : Str
  pub data_id : Str
  pub group : Str
  pub content : Str

-- An item of the SDK's `model.ConfigPage`, whose number is a text.
pub record FoundItem : Type 0 where
  pub number : Str
  pub found_id : Str
  pub found_group : Str
  pub found_content : Str

-- A page of the program's items or of the SDK's.
pub record ConfigPage (Item : Type 0) : Type 0 where
  pub total_count : ℕ
  pub page_number : ℕ
  pub pages_available : ℕ
  pub page_items : List Item

-- `IConfigClient`, where a listener is a number. The arguments are the identifier and the group.
pub record ConfigApi : Type 1 where
  pub State : Type 0
  pub publish : Str → Str → Str → State → State × Option ℕ
  pub get : Str → Str → State → State × (ℕ ⊎ Str)
  pub delete : Str → Str → State → State × Option ℕ
  pub listen : Str → Str → ℕ → State → State × Option ℕ
  pub cancel_listen : Str → Str → State → State × Option ℕ
  pub search : Str → Str → Str → State → State × (ℕ ⊎ ConfigPage FoundItem)

unfoldable pub to_item : FoundItem → ConfigItem
to_item item = record {
  id = item.number;
  data_id = item.found_id;
  group = item.found_group;
  content = item.found_content;
}

unfoldable pub page_result : ℕ ⊎ ConfigPage FoundItem → ℕ ⊎ ConfigPage ConfigItem
page_result (inl e) = inl e
page_result (inr page) = inr (record {
  total_count = page.total_count;
  page_number = page.page_number;
  pages_available = page.pages_available;
  page_items = map to_item page.page_items;
})

-- The methods of a client with its group.
module _ (api : ConfigApi) (group_name : Str) where
  unfoldable pub set_config : Str → Str → api.State → api.State × Option ℕ
  set_config data_id content s = api.publish data_id group_name content s

  unfoldable pub get_config : Str → api.State → api.State × (ℕ ⊎ Str)
  get_config data_id s = api.get data_id group_name s

  unfoldable pub delete_config : Str → api.State → api.State × Option ℕ
  delete_config data_id s = api.delete data_id group_name s

  unfoldable pub listen_config : Str → ℕ → api.State → api.State × Option ℕ
  listen_config data_id on_change s = api.listen data_id group_name on_change s

  unfoldable pub cancel_listen_config : Str → api.State → api.State × Option ℕ
  cancel_listen_config data_id s = api.cancel_listen data_id group_name s

  unfoldable pub search_config : Str → Str → api.State → api.State × (ℕ ⊎ ConfigPage ConfigItem)
  search_config search data_id s =
      let (t, page) = api.search search group_name data_id s in (t, page_result page)

-- A service that is found is not nil.
unfoldable pub some_service : ℕ ⊎ Service → ℕ ⊎ Option Service
some_service (inl e) = inl e
some_service (inr service) = inr (some service)

-- The client as the balancers see it.
abbrev pub nacos_client : NamingApi → ConfigApi → Str → DiscoClient
nacos_client names configs group_name = record {
  State = names.State × configs.State;
  get_config = λ data_id (n, c).
      let (c', content) = get_config configs group_name data_id c in ((n, c'), content);
  set_config = λ data_id content (n, c).
      let (c', err) = set_config configs group_name data_id content c in ((n, c'), err);
  get_service = λ service_name group (n, c).
      let (n', found) = get_service names service_name group [] n in ((n', c), some_service found);
}

-- What is published without an error is what is read next.
abbrev pub KeepsPublished : ConfigApi → Type 0
KeepsPublished api =
    (data_id group content : Str) (s : api.State)
    → (api.publish data_id group content s).1 ≡ none
    → (api.get data_id group (api.publish data_id group content s).0).1 ≡ inr content

-- The balancers' hypothesis on the client, for one over such a service.
pub nacos_client-KeepsConfig :
    (names : NamingApi) (configs : ConfigApi) (group_name : Str)
    → KeepsPublished configs
    → KeepsConfig (nacos_client names configs group_name)
unfolding get_config set_config
nacos_client-KeepsConfig names configs group_name keeps key value (n, c) done =
    keeps key group_name value c done
