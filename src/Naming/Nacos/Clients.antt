-- ===== src/Naming/Nacos/Clients.antt =====
-- `NewNacosDiscoverClient` and `Close` of pkg/naming/nacos_client.go, with the constructors of
-- nacos_config_cli.go and nacos_naming_cli.go. The SDK is a parameter: its clients are numbers, and
-- the service that they talk to is one state.
use net_flux.Base.{ℕ, ◌⊎◌, inl, inr, Option, List}
use net_flux.Base.Text.{Str}
use net_flux.Naming.Nacos.{Host, HostedService, Registration, NamingApi}

-- `CreateConfigClient` and `CreateNamingClient` with the settings of the program, `CloseClient`, and
-- the methods of `INamingClient` for a client.
pub record Sdk : Type 1 where
  pub State : Type 0
  pub create_config_client : State → State × (ℕ ⊎ ℕ)
  pub create_naming_client : State → State × (ℕ ⊎ ℕ)
  pub close_config_client : ℕ → State → State
  pub close_naming_client : ℕ → State → State
  pub register : ℕ → Registration → State → State × Option ℕ
  pub deregister : ℕ → Str → Str → Str → ℕ → State → State × Option ℕ
  pub all_services : ℕ → Str → State → State × (ℕ ⊎ List Str)
  pub service : ℕ → Str → Str → List Str → State → State × (ℕ ⊎ HostedService)
  pub select_one : ℕ → Str → Str → List Str → State → State × (ℕ ⊎ Option Host)
  pub select_all : ℕ → Str → Str → List Str → State → State × (ℕ ⊎ List Host)

-- `nacosDiscoClient`, with the clients of the SDK that it has.
pub record NacosClient : Type 0 where
  pub config_client : ℕ
  pub naming_client : ℕ

module _ (sdk : Sdk) where
  -- What a client's methods for services call.
  abbrev pub naming_of : NacosClient → NamingApi
  naming_of cli = record {
    State = sdk.State;
    register = sdk.register cli.naming_client;
    deregister = sdk.deregister cli.naming_client;
    all_services = sdk.all_services cli.naming_client;
    service = sdk.service cli.naming_client;
    select_one = sdk.select_one cli.naming_client;
    select_all = sdk.select_all cli.naming_client;
  }

  unfoldable pub new_nacos_client : sdk.State → sdk.State × (ℕ ⊎ NacosClient)
  new_nacos_client s =
      let (t, config) = sdk.create_config_client s in
      elim config [
        | inl e ↦ (t, inl e)
        | inr config_client ↦
            let (u, naming) = sdk.create_naming_client t in
            elim naming [
              | inl e ↦ (u, inl e)
              | inr naming_client ↦
                  (u, inr (record { config_client = config_client; naming_client = naming_client }))
            ]
      ]

  unfoldable pub close_nacos_client : NacosClient → sdk.State → sdk.State
  close_nacos_client cli s =
      sdk.close_config_client cli.config_client (sdk.close_naming_client cli.naming_client s)
