-- ===== src/Naming/Types.antt =====
-- The messages of proto/disco.proto that the discovery deals in, and the interface `DiscoClient` of
-- pkg/naming/types.go as far as the balancers use it.
use net_flux.Base.{ℕ, ◌≡◌, ◌⊎◌, inr, Bool, Option, none, List}
use net_flux.Base.Int.{ℤ}
use net_flux.Base.Text.{Str}

-- `gen.Instance`; `weight` is the weight as an `int`.
pub record Instance : Type 0 where
  pub instance_id : Str
  pub instance_name : Str
  pub public_ip : Str
  pub public_port : ℤ
  pub private_ip : Str
  pub private_port : ℤ
  pub inner_ip : Str
  pub inner_port : ℤ
  pub weight : ℤ
  pub healthy : Bool
  pub enable : Bool
  pub ephemeral : Bool
  pub node : ℤ
  pub extra : List (Str × Str)

-- `gen.Service`. A pointer in `Instances` is not nil.
pub record Service : Type 0 where
  pub name : Str
  pub group_name : Str
  pub cluster : Str
  pub valid : Bool
  pub instances : List Instance

-- The methods of `DiscoClient` that the balancers call, with errors as numbers. `none` is a nil
-- service.
pub record DiscoClient : Type 1 where
  pub State : Type 0
  pub get_config : Str → State → State × (ℕ ⊎ Str)
  pub set_config : Str → Str → State → State × Option ℕ
  pub get_service : Str → Str → State → State × (ℕ ⊎ Option Service)

-- The configuration that was set without an error is the one that is read next.
abbrev pub KeepsConfig : DiscoClient → Type 0
KeepsConfig d =
    (key value : Str) (s : d.State)
    → (d.set_config key value s).1 ≡ none
    → (d.get_config key (d.set_config key value s).0).1 ≡ inr value
