-- ===== src/Dataflow/Types.antt =====
-- The types that the parts of pkg/dataflow share.
use net_flux.Base.Int.{ℤ}
use net_flux.Base.Text.{Str}

-- `NodeInfo` of pkg/dataflow/core/types.go.
pub record NodeInfo : Type 0 where
  pub id : Str
  pub name : Str
  pub ip : Str
  pub port : ℤ
  pub node : ℤ
  pub version : Str
  pub status : Str
  pub start_time : ℤ
