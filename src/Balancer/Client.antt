-- ===== src/Balancer/Client.antt =====
-- The errors of the balancers.
use net_flux.Base.{ℕ}

-- Their own, and those of the discovery client and of the library json.
pub data BalanceError : Type 0 where
  no_hosts service_not_found client_not_set : BalanceError
  client_error json_error : ℕ → BalanceError
