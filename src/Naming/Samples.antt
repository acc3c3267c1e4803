-- ===== src/Naming/Samples.antt =====
-- Instances for the tests.
use net_flux.Base.{ℕ, Bool, true, false, [], ◌∷◌}
use net_flux.Base.Int.{pos}
use net_flux.Naming.Types.{Instance}

abbrev pub sample : ℕ → Bool → Instance
sample n good = record {
  instance_id = n ∷ [];
  instance_name = [];
  public_ip = [];
  public_port = pos 0;
  private_ip = [];
  private_port = pos 0;
  inner_ip = [];
  inner_port = pos 0;
  weight = pos n;
  healthy = good;
  enable = true;
  ephemeral = false;
  node = pos 0;
  extra = [];
}
