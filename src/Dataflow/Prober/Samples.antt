-- ===== src/Dataflow/Prober/Samples.antt =====
-- A scripted world for the tests.
use net_flux.Base.{ℕ, ◌+◌, ◌*◌, ◌^◌, ◌⊎◌, inl, none, some, List, [], ◌∷◌}
use net_flux.Base.Text.{Str, codes}
use net_flux.Dataflow.Prober.{ProbeError, World}
use net_flux.Dataflow.Prober.Targets.{NetApi}
use net_flux.Dataflow.Prober.Report.{Lookup}

-- The answers to come, and the time, which a request takes 3 milliseconds of.
abbrev pub script : World
script = record {
  State = List (ℕ ⊎ ℕ) × ℕ;
  ctx_err = λ (answers, time). ((answers, time), none);
  pause = λ (answers, time). ((answers, time + 100 * 10 ^ 6), none);
  now = λ (answers, time). ((answers, time), time);
  request = λ url (answers, time). elim answers [
    | [] ↦ (([], time), inl 9)
    | a ∷ rest ↦ ((rest, time + 3 * 10 ^ 6), a)
  ];
}

abbrev pub no_net : NetApi
no_net = record {
  parse_url = λ s. inl 1;
  split_host_port = λ s. none;
  parse_ip = λ s. some (codes "10.1.1.1");
}

abbrev pub nobody : Lookup script
nobody host s = (s, inl 4)

abbrev pub explain : ProbeError → Str
explain e = codes "failed"
