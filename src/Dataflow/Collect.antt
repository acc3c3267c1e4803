-- ===== src/Dataflow/Collect.antt =====
-- pkg/dataflow/task/net_collect_task.go, net_report_task.go and machine_report_task.go: the tasks. What
-- pkg/dataflow/gather collects is a parameter.
pub mod Metrics
use net_flux.Base.{
  ℕ, ◌+◌, ◌⊎◌, inl, inr, Bool, true, false, Option, none, some, List, [], ◌∷◌, if◌then◌else◌,
}
use net_flux.Base.Int.{ℤ, pos, int_of, int32}
use net_flux.Base.Text.{Str}
use net_flux.Cache.InMem.{add_ttl}
use net_flux.Dataflow.Types.{NodeInfo}
use net_flux.Dataflow.Prober.{ProbeError, World}
use net_flux.Dataflow.Prober.Targets.{NetApi}
use net_flux.Dataflow.Prober.Report.{NetworkMetric, Lookup, default_probe_count, probe}
use net_flux.Dataflow.Channel.{send_network_info, send_machine_info}

pub record NetCollectTask : Type 0 where
  pub has_cli : Bool
  pub next : ℤ
  pub interval : ℤ
  pub node_info : Option NodeInfo
  pub addr_list : List Str

-- `closed` and `write` are those of the client, with C its state.
module _ (world : World) (net : NetApi) (lookup_ip : Lookup world) (text : ProbeError → Str)
    (stamp : world.State → ℤ) {C : Type 0} (closed : C → Bool)
    (write : ℕ → ℕ → NetworkMetric → C → C × Option ℕ) where
  -- The loop of `Run`; `none` is the panic of a prober without a target.
  unfoldable pub collect :
      Bool → Option NodeInfo → List Str → world.State × C → Option (world.State × C)
  collect has_cli info [] (s, c) = some (s, c)
  collect has_cli info (addr ∷ addrs) (s, c) =
      let (t, result) = probe world net lookup_ip text info default_probe_count stamp addr s in
      elim result [
        | inl e ↦ collect has_cli info addrs (t, c)
        | inr none ↦ none
        | inr (some metric) ↦
            collect has_cli info addrs
              (t, (send_network_info closed write has_cli (some metric ∷ []) c).0)
      ]

  -- `Run` at the time `now` of its end.
  unfoldable pub run_collect :
      ℕ → NetCollectTask → world.State × C → Option (NetCollectTask × world.State × C)
  run_collect now task p = elim (collect task.has_cli task.node_info task.addr_list p) [
    | none ↦ none
    | some (s, c) ↦ some (record task { next = add_ttl now task.interval }, s, c)
  ]

-- What the collectors report, with numbers of 64 bits.
pub record Gathered : Type 0 where
  pub cpu_usage : ℕ
  pub cpu_count : ℤ
  pub mem_used : ℕ
  pub mem_total : ℕ
  pub read_bytes : ℕ
  pub write_bytes : ℕ
  pub read_time : ℕ
  pub write_time : ℕ
  pub read_count : ℕ
  pub write_count : ℕ

-- `gen.MachineMetric` with the fields that the task sets; the usage is a number whose unit does not
-- matter.
pub record MachineMetric : Type 0 where
  pub machine_id : Str
  pub instance_id : Str
  pub instance_name : Str
  pub node_id : Str
  pub node_name : Str
  pub node_status : Str
  pub status : Str
  pub version : Str
  pub start_time : ℤ
  pub timestamp : ℤ
  pub cpu_usage : ℕ
  pub cpu_count : ℤ
  pub mem_used : ℤ
  pub mem_total : ℤ
  pub disk_read_bytes : ℤ
  pub disk_write_bytes : ℤ
  pub disk_read_time : ℤ
  pub disk_write_time : ℤ
  pub disk_read_count : ℤ
  pub disk_write_count : ℤ

pub record MachineTask : Type 0 where
  pub has_cli : Bool
  pub next : ℤ
  pub interval : ℤ
  pub node_info : Option NodeInfo

unfoldable pub of_node : {A : Type 0} → A → (NodeInfo → A) → Option NodeInfo → A
of_node d f none = d
of_node d f (some info) = f info

unfoldable pub machine_metric : Option NodeInfo → ℤ → Gathered → MachineMetric
machine_metric info stamp g = record {
  machine_id = of_node [] (λ n. n.id) info;
  instance_id = of_node [] (λ n. n.id) info;
  instance_name = of_node [] (λ n. n.name) info;
  node_id = of_node [] (λ n. n.id) info;
  node_name = of_node [] (λ n. n.name) info;
  node_status = of_node [] (λ n. n.status) info;
  status = of_node [] (λ n. n.status) info;
  version = of_node [] (λ n. n.version) info;
  start_time = of_node (pos 0) (λ n. n.start_time) info;
  timestamp = stamp;
  cpu_usage = g.cpu_usage;
  cpu_count = int32 g.cpu_count;
  mem_used = int_of g.mem_used;
  mem_total = int_of g.mem_total;
  disk_read_bytes = int_of g.read_bytes;
  disk_write_bytes = int_of g.write_bytes;
  disk_read_time = int_of g.read_time;
  disk_write_time = int_of g.write_time;
  disk_read_count = int_of g.read_count;
  disk_write_count = int_of g.write_count;
}

pub data MachineError : Type 0 where
  not_gathered : ℕ → MachineError
  not_sent : MachineError

-- `machineTask.Run`, with what the three collectors give, the first error of theirs included.
unfoldable pub run_machine :
    {C : Type 0}
    → (C → Bool)
    → (ℕ → ℕ → MachineMetric → C → C × Option ℕ)
    → ℕ ⊎ Gathered
    → ℤ
    → ℕ
    → MachineTask
    → C
    → MachineTask × C × Option MachineError
run_machine closed write gathered stamp now task c =
    let task' = record task { next = add_ttl now task.interval } in
    elim gathered [
      | inl e ↦ (task', c, some (not_gathered e))
      | inr g ↦
          let (c', sent) =
            send_machine_info closed write task.has_cli
              (some (machine_metric task.node_info stamp g) ∷ []) c in
          (task', c', if sent then none else some not_sent)
    ]

-- `netReportTask.Run` does nothing.
unfoldable pub run_report : {C : Type 0} → C → C
run_report c = c
