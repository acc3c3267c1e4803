-- ===== src/Dataflow/Lifecycle.antt =====
-- pkg/dataflow/dataflow.go and report.go: the tasks that Initialize adds, Shutdown, and the events
-- that are sent. A client is a number; whether it is closed is an argument where the code asks.
pub mod Tasks
use net_flux.Base.{
  ℕ, zero, suc, ◌+◌, ◌⊎◌, inl, inr, Bool, true, false, ◌&&◌, Option, none, some, List, [], ◌∷◌,
  if◌then◌else◌,
}
use net_flux.Base.Int.{ℤ, pos, negsuc}
use net_flux.Base.Text.{Str, codes}
use net_flux.Dataflow.Types.{NodeInfo}
use net_flux.Dataflow.Scheduler.{Task, Scheduler, new_scheduler, add_task, start, stop_run}

-- `DataflowConfig`, with its intervals in nanoseconds.
pub record Config : Type 0 where
  pub node_info : Option NodeInfo
  pub probe_addresses : List Str
  pub report_machine_interval : ℤ
  pub report_network_interval : ℤ

-- The variables of the package and the scheduler that `task.Manager` returns. A new task's handle is
-- the number of those made before.
pub record Dataflow : Type 0 where
  pub cli : Option ℕ
  pub configuration : Option Config
  pub manager : Scheduler Str
  pub made : ℕ

pub data InitError : Type 0 where
  config_nil not_initialized already_started : InitError

abbrev pub idle : Dataflow
idle = record { cli = none; configuration = none; manager = new_scheduler; made = 0 }

abbrev pub machine_task_name : Str
machine_task_name = codes "machine"

abbrev pub net_collect_task_name : Str
net_collect_task_name = codes "net_collect"

unfoldable pub is_positive : ℤ → Bool
is_positive (pos zero) = false
is_positive (pos (suc n)) = true
is_positive (negsuc n) = false

abbrev pub is_some_address : List Str → Bool
is_some_address [] = false
is_some_address (a ∷ rest) = true

unfoldable pub add_new : Str → Dataflow → Dataflow
add_new id d = record d {
  manager = add_task (record { id = id; handle = d.made }) d.manager;
  made = d.made + 1;
}

unfoldable pub add_machine_task : Config → Dataflow → Dataflow
add_machine_task config d =
    if is_positive config.report_machine_interval then add_new machine_task_name d else d

unfoldable pub add_net_collect_task : Config → Dataflow → Dataflow
add_net_collect_task config d =
    if is_positive config.report_network_interval && is_some_address config.probe_addresses
    then add_new net_collect_task_name d
    else d

unfoldable pub start_manager : Dataflow → Dataflow × Option InitError
start_manager d =
    let (manager, ok) = start d.manager in
    (record d { manager = manager }, if ok then none else some already_started)

-- `NewChannel` asks again whether the client is closed: `closed_then`.
unfoldable pub initialize :
    Option ℕ → Option Config → Bool → Bool → Dataflow → Dataflow × Option InitError
initialize client none closed closed_then d = (d, some config_nil)
initialize none (some config) closed closed_then d = (d, some not_initialized)
initialize (some client) (some config) closed closed_then d =
    let d' = record d { cli = some client; configuration = some config } in
    if closed
    then (d, some not_initialized)
    else if closed_then
    then (d', some not_initialized)
    else start_manager (add_net_collect_task config (add_machine_task config d'))

unfoldable pub shutdown : Dataflow → Dataflow
shutdown d = record d { manager = (stop_run d.manager).0; cli = none; configuration = none }

-- `getClient`
unfoldable pub get_client : Bool → Dataflow → InitError ⊎ ℕ
get_client closed d = elim d.cli [
  | none ↦ inl not_initialized
  | some client ↦ if closed then inl not_initialized else inr client
]

-- The functions of report.go, each by the event it is for.
pub data Event : Type 0 where
  stream_add stream_delete stream_failed stream_status streams_query : Event
  session_add session_delete session_update : Event

-- The subcommand that an event is sent under.
unfoldable pub sub_command : Event → ℕ
sub_command stream_add = 20
sub_command stream_delete = 21
sub_command stream_failed = 23
sub_command stream_status = 22
sub_command streams_query = 24
sub_command session_add = 30
sub_command session_delete = 31
sub_command session_update = 32

-- `write` is the client's `Write`, with the codes in front of the message.
unfoldable pub notify :
    {Msg S : Type 0}
    → (ℕ → ℕ → ℕ → Msg → S → S × Option ℕ)
    → Event
    → Bool
    → Dataflow
    → Msg
    → S
    → S × Option (InitError ⊎ ℕ)
notify write event closed d msg s = elim (get_client closed d) [
  | inl e ↦ (s, some (inl e))
  | inr client ↦
      let (t, err) = write client 30 (sub_command event) msg s in
      (t, elim err [ none ↦ none | some e ↦ some (inr e) ])
]
