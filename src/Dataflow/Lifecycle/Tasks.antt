-- ===== src/Dataflow/Lifecycle/Tasks.antt =====
-- The tasks of the scheduler after any calls of Initialize and Shutdown.
use net_flux.Base.{
  ℕ, ◌≡◌, refl, sym, ap, ◌∙◌, Bool, true, false, ◌&&◌, Option, none, some, List, [], ◌∷◌, ◌++◌, map,
  append_assoc, append-nil, if◌then◌else◌, arith,
}
use net_flux.Base.Text.{Str}
use net_flux.Dataflow.Scheduler.{add_task, start, stop_run}
use net_flux.Dataflow.Lifecycle.{
  Config, Dataflow, initialize, shutdown, start_manager, add_machine_task, add_net_collect_task,
  add_new, is_positive, is_some_address, machine_task_name, net_collect_task_name,
}

-- A call, with what the client says when it is asked whether it is closed.
pub data Call : Type 0 where
  initialize_call : Option ℕ → Option Config → Bool → Bool → Call
  shutdown_call : Call

unfoldable pub after : Call → Dataflow → Dataflow
after (initialize_call client config closed closed_then) d =
    (initialize client config closed closed_then d).0
after shutdown_call d = shutdown d

unfoldable pub run : List Call → Dataflow → Dataflow
run [] d = d
run (c ∷ cs) d = run cs (after c d)

abbrev pub only_if : Bool → Str → List Str
only_if true id = id ∷ []
only_if false id = []

abbrev pub machine_asked : Config → List Str
machine_asked config = only_if (is_positive config.report_machine_interval) machine_task_name

abbrev pub net_asked : Config → List Str
net_asked config =
    only_if (is_positive config.report_network_interval && is_some_address config.probe_addresses)
      net_collect_task_name

-- The identifiers of the tasks that a configuration asks for.
unfoldable pub asked : Config → List Str
asked config = machine_asked config ++ net_asked config

-- Those that the calls add: each one of Initialize with a configuration and an open client, whether
-- or not it reports an error.
unfoldable pub added : List Call → List Str
added [] = []
added (initialize_call (some client) (some config) false false ∷ cs) = asked config ++ added cs
added (_ ∷ cs) = added cs

abbrev pub ids : Dataflow → List Str
ids d = map (λ t. t.id) d.manager.tasks

start_manager-ids : (d : Dataflow) → ids (start_manager d).0 ≡ ids d
unfolding start_manager start
start_manager-ids d = ground arith

shutdown-ids : (d : Dataflow) → ids (shutdown d) ≡ ids d
unfolding shutdown stop_run
shutdown-ids d = ground arith

map_append : {A B : Type 0} (f : A → B) (xs ys : List A) → map f (xs ++ ys) ≡ map f xs ++ map f ys
map_append f [] ys = refl
map_append f (x ∷ xs) ys = ap (◌∷◌ (f x)) (map_append f xs ys)

add_new-ids : (id : Str) (d : Dataflow) → ids (add_new id d) ≡ ids d ++ id ∷ []
unfolding add_new add_task
add_new-ids id d = map_append _ d.manager.tasks _

add_if :
    (b : Bool) (id : Str) (d : Dataflow)
    → ids (if b then add_new id d else d) ≡ ids d ++ only_if b id
add_if true id d = add_new-ids id d
add_if false id d = sym (append-nil (ids d))

asked-ids :
    (config : Config) (d : Dataflow)
    → ids (add_net_collect_task config (add_machine_task config d)) ≡ ids d ++ asked config
unfolding add_net_collect_task add_machine_task asked
asked-ids config d =
    add_if _ net_collect_task_name (add_machine_task config d)
    ∙ ap (λ xs. xs ++ net_asked config)
        (add_if (is_positive config.report_machine_interval) machine_task_name d)
    ∙ append_assoc (ids d) (machine_asked config) (net_asked config)

-- After any calls the scheduler has, behind the tasks it had, those that each Initialize with a
-- configuration and an open client asked for, in the order of the calls: neither a Shutdown nor an
-- Initialize that fails because the scheduler runs takes any away.
pub run-ids : (cs : List Call) (d : Dataflow) → ids (run cs d) ≡ ids d ++ added cs
unfolding run after added initialize
run-ids [] d = sym (append-nil (ids d))
run-ids (shutdown_call ∷ cs) d =
    run-ids cs (shutdown d) ∙ ap (λ xs. xs ++ added cs) (shutdown-ids d)
run-ids (initialize_call none none closed closed_then ∷ cs) d = run-ids cs d
run-ids (initialize_call none (some config) closed closed_then ∷ cs) d = run-ids cs d
run-ids (initialize_call (some client) none closed closed_then ∷ cs) d = run-ids cs d
run-ids (initialize_call (some client) (some config) true closed_then ∷ cs) d = run-ids cs d
run-ids (initialize_call (some client) (some config) false true ∷ cs) d = run-ids cs _
run-ids (initialize_call (some client) (some config) false false ∷ cs) d =
    run-ids cs _
    ∙ ap (λ xs. xs ++ added cs) (start_manager-ids _ ∙ asked-ids config _)
    ∙ append_assoc (ids d) (asked config) (added cs)
