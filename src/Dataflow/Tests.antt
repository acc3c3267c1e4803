-- ===== src/Dataflow/Tests.antt =====
-- The scheduler with a few tasks.
use net_flux.Base.{
  ℕ, ◌*◌, ◌^◌, ◌≡◌, refl, ◌⊎◌, inl, inr, true, false, none, some, List, [], ◌∷◌, ◌++◌,
}
use net_flux.Base.Int.{ℤ, pos}
use net_flux.Base.Text.{codes}
use net_flux.Dataflow.Lifecycle
use net_flux.Dataflow.Lifecycle.{Config, idle, is_positive}
use net_flux.Dataflow.Lifecycle.Tasks.{added, asked, ids, run, run-ids}
use net_flux.Dataflow.Scheduler.{Task, Scheduler, new_scheduler, add_task}
use net_flux.Dataflow.Scheduler
use net_flux.Dataflow.Scheduler.Ticks.{
  log_run, due, tick-due, Op, start_op, stop_op, steps, expected, steps-expected,
}

abbrev report : Task ℕ
report = record { id = 1; handle = 4 }

abbrev probing : Task ℕ
probing = record { id = 2; handle = 9 }

abbrev both : Scheduler ℕ
both = add_task probing (add_task report new_scheduler)

abbrev ops : List Op
ops = start_op ∷ start_op ∷ stop_op ∷ start_op ∷ []

steps-expected_example : (steps ops (both, [])).1 ≡ expected (steps ops (both, [])).0
unfolding expected add_task new_scheduler
steps-expected_example = steps-expected ops (both, []) refl

abbrev handle_due : Task ℕ → ℤ
handle_due t = pos t.handle

tick-due_example :
    Scheduler.tick (λ t _. handle_due t) log_run 5 both [] ≡ [] ++ due handle_due 5 both.tasks
unfolding add_task new_scheduler
tick-due_example = tick-due handle_due 5 both []

abbrev five_minutes : Config
five_minutes = record {
  node_info = none;
  probe_addresses = codes "a.b" ∷ [];
  report_machine_interval = pos (300 * 10 ^ 9);
  report_network_interval = pos 0;
}

abbrev restarts : List Lifecycle.Tasks.Call
restarts =
    Lifecycle.Tasks.initialize_call (some 4) (some five_minutes) false false
    ∷ Lifecycle.Tasks.shutdown_call
    ∷ Lifecycle.Tasks.initialize_call (some 4) (some five_minutes) true false
    ∷ Lifecycle.Tasks.initialize_call (some 5) (some five_minutes) false false
    ∷ []

-- After a restart the machine is reported on twice.
twice : added restarts ≡ codes "machine" ∷ codes "machine" ∷ []
unfolding added asked is_positive
twice = refl

run-ids_example : ids (run restarts idle) ≡ ids idle ++ added restarts
run-ids_example = run-ids restarts idle

abbrev scripted : List (ℕ ⊎ ℕ)
scripted = inl 3 ∷ inr 200 ∷ inr 404 ∷ inr 200 ∷ []
