-- ===== src/Dataflow/Scheduler/Ticks.antt =====
-- Which tasks a tick runs, and what the calls on the scheduler do to its tasks and its runs.
use net_flux.Base.{
  ℕ, suc, ◌-◌, ◌≡◌, refl, sym, Bool, true, ◌||◌, not, leb, none, some, List, [], ◌∷◌, ◌++◌,
  append_assoc, append-nil, ◌==◌, if◌then◌else◌, arith,
}
use mathlib.Core.Logic.{ite}
use net_flux.Base.Int.{ℤ, pos, negsuc}
use net_flux.Dataflow.Scheduler.{
  Task, Scheduler, add_task, get_tasks, remove_first, remove_task, start, stop_run, is_later,
  run_due, tick,
}

-- A log of the runs, as the state of `tick`.
unfoldable pub log_run : {I : Type 0} → Task I → List (Task I) → List (Task I)
log_run t log = log ++ t ∷ []

-- Whether a task with this next time runs at an instant: its time has come, or it has none, which is
-- the zero time.
unfoldable pub is_due : ℕ → ℤ → Bool
is_due now (pos next) = next == 0 || leb next now
is_due now (negsuc next) = true

is_later-is_due : (now : ℕ) (next : ℤ) → is_later now next ≡ not (is_due now next)
unfolding is_later is_due
is_later-is_due now (pos next) = ground arith
is_later-is_due now (negsuc next) = refl

module _ {I : Type 0} (due_at : Task I → ℤ) where
  -- The tasks of the list that are due, in order.
  unfoldable pub due : ℕ → List (Task I) → List (Task I)
  due now [] = []
  due now (t ∷ ts) = let rest = due now ts in if is_due now (due_at t) then t ∷ rest else rest

  run_due-due :
      (now : ℕ) (ts log : List (Task I))
      → run_due (λ t _. due_at t) log_run now ts log ≡ log ++ due now ts
  unfolding run_due due log_run
  run_due-due now [] log = sym (append-nil log)
  run_due-due now (t ∷ ts) log = ground (
    arith,
    is_later-is_due now (due_at t),
    run_due-due now ts log,
    run_due-due now ts (log ++ t ∷ []),
    append_assoc log (t ∷ []) (due now ts),
  )

  -- Where running a task does not change when the others are due, a tick runs each task of the list
  -- whose time has come, or is the zero time, exactly once, in the list's order, and no other.
  pub tick-due :
      (now : ℕ) (s : Scheduler I) (log : List (Task I))
      → tick (λ t _. due_at t) log_run now s log ≡ log ++ due now s.tasks
  unfolding tick get_tasks
  tick-due now s log = run_due-due now s.tasks log

module _ {I : Type 0} (dec : Discrete I) where
  -- How often an identifier stands in the list.
  unfoldable pub count : I → List (Task I) → ℕ
  count id [] = 0
  count id (t ∷ ts) = ite (dec t.id id) (suc (count id ts)) (count id ts)

  count-append :
      (q : I) (t : Task I) (ts : List (Task I))
      → count q (ts ++ t ∷ []) ≡ ite (dec t.id q) (suc (count q ts)) (count q ts)
  unfolding count
  count-append q t [] = refl
  count-append q t (u ∷ ts) = ground (arith, count-append q t ts)

  count-remove_first :
      (id q : I) (ts : List (Task I))
      → count q (remove_first dec id ts) ≡ ite (dec id q) (count q ts - 1) (count q ts)
  unfolding count remove_first
  count-remove_first id q [] = ground arith
  count-remove_first id q (t ∷ ts) = ground (arith, count-remove_first id q ts)

  -- Removing an identifier takes one of the tasks that have it, where there is one, and leaves the
  -- number of the others; adding a task adds one to its own.
  pub count-remove_task :
      (id q : I) (t : Task I) (s : Scheduler I)
      → (count q (remove_task dec id s).tasks
          ≡ ite (dec id q) (count q s.tasks - 1) (count q s.tasks))
        × (count q (add_task t s).tasks
            ≡ ite (dec t.id q) (suc (count q s.tasks)) (count q s.tasks))
  unfolding remove_task add_task
  count-remove_task id q t s = (count-remove_first id q s.tasks, count-append q t s.tasks)

pub data Op : Type 0 where
  start_op : Op
  stop_op : Op

-- The list without a number.
unfoldable pub without : ℕ → List ℕ → List ℕ
without n [] = []
without n (m ∷ ms) = let rest = without n ms in if m == n then rest else m ∷ rest

module _ {I : Type 0} where
  -- The scheduler with the runs whose loops have not been told to stop.
  unfoldable pub step : Op → Scheduler I × List ℕ → Scheduler I × List ℕ
  step start_op (s, live) = let (s1, fresh) = start s in (s1, if fresh then s.runs ∷ live else live)
  step stop_op (s, live) =
      let (s1, stopped) = stop_run s in (s1, elim stopped [ none ↦ live | some n ↦ without n live ])

  unfoldable pub steps : List Op → Scheduler I × List ℕ → Scheduler I × List ℕ
  steps [] p = p
  steps (o ∷ os) p = steps os (step o p)

  -- The runs that there should be: the one whose channel the scheduler has, while it is started.
  unfoldable pub expected : Scheduler I → List ℕ
  expected s = if s.started then elim s.stop [ none ↦ [] | some n ↦ n ∷ [] ] else []

  step-expected :
      (o : Op) (p : Scheduler I × List ℕ)
      → p.1 ≡ expected p.0
      → (step o p).1 ≡ expected (step o p).0
  unfolding step expected start stop_run without
  step-expected start_op (s, live) h = ground arith
  step-expected stop_op (s, live) h = ground arith

  -- However often the scheduler is started and stopped, by calls of which each returns before the
  -- next begins, at most one loop runs: none while it is not started, and while it is, the one that
  -- the next `Stop` ends.
  pub steps-expected :
      (os : List Op) (p : Scheduler I × List ℕ)
      → p.1 ≡ expected p.0
      → (steps os p).1 ≡ expected (steps os p).0
  unfolding steps
  steps-expected [] p h = h
  steps-expected (o ∷ os) p h = steps-expected os (step o p) (step-expected o p h)
