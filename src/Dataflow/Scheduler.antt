-- ===== src/Dataflow/Scheduler.antt =====
-- pkg/dataflow/task/scheduler.go: the list of tasks, and the loop that runs those that are due once
-- a second. A task is its identifier and its handle; what `Next` answers is a parameter, an instant
-- with 0 for the zero time, and so is what `Run` does. The stop channel is the number of the run
-- that waits on it: each `Start` makes a new one.
pub mod Ticks
use net_flux.Base.{
  ℕ, ◌+◌, ◌≤◌, ◌<◌, Bool, true, false, ◌&&◌, not, Option, none, some, List, [], ◌∷◌, ◌++◌, length,
  ltb, leb, ◌==◌, if◌then◌else◌,
}
use mathlib.Core.Logic.{ite}
use net_flux.Base.Int.{ℤ, pos, negsuc}

pub record Task (I : Type 0) : Type 0 where
  pub id : I
  pub handle : ℕ

pub record Scheduler (I : Type 0) : Type 0 where
  pub stop : Option ℕ
  pub runs : ℕ
  pub started : Bool
  pub tasks : List (Task I)

-- `!next.IsZero() && next.After(now)`
unfoldable pub is_later : ℕ → ℤ → Bool
is_later now (pos next) = not (next == 0) && ltb now next
is_later now (negsuc next) = false

module _ {I : Type 0} where
  unfoldable pub new_scheduler : Scheduler I
  new_scheduler = record { stop = none; runs = 0; started = false; tasks = [] }

  unfoldable pub add_task : Task I → Scheduler I → Scheduler I
  add_task task s = record s { tasks = s.tasks ++ task ∷ [] }

  unfoldable pub get_tasks : Scheduler I → List (Task I)
  get_tasks s = s.tasks

  -- The first task with the identifier goes.
  unfoldable pub remove_first : Discrete I → I → List (Task I) → List (Task I)
  remove_first dec id [] = []
  remove_first dec id (t ∷ ts) = ite (dec t.id id) ts (t ∷ remove_first dec id ts)

  unfoldable pub remove_task : Discrete I → I → Scheduler I → Scheduler I
  remove_task dec id s = record s { tasks = remove_first dec id s.tasks }

  -- `false` where Go returns the error "task manager already started".
  unfoldable pub start : Scheduler I → Scheduler I × Bool
  start s =
      if s.started
      then (s, false)
      else (record s { stop = some s.runs; runs = s.runs + 1; started = true }, true)

  -- The channel that is closed, whose run returns before `Stop` does. Go gives the lock back before
  -- it closes the channel and waits; here it is one step, which no other call comes into.
  unfoldable pub stop_run : Scheduler I → Scheduler I × Option ℕ
  stop_run s = if not s.started then (s, none) else (record s { started = false }, s.stop)

  -- What happens at a tick: `Next` is asked of each task in turn and the due ones run. A task's
  -- `Run` may do anything to the state that its `Next` and those of the others read.
  unfoldable pub run_due :
      {S : Type 0} → (Task I → S → ℤ) → (Task I → S → S) → ℕ → List (Task I) → S → S
  run_due next run_task now [] s = s
  run_due next run_task now (t ∷ ts) s =
      run_due next run_task now ts (if is_later now (next t s) then s else run_task t s)

  -- One tick of `run`: a copy of the tasks of this moment.
  unfoldable pub tick : {S : Type 0} → (Task I → S → ℤ) → (Task I → S → S) → ℕ → Scheduler I → S → S
  tick next run_task now sched s = run_due next run_task now (get_tasks sched) s
