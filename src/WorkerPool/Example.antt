-- ===== src/WorkerPool/Example.antt =====
-- workerpool/example/main.go: a program that submits a task at each tick until a signal comes and then
-- calls `StopAndWait`. The random durations and failures are parts of the events; the goroutine that
-- logs the results is the pool's `client_receives`.
use huba.Common.{
  ℕ, ◌+◌, ◌*◌, String, ◌<>◌, Bool, true, false, Option, none, some, List, [], ◌∷◌, leb,
  if◌then◌else◌,
}
use huba.Common.Int.{ℤ, pos, negsuc}
use huba.Common.Decimal.{format_int}
use huba.WorkerPool.Types.{Outcome, returns, Pool, Task}
use huba.WorkerPool.Setup.{
  Setting, with_name, with_queue_capacity, with_auto_scaling, with_default_task_timeout, second,
  new_worker_pool,
}
use huba.WorkerPool.Schedule.{Action, submits, waits_to_stop, step, after}
use huba.WorkerPool.Scaling.{start}

unfoldable pub settings : List Setting
settings =
    with_name "my-service-pool"
    ∷ with_queue_capacity (pos 1000)
    ∷ with_auto_scaling
    ∷ with_default_task_timeout (pos (10 * second))
    ∷ []

-- The context is done before the wait ends.
unfoldable pub ends_first : Option ℤ → ℕ → Bool
ends_first none duration = false
ends_first (some (pos n)) duration = leb n duration
ends_first (some (negsuc n)) duration = true

-- The task function: it waits for the duration, unless its context ends before.
unfoldable pub simulate : String → ℕ → Bool → Option ℤ → Outcome (Option String)
unfolding ends_first
simulate task_id duration should_fail limit =
    if ends_first limit duration
    then returns none (some "context deadline exceeded")
    else if should_fail
    then returns none (some "simulated failure")
    else returns (some ("processed " <> task_id)) none

unfoldable pub task_id : ℕ → String
task_id count = "task-" <> format_int (pos count)

unfoldable pub make_task : ℕ → ℕ → Bool → Task (Option String)
unfolding simulate task_id
make_task count duration should_fail = record {
  id = task_id count;
  execute = some (simulate (task_id count) duration should_fail);
  timeout = pos 0;
}

-- What the `select` of the loop receives, and what else happens in the pool. The first argument of
-- `ticker` is the choice of `Submit` between two ready cases.
pub data Event : Type 0 where
  ticker : Bool → ℕ → Bool → Event
  stats_ticker shutdown : Event
  others : Action (Option String) → Event

-- `stopping`: the loop has ended, and `main` is in `StopAndWait`.
pub record Program : Type 0 where
  pub pool : Pool (Option String)
  pub task_count : ℕ
  pub stopping : Bool

unfoldable pub started : Option Program
unfolding settings
started = elim (new_worker_pool (pos 5) (pos 20) settings) [
  | none ↦ none
  | some p ↦ some (record { pool = start p; task_count = 0; stopping = false })
]

abbrev pub act : Action (Option String) → Program → Program
act a d = record d { pool = after (step a d.pool) d.pool }

unfoldable pub handle : Event → Program → Program
unfolding make_task
handle (ticker prefer_done duration should_fail) d =
    if d.stopping
    then d
    else record (act (submits prefer_done (make_task d.task_count duration should_fail)) d) {
      task_count = d.task_count + 1;
    }
handle stats_ticker d = d
handle shutdown d = if d.stopping then d else record (act waits_to_stop d) { stopping = true }
handle (others a) d = act a d

unfoldable pub handle_all : List Event → Program → Program
handle_all [] d = d
handle_all (e ∷ rest) d = handle_all rest (handle e d)
