-- ===== src/WorkerPool/Control.antt =====
-- workerpool/workerpool..go: `Stop`, `StopAndWait`, `Pause`, `Resume`, `Drain`, `Stats`, `Wait`, `Size`
-- and the results channel.
use huba.Common.{
  ℕ, zero, suc, ◌+◌, ◌-◌, String, Bool, true, false, not, ◌&&◌, Option, none, some, List, [], ◌∷◌,
  ltb, ◌==◌, if◌then◌else◌, length,
}
use huba.Common.Int.{ℤ}
use huba.WorkerPool.Types.{
  Pool, Chan, Task, Result, Shutdown, not_begun, clearing, receiving, waiting, finished,
}

module _ {V : Type 0} where
  stop_once : Shutdown → Pool V → Pool V
  stop_once not_begun p =
      if p.is_running
      then record p { is_running = false; cancelled = true; shutdown = clearing }
      else record p { shutdown = finished }
  stop_once _ p = p

  -- `Stop`, up to the head of the loop that clears the queue. `shutdownOnce` is used up also
  -- where the guarded function returns at once.
  unfoldable pub stop : Pool V → Pool V
  unfolding stop_once
  stop p = stop_once p.shutdown p

  receive_one : List (Task V) → Pool V → Option (Pool V)
  receive_one [] p = none
  receive_one (t ∷ rest) p =
      some (record p { task_queue = record (p.task_queue) { items = rest }; shutdown = clearing })

  stop_step_of : Shutdown → Pool V → Option (Pool V)
  unfolding receive_one
  stop_step_of clearing p = some (
      if ltb 0 (length p.task_queue.items)
      then record p { shutdown = receiving }
      else record p { shutdown = waiting })
  stop_step_of receiving p = receive_one p.task_queue.items p
  stop_step_of waiting p =
      if p.wg == 0
      then some (record p {
        task_queue = record (p.task_queue) { closed = true };
        result_chan = record (p.result_chan) { closed = true };
        shutdown = finished;
      })
      else none
  stop_step_of _ p = none

  -- The rest of `Stop`, a step at a time: the test of the loop, the receive in its body, and
  -- `wg.Wait` with the two `close` calls.
  unfoldable pub stop_step : Pool V → Option (Pool V)
  unfolding stop_step_of
  stop_step p = stop_step_of p.shutdown p

  -- `StopAndWait`, up to its polling loop.
  unfoldable pub stop_and_wait : Pool V → Pool V
  stop_and_wait p =
      if p.is_running then record p { is_running = false; polling = p.polling + 1 } else p

  -- A polling `StopAndWait` sees the queue empty and calls `Stop`.
  unfoldable pub stop_when_empty : Pool V → Option (Pool V)
  unfolding stop
  stop_when_empty p =
      if ltb 0 p.polling && length p.task_queue.items == 0
      then some (stop (record p { polling = p.polling - 1 }))
      else none

  unfoldable pub pause : Pool V → Pool V
  pause p = if not p.is_running then p else record p { is_running = false }

  unfoldable pub resume : Pool V → Pool V
  resume p = if p.is_running then p else record p { is_running = true }

  -- One round of the loop of `Drain`: a receive on a closed channel succeeds at once, so only an
  -- open and empty one ends the loop.
  unfoldable pub drain_loop : ℕ → ℕ → Chan (Task V) → Option (Chan (Task V) × ℕ)
  drain_loop zero count c = none
  drain_loop (suc fuel) count c = elim c.items [
    | [] ↦ elim c.closed [ true ↦ drain_loop fuel (count + 1) c | false ↦ some (c, count) ]
    | t ∷ rest ↦ drain_loop fuel (count + 1) (record c { items = rest })
  ]

  -- With fuel for the rounds; `none` means that the fuel ran out.
  unfoldable pub drain : ℕ → Pool V → Option (Pool V × ℕ)
  unfolding drain_loop
  drain fuel p = elim (drain_loop fuel 0 p.task_queue) [
    | none ↦ none
    | some (c, count) ↦ some (record p { task_queue = c }, count)
  ]

  receive_result : List (Result V) → Pool V → Option (Pool V × Result V)
  receive_result [] p = none
  receive_result (r ∷ rest) p =
      some (record p { result_chan = record (p.result_chan) { items = rest } }, r)

  -- A receive on the channel that `Results` returns.
  unfoldable pub take_result : Pool V → Option (Pool V × Result V)
  unfolding receive_result
  take_result p = receive_result p.result_chan.items p

  -- `Wait` returns.
  unfoldable pub can_return_from_wait : Pool V → Bool
  can_return_from_wait p = p.wg == 0

  unfoldable pub size : Pool V → ℕ
  size p = p.active_workers

pub record Stats : Type 0 where
  pub name : String
  pub is_running : Bool
  pub min_workers : ℕ
  pub max_workers : ℕ
  pub active_workers : ℕ
  pub queue_capacity : ℤ
  pub queue_size : ℕ
  pub total_tasks : ℕ
  pub completed_tasks : ℕ
  pub failed_tasks : ℕ

unfoldable pub stats : {V : Type 0} → Pool V → Stats
stats p = record {
  name = p.name;
  is_running = p.is_running;
  min_workers = p.min_workers;
  max_workers = p.max_workers;
  active_workers = p.active_workers;
  queue_capacity = p.queue_capacity;
  queue_size = length p.task_queue.items;
  total_tasks = p.total_tasks;
  completed_tasks = p.completed_tasks;
  failed_tasks = p.failed_tasks;
}
