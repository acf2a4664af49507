-- ===== src/WorkerPool/Workers.antt =====
-- workerpool/workerpool..go: `worker`, one step for each point where the goroutine waits, and the
-- deferred calls of `startWorker`. `none` is a step that cannot be taken now.
use huba.Common.{
  ℕ, ◌-◌, String, Option, none, some, List, [], ◌∷◌, ◌++◌, if◌then◌else◌, is_some, get_elem?, set,
  erase_idx,
}
use huba.Common.Int.{ℤ, is_positive, sub_ℕ}
use huba.WorkerPool.Types.{
  Pool, Task, TaskFunc, Result, Worker, idle, executing, sending, Outcome, returns, panics, inc64,
  has_room,
}

-- The time limit of the context of a task: its own, or the pool's default, or none.
unfoldable pub time_limit : ℤ → ℤ → Option ℤ
time_limit timeout default_timeout =
    if is_positive timeout
    then some timeout
    else if is_positive default_timeout
    then some default_timeout
    else none

module _ {V : Type 0} where
  -- `task.Execute(taskCtx)`; a call of a nil function panics.
  unfoldable pub call : Option (TaskFunc V) → Option ℤ → Outcome V
  call none limit = panics "invalid memory address or nil pointer dereference"
  call (some f) limit = f limit

  unfoldable pub put_worker : ℕ → Worker V → Pool V → Pool V
  put_worker i w p = record p { workers = set p.workers i w }

  -- `defer atomic.AddInt32(&wp.activeWorkers, -1)` and `defer wp.wg.Done()`
  unfoldable pub exit_worker : ℕ → Pool V → Pool V
  exit_worker i p = record p {
    workers = erase_idx p.workers i;
    active_workers = p.active_workers - 1;
    wg = p.wg - 1;
  }

  -- The deferred `recover`: the handler is told, if there is one, and the goroutine ends.
  unfoldable pub recover_worker : ℕ → String → Pool V → Pool V
  unfolding exit_worker
  recover_worker i message p =
      exit_worker i
        (if p.panic_handler then record p { recovered = p.recovered ++ message ∷ [] } else p)

  take_next : ℕ → ℕ → List (Task V) → Pool V → Option (Pool V)
  unfolding put_worker exit_worker
  take_next i now [] p = if p.task_queue.closed then some (exit_worker i p) else none
  take_next i now (t ∷ rest) p = some (
      put_worker i (executing t now)
        (record p { task_queue = record (p.task_queue) { items = rest } }))

  take_of : ℕ → ℕ → Option (Worker V) → Pool V → Option (Pool V)
  unfolding take_next
  take_of i now (some idle) p = take_next i now p.task_queue.items p
  take_of i now _ p = none

  -- `case task, ok := <-wp.taskQueue`
  unfoldable pub take_task : ℕ → ℕ → Pool V → Option (Pool V)
  unfolding take_of
  take_task i now p = take_of i now (get_elem? p.workers i) p

  quit_of : ℕ → Option (Worker V) → Pool V → Option (Pool V)
  unfolding exit_worker
  quit_of i (some idle) p = if p.cancelled then some (exit_worker i p) else none
  quit_of i _ p = none

  -- `case <-wp.ctx.Done()` at the head of the loop
  unfoldable pub quit : ℕ → Pool V → Option (Pool V)
  unfolding quit_of
  quit i p = quit_of i (get_elem? p.workers i) p

  -- The counters after a call that returned.
  unfoldable pub count_returned : Option String → Pool V → Pool V
  count_returned e p = record p {
    failed_tasks = if is_some e then inc64 p.failed_tasks else p.failed_tasks;
    completed_tasks = inc64 p.completed_tasks;
  }

  unfoldable pub result_of : Task V → ℕ → ℕ → V → Option String → Result V
  result_of t start_time end_time v e = record {
    task_id = t.id;
    value = v;
    error = e;
    start_time = start_time;
    end_time = end_time;
    duration = sub_ℕ end_time start_time;
  }

  finish_with : ℕ → Task V → ℕ → ℕ → Outcome V → Pool V → Pool V
  unfolding put_worker count_returned recover_worker
  finish_with i t start_time now (returns v e) p =
      put_worker i (sending (result_of t start_time now v e)) (count_returned e p)
  finish_with i t start_time now (panics message) p = recover_worker i message p

  finish_of : ℕ → ℕ → Option (Worker V) → Pool V → Option (Pool V)
  unfolding finish_with
  finish_of i now (some (executing t start_time)) p =
      some (finish_with i t start_time now (call t.execute (time_limit t.timeout p.task_timeout)) p)
  finish_of i now _ p = none

  -- `task.Execute` returns or panics.
  unfoldable pub finish_task : ℕ → ℕ → Pool V → Option (Pool V)
  unfolding finish_of
  finish_task i now p = finish_of i now (get_elem? p.workers i) p

  send_of : ℕ → Option (Worker V) → Pool V → Option (Pool V)
  unfolding put_worker recover_worker
  send_of i (some (sending r)) p =
      if p.result_chan.closed
      then some (recover_worker i "send on closed channel" p)
      else if has_room p.result_chan
      then some (
          put_worker i idle (record p {
            result_chan = record (p.result_chan) { items = p.result_chan.items ++ r ∷ [] };
          }))
      else none
  send_of i _ p = none

  -- `case wp.resultChan <- taskResult`
  unfoldable pub send_result : ℕ → Pool V → Option (Pool V)
  unfolding send_of
  send_result i p = send_of i (get_elem? p.workers i) p

  drop_of : ℕ → Option (Worker V) → Pool V → Option (Pool V)
  unfolding exit_worker
  drop_of i (some (sending r)) p = if p.cancelled then some (exit_worker i p) else none
  drop_of i _ p = none

  -- `case <-wp.ctx.Done()` of the `select` that sends
  unfoldable pub drop_result : ℕ → Pool V → Option (Pool V)
  unfolding drop_of
  drop_result i p = drop_of i (get_elem? p.workers i) p
