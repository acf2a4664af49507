-- ===== src/WorkerPool/Submit.antt =====
-- workerpool/workerpool..go: `Submit`. Where both cases of its `select` are ready, the runtime
-- chooses: `prefer_done` is that choice.
use huba.Common.{
  ℕ, Bool, not, ◌&&◌, ◌||◌, String, ◌<>◌, [], ◌∷◌, ◌++◌, is_some, str_eq, if◌then◌else◌, Option,
  some, none, erase_idx, get_elem?,
}
use huba.Common.Int.{int64_of_bits}
use huba.Common.Decimal.{format_int}
use huba.WorkerPool.Types.{Pool, Task, inc64, has_room}

-- `accepted` is a nil error, with the id under which the task was queued; `panicked` is the panic
-- of a send on a closed channel.
pub data Submitted : Type 0 where
  accepted : String → Submitted
  refused : String → Submitted
  panicked : Submitted

-- How the check of `Submit` ends: with an answer, or with the task to send, under its id.
pub data Checked (V : Type 0) : Type 0 where
  answered : Submitted → Checked V
  passed : Task V → Checked V

-- The id that a task without one is given.
unfoldable pub generated_id : ℕ → String
unfolding format_int
generated_id n = "task-" <> format_int (int64_of_bits n)

module _ {V : Type 0} where
  unfoldable pub name_task : Task V → Pool V → Pool V × Task V
  unfolding generated_id
  name_task t p =
      if str_eq t.id ""
      then (
        record p { total_tasks = inc64 p.total_tasks },
        record t { id = generated_id (inc64 p.total_tasks) },
      )
      else (p, t)

  unfoldable pub enqueue : Task V → Pool V → Pool V
  enqueue t p = record p {
    task_queue = record (p.task_queue) { items = p.task_queue.items ++ t ∷ [] };
  }

  unfoldable pub offer : Bool → Task V → Pool V → Pool V × Submitted
  unfolding enqueue
  offer prefer_done t p =
      let can_send = p.task_queue.closed || has_room p.task_queue in
      if p.cancelled && (prefer_done || not can_send)
      then (p, refused "worker pool is shutting down")
      else if p.task_queue.closed
      then (p, panicked)
      else if has_room p.task_queue
      then (enqueue t p, accepted t.id)
      else (p, refused "task queue is full")

  -- The part of `Submit` before its `select`, which ends with the test of `isRunning` under the lock.
  unfoldable pub check_task : Task V → Pool V → Pool V × Checked V
  check_task t p =
      if not (is_some t.execute)
      then (p, answered (refused "task function cannot be nil"))
      else let (q, named) = name_task t p in
        if not q.is_running
        then (q, answered (refused "worker pool is not running"))
        else (q, passed named)

  unfoldable pub offer_checked : Bool → Checked V → Pool V → Pool V × Submitted
  offer_checked prefer_done (answered r) p = (p, r)
  offer_checked prefer_done (passed t) p = offer prefer_done t p

  -- A `Submit` with nothing between its check and its `select`.
  unfoldable pub submit : Bool → Task V → Pool V → Pool V × Submitted
  unfolding check_task offer_checked
  submit prefer_done t p = let (q, c) = check_task t p in offer_checked prefer_done c q

  keep_checked : Checked V → Pool V → Pool V
  keep_checked (answered r) p = p
  keep_checked (passed t) p = record p { submitting = p.submitting ++ t ∷ [] }

  -- A `Submit` up to its `select`.
  unfoldable pub begin_submit : Task V → Pool V → Pool V
  unfolding check_task keep_checked
  begin_submit t p = let (q, c) = check_task t p in keep_checked c q

  offer_of : Bool → Option (Task V) → ℕ → Pool V → Option (Pool V × Submitted)
  offer_of prefer_done none i p = none
  offer_of prefer_done (some t) i p =
      some (offer prefer_done t (record p { submitting = erase_idx p.submitting i }))

  -- The `select` of a `Submit` that has found the pool running; the calls are told apart by their
  -- position.
  unfoldable pub end_submit : ℕ → Bool → Pool V → Option (Pool V × Submitted)
  unfolding offer_of
  end_submit i prefer_done p = offer_of prefer_done (get_elem? p.submitting i) i p
