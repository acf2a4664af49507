-- ===== src/WorkerPool/Draining.antt =====
-- `Drain`, whose loop ends only at an open and empty queue.
use huba.Common.{
  ℕ, zero, suc, ◌+◌, ◌<◌, ◌≡◌, inl, inr, false, none, some, [], arith, if◌then◌else◌, Bool-cases,
  length,
}
use mathlib.Core.List.{tail}
use huba.WorkerPool.Types.{Pool, Task, Chan}
use huba.WorkerPool.Control.{drain, drain_loop}
use huba.WorkerPool.Accounting.Steps.{drain_loop_closed}

module _ {V : Type 0} where
  drain_loop_empties :
      (fuel n : ℕ) (c : Chan (Task V))
      → c.closed ≡ false
      → length c.items < fuel
      → drain_loop fuel n c ≡ some (record c { items = [] }, n + length c.items)
  unfolding drain_loop
  drain_loop_empties zero n c o h = absurd (omega arith)
  drain_loop_empties (suc fuel) n c o h =
      ground (arith, drain_loop_empties fuel (n + 1) (record c { items = tail c.items }) o)

  -- While the queue is open, `Drain` ends after one round more than there are tasks, returns their
  -- number, and leaves the queue empty and everything else as it was. Once the queue is closed,
  -- neither that many rounds nor any more are enough: `Drain` never returns.
  pub drain_lem :
      (p : Pool V) (extra : ℕ)
      → drain (length p.task_queue.items + 1 + extra) p ≡ (
          if p.task_queue.closed
          then none
          else some (
            record p { task_queue = record (p.task_queue) { items = [] } },
            length p.task_queue.items,
          ))
  unfolding drain
  drain_lem p extra = elim (Bool-cases p.task_queue.closed) [
    | inl closed ↦
        ground
          (arith, drain_loop_closed (length p.task_queue.items + 1 + extra) 0 p.task_queue closed)
    | inr still ↦ ground (
      arith,
      drain_loop_empties (length p.task_queue.items + 1 + extra) 0 p.task_queue still (omega arith),
    )
  ]
