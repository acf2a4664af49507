-- ===== src/WorkerPool/Scaling.antt =====
-- workerpool/workerpool..go: starting workers (`startWorker`, `Start`), the autoscaler
-- (`adjustWorkers`) and `Resize`.

use huba.Common.{ℕ, zero, suc, ◌+◌, ◌-◌, true, not, ◌&&◌, [], ◌∷◌, ◌++◌, length, ltb, if◌then◌else◌}
use huba.Common.Int.{ℤ}
use huba.WorkerPool.Types.{Pool, idle}
use huba.WorkerPool.Setup.{clamp_min, clamp_max}

-- The source's `min`, on numbers that are not negative where it is called.
unfoldable pub min_of : ℕ → ℕ → ℕ
min_of a b = if ltb a b then a else b

module _ {V : Type 0} where
  unfoldable pub start_worker : Pool V → Pool V
  start_worker p = record p {
    wg = p.wg + 1;
    active_workers = p.active_workers + 1;
    workers = p.workers ++ idle ∷ [];
  }

  -- `for i := 0; i < n; i++ { wp.startWorker() }`
  unfoldable pub start_workers : ℕ → Pool V → Pool V
  unfolding start_worker
  start_workers zero p = p
  start_workers (suc n) p = start_workers n (start_worker p)

  unfoldable pub start : Pool V → Pool V
  start p =
      if p.is_running
      then p
      else let q = start_workers p.min_workers (record p { is_running = true }) in
        if q.auto_scale then record q { scalers = q.scalers + 1 } else q

  -- The scale-down branch of the source computes a number and drops it.
  unfoldable pub adjust_workers : Pool V → Pool V
  unfolding min_of
  adjust_workers p =
      if not p.is_running
      then p
      else if ltb p.active_workers (length p.task_queue.items) && ltb p.active_workers p.max_workers
      then start_workers (min_of p.active_workers (p.max_workers - p.active_workers)) p
      else p

  unfoldable pub resize : ℤ → ℤ → Pool V → Pool V
  resize min_workers max_workers p =
      let lo = clamp_min min_workers in
      let q = record p {
        config = record (p.config) { min_workers = lo; max_workers = clamp_max lo max_workers };
      } in
      if ltb q.active_workers lo then start_workers (lo - q.active_workers) q else q
