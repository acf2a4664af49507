-- ===== src/WorkerPool/Growth.antt =====
-- How many workers a pool has: the autoscaler, `Resize` and repeated starts.
use huba.Common.{
  ℕ, zero, suc, ◌+◌, ◌-◌, ◌*◌, ◌≡◌, refl, true, false, ◌&&◌, List, [], ◌∷◌, arith, ltb,
  if◌then◌else◌, length,
}
use Prim.Native.Nat.{min}
use huba.Common.Int.{ℤ}
use huba.WorkerPool.Types.{Pool}
use huba.WorkerPool.Setup.{clamp_min, clamp_max}
use huba.WorkerPool.Scaling.{start_worker, start_workers, start, min_of, adjust_workers, resize}
use huba.WorkerPool.Control.{pause}
use huba.WorkerPool.Schedule.{Action, starts, pauses, step, after, run}

module _ {V : Type 0} where
  -- Starting workers changes the worker count and nothing that the scaling reads.
  start_workers_lem :
      (n : ℕ) (p : Pool V)
      → let q = start_workers n p in
        (q.active_workers ≡ p.active_workers + n)
        × (q.config ≡ p.config)
        × (q.is_running ≡ p.is_running)
        × (q.task_queue ≡ p.task_queue)
  unfolding start_workers start_worker
  start_workers_lem zero p = (omega arith, refl, refl, refl)
  start_workers_lem (suc n) p =
      let (a, c, r, t) = start_workers_lem n (start_worker p) in (omega arith, c, r, t)

  -- One round of the autoscaler on a running pool whose queue is longer than its number of workers
  -- brings the number to twice as many, but not above `max_workers` where it was not above; in
  -- every other state the round leaves the number as it is.
  pub adjust_workers_count :
      (p : Pool V)
      → (adjust_workers p).active_workers ≡ (
          if p.is_running
            && (ltb p.active_workers (length p.task_queue.items)
                && ltb p.active_workers p.max_workers)
          then min (2 * p.active_workers) p.max_workers
          else p.active_workers)
  unfolding adjust_workers
  adjust_workers_count p =
      ground
        (arith, start_workers_lem (min_of p.active_workers (p.max_workers - p.active_workers)) p)

  -- A pool all of whose workers have died gets none back from the autoscaler, however long its
  -- queue is.
  pub adjust_workers_none_left :
      (p : Pool V) → p.active_workers ≡ 0 → (adjust_workers p).active_workers ≡ 0
  adjust_workers_none_left p h = ground (arith, adjust_workers_count p)

  -- `Resize` sets the clamped bounds, starts the workers that are missing to the new minimum, and
  -- stops none: the count is the larger of the old one and the new minimum.
  resize_lem :
      (a b : ℤ) (p : Pool V)
      → let q = resize a b p in
        (q.min_workers ≡ clamp_min a)
        × (q.max_workers ≡ clamp_max (clamp_min a) b)
        × (q.active_workers
            ≡ (if ltb p.active_workers (clamp_min a) then clamp_min a else p.active_workers))
  unfolding resize
  resize_lem a b p = ground (
    arith,
    start_workers_lem (clamp_min a - p.active_workers) (record p {
      config = record (p.config) {
        min_workers = clamp_min a;
        max_workers = clamp_max (clamp_min a) b;
      };
    }),
  )

  pub start_again :
      (p : Pool V)
      → p.is_running ≡ true
      → let q = start (pause p) in
        (q.is_running ≡ true)
        × (q.active_workers ≡ p.active_workers + p.min_workers)
        × (q.config ≡ p.config)
  unfolding start pause
  start_again p h = ground (
    arith,
    start_workers_lem p.min_workers
        (record (record p { is_running = false }) { is_running = true }),
  )

  abbrev pub pause_start : ℕ → List (Action V)
  pause_start zero = []
  pause_start (suc n) = pauses ∷ starts ∷ pause_start n

  -- Each `Pause` followed by `Start` on a running pool adds `min_workers` workers to those that
  -- are still alive, without regard to `max_workers`.
  pub pause_start_grows :
      (n : ℕ) (p : Pool V)
      → p.is_running ≡ true
      → (run (pause_start n) p).active_workers ≡ p.active_workers + n * p.min_workers
  unfolding run after step
  pause_start_grows zero p h = omega arith
  pause_start_grows (suc n) p h =
      let (r, a, c) = start_again p h in grind (arith, pause_start_grows n (start (pause p)) r)
