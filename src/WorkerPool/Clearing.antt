-- ===== src/WorkerPool/Clearing.antt =====
-- workerpool/workerpool..go: the loop of `Stop` that clears the queue, alone and beside others.
use huba.Common.{
  ℕ, zero, suc, ◌+◌, ◌*◌, ◌≡◌, refl, inl, inr, Bool, true, false, some, List, [], arith, Bool-cases,
  Option-cases, length, replicate, All,
}
use huba.Common.Int.{ℤ}
use mathlib.Core.List.{tail}
use huba.WorkerPool.Accounting.Tallies.{start_workers-queue}
use huba.WorkerPool.Accounting.Steps.{drain_loop_closed, drain_loop_counts}
use huba.WorkerPool.Types.{Pool, Task, clearing, receiving, waiting}
use huba.WorkerPool.Scaling.{start_worker, start_workers, adjust_workers, resize}
use huba.WorkerPool.Submit.{name_task, submit, begin_submit, end_submit}
use huba.WorkerPool.Workers.{take_task, quit, finish_task, send_result, drop_result}
use huba.WorkerPool.Control.{
  stop, stop_step, stop_and_wait, stop_when_empty, pause, drain, drain_loop, take_result,
}
use huba.WorkerPool.Schedule.{
  Action, starts, stops, stop_proceeds, waits_to_stop, poll_ends, pauses, resumes, drains, submits,
  submit_checks, submit_offers, resizes, scaler_ticks, scaler_quits, client_receives, worker_takes,
  worker_finishes, worker_quits, worker_sends, worker_drops, step, run, after, scaler_tick,
  state_of,
}
use huba.WorkerPool.Shutdown.{quiet-signals, run_keeps}
use huba.WorkerPool.Stopping.{keeps_stopped}

module _ {V : Type 0} where
  -- `Stop` is at the receive in the body of its clearing loop, the queue is empty, and no `Submit` is
  -- between its check and its `select`.
  abbrev pub IsStuck : Pool V → Type 0
  IsStuck p =
      (p.shutdown ≡ receiving)
      × (p.is_running ≡ false)
      × (p.task_queue.items ≡ [])
      × (p.submitting ≡ [])

  stopped-submit :
      (p : Pool V) (b : Bool) (t : Task V)
      → p.is_running ≡ false
      → ((submit b t p).0.task_queue ≡ p.task_queue) × ((submit b t p).0.submitting ≡ p.submitting)
  unfolding submit name_task
  stopped-submit p b t h = ground arith

  stopped-begin_submit :
      (p : Pool V) (t : Task V)
      → p.is_running ≡ false
      → ((begin_submit t p).task_queue ≡ p.task_queue)
        × ((begin_submit t p).submitting ≡ p.submitting)
  unfolding begin_submit name_task
  stopped-begin_submit p t h = ground arith

  start_workers-submitting : (n : ℕ) (p : Pool V) → (start_workers n p).submitting ≡ p.submitting
  unfolding start_workers start_worker
  start_workers-submitting zero p = refl
  start_workers-submitting (suc n) p = start_workers-submitting n (start_worker p)

  resize-queue :
      (p : Pool V) (a b : ℤ)
      → ((resize a b p).task_queue ≡ p.task_queue) × ((resize a b p).submitting ≡ p.submitting)
  unfolding resize
  resize-queue p a b = grind (arith, start_workers-queue, start_workers-submitting)

  scaler-queue :
      (p q : Pool V)
      → scaler_tick p ≡ some q
      → (q.task_queue ≡ p.task_queue) × (q.submitting ≡ p.submitting)
  unfolding scaler_tick adjust_workers
  scaler-queue p q e = grind (arith, start_workers-queue, start_workers-submitting)

  drained-IsStuck :
      (p q : Pool V) (fuel : ℕ) → state_of (drain fuel p) ≡ some q → IsStuck p → IsStuck q
  unfolding drain
  drained-IsStuck p q fuel e v = elim (Bool-cases p.task_queue.closed) [
    | inl closed ↦ absurd (ground (arith, drain_loop_closed fuel 0 p.task_queue closed))
    | inr still ↦ elim (Option-cases (drain_loop fuel 0 p.task_queue)) [
      | inl l ↦ absurd (ground arith)
      | inr (r, l) ↦ ground (arith, drain_loop_counts fuel 0 p.task_queue r.0 r.1 still l)
    ]
  ]

  step-IsStuck :
      (a : Action V) (p q : Pool V)
      → keeps_stopped a ≡ true
      → step a p ≡ some q
      → IsStuck p
      → IsStuck q
  unfolding step stop_step stop stop_and_wait stop_when_empty pause take_task quit finish_task
      send_result drop_result take_result end_submit
  step-IsStuck starts p q h e v = cc
  step-IsStuck resumes p q h e v = cc
  step-IsStuck stops p q h e v = ground arith
  step-IsStuck stop_proceeds p q h e v = ground arith
  step-IsStuck waits_to_stop p q h e v = ground arith
  step-IsStuck poll_ends p q h e v = ground arith
  step-IsStuck pauses p q h e v = ground arith
  step-IsStuck drains p q h e v = drained-IsStuck p q _ e v
  step-IsStuck (submits b t) p q h e v =
      ground (arith, stopped-submit p b t, quiet-signals (submits b t) p q refl e)
  step-IsStuck (submit_checks t) p q h e v =
      ground (arith, stopped-begin_submit p t, quiet-signals (submit_checks t) p q refl e)
  step-IsStuck (submit_offers i b) p q h e v = ground arith
  step-IsStuck (resizes a b) p q h e v =
      ground (arith, resize-queue p a b, quiet-signals (resizes a b) p q refl e)
  step-IsStuck scaler_ticks p q h e v =
      ground (arith, scaler-queue p q e, quiet-signals scaler_ticks p q refl e)
  step-IsStuck scaler_quits p q h e v = ground (arith, quiet-signals scaler_quits p q refl e)
  step-IsStuck client_receives p q h e v = ground arith
  step-IsStuck (worker_takes i now) p q h e v = ground arith
  step-IsStuck (worker_finishes i now) p q h e v = ground arith
  step-IsStuck (worker_quits i) p q h e v = ground arith
  step-IsStuck (worker_sends i) p q h e v = ground arith
  step-IsStuck (worker_drops i) p q h e v = ground arith

  -- The clearing loop of `Stop` tests the length and then receives. If a worker takes the last task
  -- in between, and no `Submit` is under way past its check, `Stop` stays at that receive in every
  -- interleaving in which nobody calls `Start` or `Resume`, with the pool not running and the queue
  -- empty.
  pub run-IsStuck :
      (p : Pool V) (actions : List (Action V))
      → IsStuck p
      → All (λ a. keeps_stopped a ≡ true) actions
      → IsStuck (run actions p)
  run-IsStuck p actions v h = run_keeps IsStuck keeps_stopped step-IsStuck actions p h v

  -- Nobody else taking tasks, the clearing loop of `Stop` ends after two steps for each queued task
  -- and one more, with the queue empty, and waits for the workers.
  stop_clears :
      (n : ℕ) (p : Pool V)
      → p.shutdown ≡ clearing
      → length p.task_queue.items ≡ n
      → let q = run (replicate (2 * n + 1) stop_proceeds) p in
        (q.shutdown ≡ waiting) × (q.task_queue.items ≡ []) × (q.workers ≡ p.workers)
  unfolding run after step stop_step
  stop_clears zero p h e = ground arith
  stop_clears (suc n) p h e =
      let rounds : 2 * suc n + 1 ≡ suc (suc (2 * n + 1)) = omega arith in
      let received = record p {
        task_queue = record (p.task_queue) { items = tail p.task_queue.items };
      } in
      rw rounds (ground (arith, stop_clears n received))
