-- ===== src/WorkerPool/Schedule.antt =====
-- Interleavings of a pool's callers, workers, autoscalers and of a `Stop` in progress, as sequences
-- of actions. A worker is named by its position among the live ones. A `Submit` is one action,
-- `submits`, or two, between which others can happen: its check and its `select`.
use huba.Common.{
  ℕ, ◌+◌, ◌-◌, Bool, ◌&&◌, Option, none, some, List, [], ◌∷◌, ltb, if◌then◌else◌, length,
}
use huba.Common.Int.{ℤ}
use huba.WorkerPool.Types.{Pool, Task}
use huba.WorkerPool.Scaling.{start, adjust_workers, resize}
use huba.WorkerPool.Submit.{submit, begin_submit, end_submit}
use huba.WorkerPool.Workers.{take_task, quit, finish_task, send_result, drop_result}
use huba.WorkerPool.Control.{
  stop, stop_step, stop_and_wait, stop_when_empty, pause, resume, drain, take_result,
}

pub data Action (V : Type 0) : Type 0 where
  starts stops stop_proceeds waits_to_stop poll_ends pauses resumes drains : Action V
  submits : Bool → Task V → Action V
  submit_checks : Task V → Action V
  submit_offers : ℕ → Bool → Action V
  resizes : ℤ → ℤ → Action V
  scaler_ticks scaler_quits client_receives : Action V
  worker_takes worker_finishes : ℕ → ℕ → Action V
  worker_quits worker_sends worker_drops : ℕ → Action V

module _ {V : Type 0} where
  unfoldable pub scaler_tick : Pool V → Option (Pool V)
  scaler_tick p = if ltb 0 p.scalers then some (adjust_workers p) else none

  unfoldable pub scaler_quit : Pool V → Option (Pool V)
  scaler_quit p =
      if ltb 0 p.scalers && p.cancelled then some (record p { scalers = p.scalers - 1 }) else none

  abbrev pub state_of : {A : Type 0} → Option (Pool V × A) → Option (Pool V)
  state_of none = none
  state_of (some (p, a)) = some p

  -- `none`: the action cannot happen in this state.
  unfoldable pub step : Action V → Pool V → Option (Pool V)
  unfolding scaler_tick scaler_quit
  step starts p = some (start p)
  step stops p = some (stop p)
  step stop_proceeds p = stop_step p
  step waits_to_stop p = some (stop_and_wait p)
  step poll_ends p = stop_when_empty p
  step pauses p = some (pause p)
  step resumes p = some (resume p)
  step drains p = state_of (drain (length p.task_queue.items + 1) p)
  step (submits prefer_done t) p = some (submit prefer_done t p).0
  step (submit_checks t) p = some (begin_submit t p)
  step (submit_offers i prefer_done) p = state_of (end_submit i prefer_done p)
  step (resizes min_workers max_workers) p = some (resize min_workers max_workers p)
  step scaler_ticks p = scaler_tick p
  step scaler_quits p = scaler_quit p
  step client_receives p = state_of (take_result p)
  step (worker_takes i now) p = take_task i now p
  step (worker_finishes i now) p = finish_task i now p
  step (worker_quits i) p = quit i p
  step (worker_sends i) p = send_result i p
  step (worker_drops i) p = drop_result i p

  -- An action that cannot happen is skipped.
  unfoldable pub after : Option (Pool V) → Pool V → Pool V
  after none p = p
  after (some q) p = q

  unfoldable pub run : List (Action V) → Pool V → Pool V
  unfolding after
  run [] p = p
  run (a ∷ rest) p = run rest (after (step a p) p)
