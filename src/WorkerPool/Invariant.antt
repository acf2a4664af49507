-- ===== src/WorkerPool/Invariant.antt =====
-- What holds of a pool in every state that an interleaving reaches.
use huba.Common.{
  ℕ, zero, suc, ◌+◌, ◌-◌, ◌≤◌, ◌<◌, ◌≡◌, refl, ◌⊎◌, inl, inr, Bool, true, false, Option, none, some,
  List, [], ◌∷◌, arith, Option-cases, get_elem?, erase_idx, length, length-append, length-set,
  length-erase_idx,
}
use mathlib.Core.List.{tail}
use huba.Common.Int.{ℤ, pos}
use huba.WorkerPool.Types.{
  Pool, Task, Chan, Shutdown, idle, not_begun, clearing, receiving, waiting, finished,
}
use huba.WorkerPool.Setup.{clamp_min, clamp_max}
use huba.WorkerPool.Scaling.{start_worker, start_workers, start, adjust_workers, resize}
use huba.WorkerPool.Submit.{submit, name_task, offer, begin_submit, end_submit}
use huba.WorkerPool.Workers.{take_task, quit, finish_task, send_result, drop_result}
use huba.WorkerPool.Control.{
  stop, stop_step, stop_and_wait, stop_when_empty, pause, resume, drain, drain_loop, take_result,
}
use huba.WorkerPool.Schedule.{
  Action, starts, stops, stop_proceeds, waits_to_stop, poll_ends, pauses, resumes, drains, submits,
  submit_checks, submit_offers, resizes, scaler_ticks, scaler_quits, client_receives, worker_takes,
  worker_finishes, worker_quits, worker_sends, worker_drops, step, run, after, scaler_tick,
  scaler_quit, state_of,
}

-- The shutdown has sent its signal and has not returned.
abbrev pub is_stopping : Shutdown → Bool
is_stopping not_begun = false
is_stopping clearing = true
is_stopping receiving = true
is_stopping waiting = true
is_stopping finished = false

-- The counters of live workers are exact, the channels hold no more than their capacity, the
-- bounds on the workers are in order, and the channels are closed only together, by a shutdown
-- that has cancelled the context and returned.
pub record Inv {V : Type 0} (p : Pool V) : Type 0 where
  pub active_exact : p.active_workers ≡ length p.workers
  pub wg_exact : p.wg ≡ length p.workers
  pub queue_bounded : length p.task_queue.items ≤ p.task_queue.capacity
  pub results_bounded : length p.result_chan.items ≤ p.result_chan.capacity
  pub min_positive : 0 < p.min_workers
  pub min-le-max : p.min_workers ≤ p.max_workers
  pub stopping_cancelled : is_stopping p.shutdown ≡ true → p.cancelled ≡ true
  pub closed_together : p.task_queue.closed ≡ p.result_chan.closed
  pub closed_cancelled : p.task_queue.closed ≡ true → p.cancelled ≡ true
  pub closed_finished : p.task_queue.closed ≡ true → p.shutdown ≡ finished

pub clamp-Ordered : (a b : ℤ) → (0 < clamp_min a) × (clamp_min a ≤ clamp_max (clamp_min a) b)
unfolding clamp_min clamp_max
clamp-Ordered (pos zero) b = ground arith
clamp-Ordered _ b = ground arith

module _ {V : Type 0} where
  start_worker-Inv : (p : Pool V) → Inv p → Inv (start_worker p)
  unfolding start_worker
  start_worker-Inv p v = ground (arith, length-append p.workers (idle ∷ []))

  pub start_workers-Inv : (n : ℕ) (p : Pool V) → Inv p → Inv (start_workers n p)
  unfolding start_workers
  start_workers-Inv zero p v = v
  start_workers-Inv (suc n) p v = start_workers-Inv n (start_worker p) (start_worker-Inv p v)

  -- The invariant does not read whether the pool runs.
  mark_running-Inv : (p : Pool V) (b : Bool) → Inv p → Inv (record p { is_running = b })
  mark_running-Inv p b v = ground arith

  start-Inv : (p : Pool V) → Inv p → Inv (start p)
  unfolding start
  start-Inv p v = ground (
    arith,
    start_workers-Inv p.min_workers (record p { is_running = true }) (mark_running-Inv p true v),
  )

  adjust_workers-Inv : (p : Pool V) → Inv p → Inv (adjust_workers p)
  unfolding adjust_workers
  adjust_workers-Inv p v = grind (arith, start_workers-Inv)

  pause-Inv : (p : Pool V) → Inv p → Inv (pause p)
  unfolding pause
  pause-Inv p v = ground arith

  resume-Inv : (p : Pool V) → Inv p → Inv (resume p)
  unfolding resume
  resume-Inv p v = ground arith

  stop-Inv : (p : Pool V) → Inv p → Inv (stop p)
  unfolding stop
  stop-Inv p v = ground arith

  stop_step-Inv : (p q : Pool V) → stop_step p ≡ some q → Inv p → Inv q
  unfolding stop_step
  stop_step-Inv p q e v = ground arith

  stop_and_wait-Inv : (p : Pool V) → Inv p → Inv (stop_and_wait p)
  unfolding stop_and_wait
  stop_and_wait-Inv p v = ground arith

  stop_when_empty-Inv : (p q : Pool V) → stop_when_empty p ≡ some q → Inv p → Inv q
  unfolding stop_when_empty
  stop_when_empty-Inv p q e v = ground arith

  rebound-Inv :
      (p : Pool V) (lo hi : ℕ)
      → 0 < lo
      → lo ≤ hi
      → Inv p
      → Inv (record p { config = record (p.config) { min_workers = lo; max_workers = hi } })
  rebound-Inv p lo hi h k v = ground arith

  resize-Inv : (p : Pool V) (a b : ℤ) → Inv p → Inv (resize a b p)
  unfolding resize
  resize-Inv p a b v =
      let (h, k) = clamp-Ordered a b in
      let w = rebound-Inv p (clamp_min a) (clamp_max (clamp_min a) b) h k v in
      ground (arith, start_workers-Inv (clamp_min a - p.active_workers) _ w)

  name_task-Inv : (p : Pool V) (t : Task V) → Inv p → Inv (name_task t p).0
  unfolding name_task
  name_task-Inv p t v = ground arith

  offer-Inv : (p : Pool V) (b : Bool) (t : Task V) → Inv p → Inv (offer b t p).0
  unfolding offer
  offer-Inv p b t v = ground (arith, length-append p.task_queue.items (t ∷ []))

  submit-Inv : (p : Pool V) (b : Bool) (t : Task V) → Inv p → Inv (submit b t p).0
  unfolding submit
  submit-Inv p b t v =
      let w = name_task-Inv p t v in
      ground (arith, w, offer-Inv (name_task t p).0 b (name_task t p).1 w)

  begin_submit-Inv : (p : Pool V) (t : Task V) → Inv p → Inv (begin_submit t p)
  unfolding begin_submit
  begin_submit-Inv p t v = ground (arith, name_task-Inv p t v)

  end_submit-Inv :
      (p q : Pool V) (i : ℕ) (b : Bool) → state_of (end_submit i b p) ≡ some q → Inv p → Inv q
  unfolding end_submit
  end_submit-Inv p q i b e v = elim (Option-cases (get_elem? p.submitting i)) [
    | inl h ↦ absurd (ground arith)
    | inr (t, h) ↦
        ground
          (arith, offer-Inv (record p { submitting = erase_idx p.submitting i }) b t (ground arith))
  ]

  take_task-Inv : (p q : Pool V) (i now : ℕ) → take_task i now p ≡ some q → Inv p → Inv q
  unfolding take_task
  take_task-Inv p q i now e v = grind (arith, length-set, length-erase_idx)

  quit-Inv : (p q : Pool V) (i : ℕ) → quit i p ≡ some q → Inv p → Inv q
  unfolding quit
  quit-Inv p q i e v = grind (arith, length-set, length-erase_idx)

  finish_task-Inv : (p q : Pool V) (i now : ℕ) → finish_task i now p ≡ some q → Inv p → Inv q
  unfolding finish_task
  finish_task-Inv p q i now e v = grind (arith, length-set, length-erase_idx)

  send_result-Inv : (p q : Pool V) (i : ℕ) → send_result i p ≡ some q → Inv p → Inv q
  unfolding send_result
  send_result-Inv p q i e v = grind (arith, length-set, length-erase_idx, length-append)

  drop_result-Inv : (p q : Pool V) (i : ℕ) → drop_result i p ≡ some q → Inv p → Inv q
  unfolding drop_result
  drop_result-Inv p q i e v = grind (arith, length-set, length-erase_idx)

  drain_loop_bounded :
      (fuel n : ℕ) (c d : Chan (Task V)) (m : ℕ)
      → drain_loop fuel n c ≡ some (d, m)
      → (length d.items ≤ length c.items) × (d.capacity ≡ c.capacity) × (d.closed ≡ c.closed)
  unfolding drain_loop
  drain_loop_bounded zero n c d m e = cc
  drain_loop_bounded (suc fuel) n c d m e = ground (
    arith,
    drain_loop_bounded fuel (n + 1) c d m,
    drain_loop_bounded fuel (n + 1) (record c { items = tail c.items }) d m,
  )

  drain-Inv : (p q : Pool V) (fuel : ℕ) → state_of (drain fuel p) ≡ some q → Inv p → Inv q
  unfolding drain
  drain-Inv p q fuel e v = elim (Option-cases (drain_loop fuel 0 p.task_queue)) [
    | inl l ↦ absurd (ground arith)
    | inr (r, l) ↦ ground (arith, drain_loop_bounded fuel 0 p.task_queue r.0 r.1 l)
  ]

  take_result-Inv : (p q : Pool V) → state_of (take_result p) ≡ some q → Inv p → Inv q
  unfolding take_result
  take_result-Inv p q e v = ground arith

  scaler-Inv : (p q : Pool V) → (scaler_tick p ≡ some q) ⊎ (scaler_quit p ≡ some q) → Inv p → Inv q
  unfolding scaler_tick scaler_quit
  scaler-Inv p q e v = ground (arith, adjust_workers-Inv p v)

  -- Every action that can happen keeps the invariant.
  pub step-Inv : (a : Action V) (p q : Pool V) → step a p ≡ some q → Inv p → Inv q
  unfolding step
  step-Inv starts p q e v = ground (arith, start-Inv p v)
  step-Inv stops p q e v = ground (arith, stop-Inv p v)
  step-Inv stop_proceeds p q e v = stop_step-Inv p q e v
  step-Inv waits_to_stop p q e v = ground (arith, stop_and_wait-Inv p v)
  step-Inv poll_ends p q e v = stop_when_empty-Inv p q e v
  step-Inv pauses p q e v = ground (arith, pause-Inv p v)
  step-Inv resumes p q e v = ground (arith, resume-Inv p v)
  step-Inv drains p q e v = drain-Inv p q _ e v
  step-Inv (submits b t) p q e v = ground (arith, submit-Inv p b t v)
  step-Inv (submit_checks t) p q e v = ground (arith, begin_submit-Inv p t v)
  step-Inv (submit_offers i b) p q e v = end_submit-Inv p q i b e v
  step-Inv (resizes a b) p q e v = ground (arith, resize-Inv p a b v)
  step-Inv scaler_ticks p q e v = scaler-Inv p q (inl e) v
  step-Inv scaler_quits p q e v = scaler-Inv p q (inr e) v
  step-Inv client_receives p q e v = take_result-Inv p q e v
  step-Inv (worker_takes i now) p q e v = take_task-Inv p q i now e v
  step-Inv (worker_finishes i now) p q e v = finish_task-Inv p q i now e v
  step-Inv (worker_quits i) p q e v = quit-Inv p q i e v
  step-Inv (worker_sends i) p q e v = send_result-Inv p q i e v
  step-Inv (worker_drops i) p q e v = drop_result-Inv p q i e v

  after-Inv :
      (o : Option (Pool V)) (p : Pool V)
      → ((q : Pool V) → o ≡ some q → Inv q)
      → Inv p
      → Inv (after o p)
  unfolding after
  after-Inv none p h v = v
  after-Inv (some q) p h v = h q refl

  -- The invariant holds after any interleaving that starts where it holds.
  pub run-Inv : (actions : List (Action V)) (p : Pool V) → Inv p → Inv (run actions p)
  unfolding run
  run-Inv [] p v = v
  run-Inv (a ∷ rest) p v =
      run-Inv rest (after (step a p) p) (after-Inv (step a p) p (λ q e. step-Inv a p q e v) v)
