-- ===== src/WorkerPool/Shutdown.antt =====
-- What a shutdown achieves: `Stop` on a running pool, `Stop` and `StopAndWait` on one that is
-- already marked as not running, and the race of `Stop` with a worker for the last task.
use huba.Common.{
  ℕ, zero, suc, ◌≡◌, refl, inl, inr, Bool, true, false, some, List, [], ◌∷◌, arith, Option-cases,
  All, get_elem?, erase_idx,
}
use huba.Common.Int.{ℤ}
use huba.WorkerPool.Types.{Pool, Task, Shutdown}
use huba.WorkerPool.Scaling.{start_worker, start_workers, start, adjust_workers, resize}
use huba.WorkerPool.Submit.{name_task, offer, submit, begin_submit, end_submit}
use huba.WorkerPool.Workers.{take_task, quit, finish_task, send_result, drop_result}
use huba.WorkerPool.Control.{drain, take_result}
use huba.WorkerPool.Schedule.{
  Action, starts, stops, stop_proceeds, waits_to_stop, poll_ends, pauses, resumes, drains, submits,
  submit_checks, submit_offers, resizes, scaler_ticks, scaler_quits, client_receives, worker_takes,
  worker_finishes, worker_quits, worker_sends, worker_drops, step, run, after, scaler_tick,
  scaler_quit, state_of,
}

module _ {V : Type 0} where
  -- The part of a pool that decides whether it is shutting down.
  abbrev pub signals : Pool V → Shutdown × Bool × Bool
  signals p = (p.shutdown, p.cancelled, p.is_running)

  start_workers-signals : (n : ℕ) (p : Pool V) → signals (start_workers n p) ≡ signals p
  unfolding start_workers start_worker
  start_workers-signals zero p = refl
  start_workers-signals (suc n) p = start_workers-signals n (start_worker p)

  adjust-signals : (p : Pool V) → signals (adjust_workers p) ≡ signals p
  unfolding adjust_workers
  adjust-signals p = grind (arith, start_workers-signals)

  resize-signals : (p : Pool V) (a b : ℤ) → signals (resize a b p) ≡ signals p
  unfolding resize
  resize-signals p a b = grind (arith, start_workers-signals)

  pub name_task-signals : (p : Pool V) (t : Task V) → signals (name_task t p).0 ≡ signals p
  unfolding name_task
  name_task-signals p t = ground arith

  offer-signals : (p : Pool V) (b : Bool) (t : Task V) → signals (offer b t p).0 ≡ signals p
  unfolding offer
  offer-signals p b t = ground arith

  submit-signals : (p : Pool V) (b : Bool) (t : Task V) → signals (submit b t p).0 ≡ signals p
  unfolding submit
  submit-signals p b t =
      ground (arith, name_task-signals p t, offer-signals (name_task t p).0 b (name_task t p).1)

  begin_submit-signals : (p : Pool V) (t : Task V) → signals (begin_submit t p) ≡ signals p
  unfolding begin_submit
  begin_submit-signals p t = ground (arith, name_task-signals p t)

  end_submit-signals :
      (p q : Pool V) (i : ℕ) (b : Bool)
      → state_of (end_submit i b p) ≡ some q
      → signals q ≡ signals p
  unfolding end_submit
  end_submit-signals p q i b e = elim (Option-cases (get_elem? p.submitting i)) [
    | inl h ↦ absurd (ground arith)
    | inr (t, h) ↦
        ground (arith, offer-signals (record p { submitting = erase_idx p.submitting i }) b t)
  ]

  pub start-signals :
      (p : Pool V) → ((start p).shutdown ≡ p.shutdown) × ((start p).cancelled ≡ p.cancelled)
  unfolding start
  start-signals p =
      ground (arith, start_workers-signals p.min_workers (record p { is_running = true }))

  -- The steps of workers, autoscalers and receivers, and the calls that are not about shutdown.
  abbrev pub is_quiet : Action V → Bool
  is_quiet starts = false
  is_quiet stops = false
  is_quiet stop_proceeds = false
  is_quiet waits_to_stop = false
  is_quiet poll_ends = false
  is_quiet pauses = false
  is_quiet resumes = false
  is_quiet _ = true

  pub quiet-signals :
      (a : Action V) (p q : Pool V) → is_quiet a ≡ true → step a p ≡ some q → signals q ≡ signals p
  unfolding step drain take_result take_task quit finish_task send_result drop_result scaler_tick
      scaler_quit
  quiet-signals drains p q h e = ground arith
  quiet-signals (submits b t) p q h e = ground (arith, submit-signals p b t)
  quiet-signals (submit_checks t) p q h e = ground (arith, begin_submit-signals p t)
  quiet-signals (submit_offers i b) p q h e = end_submit-signals p q i b e
  quiet-signals (resizes a b) p q h e = ground (arith, resize-signals p a b)
  quiet-signals scaler_ticks p q h e = ground (arith, adjust-signals p)
  quiet-signals scaler_quits p q h e = ground arith
  quiet-signals client_receives p q h e = ground arith
  quiet-signals (worker_takes i now) p q h e = ground arith
  quiet-signals (worker_finishes i now) p q h e = ground arith
  quiet-signals (worker_quits i) p q h e = ground arith
  quiet-signals (worker_sends i) p q h e = ground arith
  quiet-signals (worker_drops i) p q h e = ground arith
  quiet-signals starts p q h e = cc
  quiet-signals stops p q h e = cc
  quiet-signals stop_proceeds p q h e = cc
  quiet-signals waits_to_stop p q h e = cc
  quiet-signals poll_ends p q h e = cc
  quiet-signals pauses p q h e = cc
  quiet-signals resumes p q h e = cc

  -- A property of the signals and the queue that every possible action keeps holds after any run.
  pub run_keeps {ℓ} :
      (P : Pool V → Type ℓ) (allowed : Action V → Bool)
      → ((a : Action V) (p q : Pool V) → allowed a ≡ true → step a p ≡ some q → P p → P q)
      → (actions : List (Action V)) (p : Pool V) → All (λ a. allowed a ≡ true) actions
      → P p
      → P (run actions p)
  unfolding run after
  run_keeps P allowed keep [] p h v = v
  run_keeps P allowed keep (a ∷ rest) p h v =
      run_keeps P allowed keep rest (after (step a p) p) h.1 (elim (Option-cases (step a p)) [
        | inl e ↦ rw (e, after) v
        | inr (q, e) ↦ rw (e, after) (keep a p q h.0 e v)
      ])
