-- ===== src/WorkerPool/Accounting/Steps.antt =====
-- What each operation of the pool does to its tasks.
use huba.Common.{
  ℕ, zero, suc, ◌+◌, ◌≡◌, refl, ◌⊎◌, inl, inr, Bool, true, false, none, some, [], ◌∷◌, arith,
  Bool-cases, Option-cases, length, get_elem?, erase_idx,
}
use mathlib.Core.List.{tail}
use huba.Common.Int.{ℤ}
use huba.WorkerPool.Types.{Pool, Task, Chan, idle}
use huba.WorkerPool.Scaling.{start, adjust_workers, resize}
use huba.WorkerPool.Submit.{name_task, offer, submit, begin_submit, end_submit}
use huba.WorkerPool.Workers.{take_task, quit, finish_task, send_result, drop_result}
use huba.WorkerPool.Control.{
  stop, stop_step, stop_and_wait, stop_when_empty, pause, resume, drain, drain_loop, take_result,
}
use huba.WorkerPool.Schedule.{scaler_tick, scaler_quit, state_of}
use huba.WorkerPool.Accounting.Tallies.{
  nothing, submitted_tally, worker_tally, clearing_tally, drained_tally, offered_tally, Accounts,
  queued-append, loads-set, loads-erase_idx, start_workers-loads, start_workers-queue,
}

module _ {V : Type 0} where
  pub drain_loop_counts :
      (fuel n : ℕ) (c d : Chan (Task V)) (m : ℕ)
      → c.closed ≡ false
      → drain_loop fuel n c ≡ some (d, m)
      → (d.items ≡ []) × (m ≡ n + length c.items)
  unfolding drain_loop
  drain_loop_counts zero n c d m o e = cc
  drain_loop_counts (suc fuel) n c d m o e =
      ground (arith, drain_loop_counts fuel (n + 1) (record c { items = tail c.items }) d m o)

  pub drain_loop_closed :
      (fuel n : ℕ) (c : Chan (Task V)) → c.closed ≡ true → drain_loop fuel n c ≡ none
  unfolding drain_loop
  drain_loop_closed zero n c h = refl
  drain_loop_closed (suc fuel) n c h = ground (
    arith,
    drain_loop_closed fuel (n + 1) c h,
    drain_loop_closed fuel (n + 1) (record c { items = tail c.items }) h,
  )

module _ {V : Type 0} (weight : Task V → ℕ) where
  pub start-Accounts : (p : Pool V) → Accounts weight p (start p) nothing
  unfolding start
  start-Accounts p = ground (
    arith,
    start_workers-loads weight p.min_workers (record p { is_running = true }),
    start_workers-queue p.min_workers (record p { is_running = true }),
  )

  pub scaler-Accounts :
      (p q : Pool V)
      → (scaler_tick p ≡ some q) ⊎ (scaler_quit p ≡ some q)
      → Accounts weight p q nothing
  unfolding scaler_tick scaler_quit adjust_workers
  scaler-Accounts p q e = grind (arith, start_workers-loads weight, start_workers-queue)

  pub resize-Accounts : (p : Pool V) (a b : ℤ) → Accounts weight p (resize a b p) nothing
  unfolding resize
  resize-Accounts p a b = grind (arith, start_workers-loads weight, start_workers-queue)

  pub stop-Accounts : (p : Pool V) → Accounts weight p (stop p) nothing
  unfolding stop
  stop-Accounts p = ground arith

  pub stop_step-Accounts :
      (p q : Pool V)
      → stop_step p ≡ some q
      → Accounts weight p q (clearing_tally weight p.shutdown p.task_queue.items)
  unfolding stop_step
  stop_step-Accounts p q e = ground arith

  pub stop_and_wait-Accounts : (p : Pool V) → Accounts weight p (stop_and_wait p) nothing
  unfolding stop_and_wait
  stop_and_wait-Accounts p = ground arith

  pub stop_when_empty-Accounts :
      (p q : Pool V) → stop_when_empty p ≡ some q → Accounts weight p q nothing
  unfolding stop_when_empty
  stop_when_empty-Accounts p q e = ground arith

  pub pause-Accounts : (p : Pool V) → Accounts weight p (pause p) nothing
  unfolding pause
  pause-Accounts p = ground arith

  pub resume-Accounts : (p : Pool V) → Accounts weight p (resume p) nothing
  unfolding resume
  resume-Accounts p = ground arith

  pub name_task-Accounts : (p : Pool V) (t : Task V) → Accounts weight p (name_task t p).0 nothing
  unfolding name_task
  name_task-Accounts p t = ground arith

  pub offer-Accounts :
      (p : Pool V) (b : Bool) (t : Task V)
      → Accounts weight p (offer b t p).0 (submitted_tally (weight t) (offer b t p).1)
  unfolding offer
  offer-Accounts p b t = ground (arith, queued-append weight p.task_queue.items (t ∷ []))

  pub submit-Accounts :
      (p : Pool V) (b : Bool) (t : Task V)
      → Accounts weight p
          (submit b t p).0
          (submitted_tally (weight (name_task t p).1) (submit b t p).1)
  unfolding submit
  submit-Accounts p b t =
      ground (arith, name_task-Accounts p t, offer-Accounts (name_task t p).0 b (name_task t p).1)

  pub begin_submit-Accounts :
      (p : Pool V) (t : Task V) → Accounts weight p (begin_submit t p) nothing
  unfolding begin_submit
  begin_submit-Accounts p t = ground (arith, name_task-Accounts p t)

  pub end_submit-Accounts :
      (p q : Pool V) (i : ℕ) (b : Bool)
      → state_of (end_submit i b p) ≡ some q
      → Accounts weight p q (offered_tally weight (get_elem? p.submitting i) (end_submit i b p))
  unfolding end_submit
  end_submit-Accounts p q i b e = elim (Option-cases (get_elem? p.submitting i)) [
    | inl h ↦ absurd (ground arith)
    | inr (t, h) ↦
        ground (arith, offer-Accounts (record p { submitting = erase_idx p.submitting i }) b t)
  ]

  pub take_task-Accounts :
      (p q : Pool V) (i now : ℕ) → take_task i now p ≡ some q → Accounts weight p q nothing
  unfolding take_task
  take_task-Accounts p q i now e = elim (Option-cases (get_elem? p.workers i)) [
    | inl h ↦ absurd (ground arith)
    | inr (w, h) ↦ grind (arith, loads-erase_idx weight p.workers i w h, loads-set weight)
  ]

  pub quit-Accounts : (p q : Pool V) (i : ℕ) → quit i p ≡ some q → Accounts weight p q nothing
  unfolding quit
  quit-Accounts p q i e = elim (Option-cases (get_elem? p.workers i)) [
    | inl h ↦ absurd (ground arith)
    | inr (w, h) ↦ ground (arith, loads-erase_idx weight p.workers i w h)
  ]

  pub finish_task-Accounts :
      (p q : Pool V) (i now : ℕ)
      → finish_task i now p ≡ some q
      → Accounts weight p q (worker_tally weight p (get_elem? p.workers i))
  unfolding finish_task
  finish_task-Accounts p q i now e = elim (Option-cases (get_elem? p.workers i)) [
    | inl h ↦ absurd (ground arith)
    | inr (w, h) ↦ grind (arith, loads-erase_idx weight p.workers i w h, loads-set weight)
  ]

  pub send_result-Accounts :
      (p q : Pool V) (i : ℕ) → send_result i p ≡ some q → Accounts weight p q nothing
  unfolding send_result
  send_result-Accounts p q i e = elim (Option-cases (get_elem? p.workers i)) [
    | inl h ↦ absurd (ground arith)
    | inr (w, h) ↦
        ground
          (arith, loads-erase_idx weight p.workers i w h, loads-set weight p.workers i idle w h)
  ]

  pub drop_result-Accounts :
      (p q : Pool V) (i : ℕ) → drop_result i p ≡ some q → Accounts weight p q nothing
  unfolding drop_result
  drop_result-Accounts p q i e = elim (Option-cases (get_elem? p.workers i)) [
    | inl h ↦ absurd (ground arith)
    | inr (w, h) ↦ ground (arith, loads-erase_idx weight p.workers i w h)
  ]

  pub drain-Accounts :
      (p q : Pool V) (fuel : ℕ)
      → state_of (drain fuel p) ≡ some q
      → Accounts weight p q (drained_tally weight p.task_queue.items (drain fuel p))
  unfolding drain
  drain-Accounts p q fuel e = elim (Bool-cases p.task_queue.closed) [
    | inl closed ↦ absurd (ground (arith, drain_loop_closed fuel 0 p.task_queue closed))
    | inr still ↦ elim (Option-cases (drain_loop fuel 0 p.task_queue)) [
      | inl l ↦ absurd (ground arith)
      | inr (r, l) ↦ ground (arith, drain_loop_counts fuel 0 p.task_queue r.0 r.1 still l)
    ]
  ]

  pub take_result-Accounts :
      (p q : Pool V) → state_of (take_result p) ≡ some q → Accounts weight p q nothing
  unfolding take_result
  take_result-Accounts p q e = ground arith

  pub Accounts-refl : (p : Pool V) → Accounts weight p p nothing
  Accounts-refl p = ground arith
