-- ===== src/WorkerPool/Accounting.antt =====
-- Where the accepted tasks of a pool are: each is in the queue, at a worker, finished, lost to a
-- panic, or removed from the queue by `Drain` or by the clearing loop of `Stop`.
pub mod Tallies
pub mod Steps
use huba.Common.{
  ℕ, ◌+◌, ◌≡◌, refl, inl, inr, Option, none, some, List, [], ◌∷◌, arith, Option-cases, length,
  get_elem?,
}
use huba.WorkerPool.Types.{Pool, Task}
use huba.WorkerPool.Workers.{finish_task}
use huba.WorkerPool.Control.{stop_step}
use huba.WorkerPool.Submit.{end_submit}
use huba.WorkerPool.Schedule.{
  Action, starts, stops, stop_proceeds, waits_to_stop, poll_ends, pauses, resumes, drains, submits,
  submit_checks, submit_offers, resizes, scaler_ticks, scaler_quits, client_receives, worker_takes,
  worker_finishes, worker_quits, worker_sends, worker_drops, step, run, after,
}
use Tallies.{Tally, nothing, plus, tally, run_tally, Accounts}
use Steps.{
  start-Accounts, scaler-Accounts, resize-Accounts, stop-Accounts, stop_step-Accounts,
  stop_and_wait-Accounts, stop_when_empty-Accounts, pause-Accounts, resume-Accounts,
  submit-Accounts, begin_submit-Accounts, end_submit-Accounts, take_task-Accounts, quit-Accounts,
  finish_task-Accounts, send_result-Accounts, drop_result-Accounts, drain-Accounts,
  take_result-Accounts, Accounts-refl,
}

module _ {V : Type 0} (weight : Task V → ℕ) where
  -- An action that cannot happen does nothing to tasks.
  idle-tally : (a : Action V) (p : Pool V) → step a p ≡ none → tally weight a p ≡ nothing
  unfolding step stop_step finish_task end_submit
  idle-tally stop_proceeds p e = ground arith
  idle-tally (worker_finishes i now) p e = ground arith
  idle-tally drains p e = ground arith
  idle-tally (submits b t) p e = cc
  idle-tally (submit_offers i b) p e = ground (arith, Option-cases (get_elem? p.submitting i))
  idle-tally _ p e = refl

  done-Accounts :
      (a : Action V) (p q : Pool V) → step a p ≡ some q → Accounts weight p q (tally weight a p)
  unfolding step
  done-Accounts starts p q e = ground (arith, start-Accounts weight p)
  done-Accounts stops p q e = ground (arith, stop-Accounts weight p)
  done-Accounts stop_proceeds p q e = stop_step-Accounts weight p q e
  done-Accounts waits_to_stop p q e = ground (arith, stop_and_wait-Accounts weight p)
  done-Accounts poll_ends p q e = stop_when_empty-Accounts weight p q e
  done-Accounts pauses p q e = ground (arith, pause-Accounts weight p)
  done-Accounts resumes p q e = ground (arith, resume-Accounts weight p)
  done-Accounts drains p q e = drain-Accounts weight p q (length p.task_queue.items + 1) e
  done-Accounts (submits b t) p q e = ground (arith, submit-Accounts weight p b t)
  done-Accounts (submit_checks t) p q e = ground (arith, begin_submit-Accounts weight p t)
  done-Accounts (submit_offers i b) p q e = end_submit-Accounts weight p q i b e
  done-Accounts (resizes a b) p q e = ground (arith, resize-Accounts weight p a b)
  done-Accounts scaler_ticks p q e = scaler-Accounts weight p q (inl e)
  done-Accounts scaler_quits p q e = scaler-Accounts weight p q (inr e)
  done-Accounts client_receives p q e = take_result-Accounts weight p q e
  done-Accounts (worker_takes i now) p q e = take_task-Accounts weight p q i now e
  done-Accounts (worker_finishes i now) p q e = finish_task-Accounts weight p q i now e
  done-Accounts (worker_quits i) p q e = quit-Accounts weight p q i e
  done-Accounts (worker_sends i) p q e = send_result-Accounts weight p q i e
  done-Accounts (worker_drops i) p q e = drop_result-Accounts weight p q i e

  step-Accounts :
      (a : Action V) (p : Pool V) → Accounts weight p (after (step a p) p) (tally weight a p)
  unfolding after
  step-Accounts a p = elim (Option-cases (step a p)) [
    | inl e ↦ rw (e, idle-tally a p e, after) (Accounts-refl weight p)
    | inr (q, e) ↦ rw (e, after) (done-Accounts a p q e)
  ]

  Accounts-trans :
      (p q r : Pool V) (s t : Tally)
      → Accounts weight p q s
      → Accounts weight q r t
      → Accounts weight p r (plus s t)
  Accounts-trans p q r s t h k = record {
    tasks = omega (arith, h.tasks, k.tasks);
    completed = omega (arith, h.completed, k.completed);
    failed = omega (arith, h.failed, k.failed);
  }

  -- In every interleaving no task is lost silently or run twice. By any weight of tasks (such as 1
  -- for those with a certain id and 0 for all others), those that were accepted, under the ids that
  -- they were given, and those that the pool held before are together those that it now holds, in
  -- its queue or in calls of its workers, those whose call has returned, and those lost to a panic,
  -- a drain or a shutdown. The completed and failed counters have grown, modulo 2^64, by the calls
  -- that returned and by those of them that returned an error.
  pub run-Accounts :
      (actions : List (Action V)) (p : Pool V)
      → Accounts weight p (run actions p) (run_tally weight actions p)
  unfolding run run_tally
  run-Accounts [] p = Accounts-refl weight p
  run-Accounts (a ∷ rest) p =
      Accounts-trans p (after (step a p) p) (run rest (after (step a p) p)) (tally weight a p)
        (run_tally weight rest (after (step a p) p)) (step-Accounts a p)
        (run-Accounts rest (after (step a p) p))
