-- ===== src/WorkerPool/Accounting/Tallies.antt =====
-- What an action does to the tasks of a pool, and when a state accounts for it. Tasks are counted by
-- an arbitrary weight, for instance 1 for those with a certain id and 0 for all others.
use huba.Common.{
  ℕ, zero, suc, ◌+◌, ◌%◌, ◌^◌, ◌≡◌, refl, Option, none, some, List, [], ◌∷◌, ◌++◌, arith, length,
  get_elem?, set, erase_idx,
}
use huba.WorkerPool.Types.{
  Pool, Task, Worker, idle, executing, sending, Outcome, returns, panics, Shutdown, receiving,
}
use huba.WorkerPool.Scaling.{start_worker, start_workers}
use huba.WorkerPool.Submit.{Submitted, accepted, refused, panicked, name_task, submit, end_submit}
use huba.WorkerPool.Workers.{call, time_limit}
use huba.WorkerPool.Control.{drain}
use huba.WorkerPool.Schedule.{
  Action, stop_proceeds, drains, submits, submit_offers, worker_finishes, step, after,
}

-- What happened to tasks: the weight of those that were accepted, of those whose call returned, and
-- of those that were lost; how many calls returned, and how many of these with an error.
pub record Tally : Type 0 where
  pub accepted_weight : ℕ
  pub returned_weight : ℕ
  pub lost_weight : ℕ
  pub returned_calls : ℕ
  pub errors : ℕ

abbrev pub nothing : Tally
nothing = record {
  accepted_weight = 0;
  returned_weight = 0;
  lost_weight = 0;
  returned_calls = 0;
  errors = 0;
}

abbrev pub plus : Tally → Tally → Tally
plus a b = record {
  accepted_weight = a.accepted_weight + b.accepted_weight;
  returned_weight = a.returned_weight + b.returned_weight;
  lost_weight = a.lost_weight + b.lost_weight;
  returned_calls = a.returned_calls + b.returned_calls;
  errors = a.errors + b.errors;
}

-- For a task of weight `n`, under the answer of `Submit`, and at the end of its call.
abbrev pub submitted_tally : ℕ → Submitted → Tally
submitted_tally n (accepted id) = record nothing { accepted_weight = n }
submitted_tally n (refused message) = nothing
submitted_tally n panicked = nothing

abbrev pub outcome_tally : {V : Type 0} → ℕ → Outcome V → Tally
outcome_tally n (returns v none) = record nothing { returned_weight = n; returned_calls = 1 }
outcome_tally n (returns v (some e)) = record nothing {
  returned_weight = n;
  returned_calls = 1;
  errors = 1;
}
outcome_tally n (panics message) = record nothing { lost_weight = n }

-- Starting workers leaves the queue and the counters alone.
pub start_workers-queue :
    {V : Type 0} (n : ℕ) (p : Pool V)
    → let q = start_workers n p in
      (q.task_queue ≡ p.task_queue)
      × (q.completed_tasks ≡ p.completed_tasks)
      × (q.failed_tasks ≡ p.failed_tasks)
unfolding start_workers start_worker
start_workers-queue zero p = (refl, refl, refl)
start_workers-queue (suc n) p = start_workers-queue n (start_worker p)

module _ {V : Type 0} (weight : Task V → ℕ) where
  abbrev pub queued : List (Task V) → ℕ
  queued [] = 0
  queued (t ∷ rest) = weight t + queued rest

  abbrev pub load : Worker V → ℕ
  load idle = 0
  load (executing t start_time) = weight t
  load (sending r) = 0

  abbrev pub loads : List (Worker V) → ℕ
  loads [] = 0
  loads (w ∷ ws) = load w + loads ws

  -- The weight of the tasks that the pool holds: in its queue, and in calls of its workers.
  abbrev pub held : Pool V → ℕ
  held p = queued p.task_queue.items + loads p.workers

  abbrev pub worker_tally : Pool V → Option (Worker V) → Tally
  worker_tally p (some (executing t start_time)) =
      outcome_tally (weight t) (call t.execute (time_limit t.timeout p.task_timeout))
  worker_tally p _ = nothing

  abbrev pub clearing_tally : Shutdown → List (Task V) → Tally
  clearing_tally receiving (t ∷ rest) = record nothing { lost_weight = weight t }
  clearing_tally _ _ = nothing

  -- A `Drain` that returns has taken what was in the queue.
  abbrev pub drained_tally : List (Task V) → Option (Pool V × ℕ) → Tally
  drained_tally ts none = nothing
  drained_tally ts (some (p, count)) = record nothing { lost_weight = queued ts }

  -- For the task that a call of `Submit` sends, and what comes of it.
  abbrev pub offered_tally : Option (Task V) → Option (Pool V × Submitted) → Tally
  offered_tally (some t) (some (p, r)) = submitted_tally (weight t) r
  offered_tally _ _ = nothing

  -- What one action does to tasks.
  abbrev pub tally : Action V → Pool V → Tally
  tally (submits b t) p = submitted_tally (weight (name_task t p).1) (submit b t p).1
  tally (submit_offers i b) p = offered_tally (get_elem? p.submitting i) (end_submit i b p)
  tally (worker_finishes i now) p = worker_tally p (get_elem? p.workers i)
  tally stop_proceeds p = clearing_tally p.shutdown p.task_queue.items
  tally drains p = drained_tally p.task_queue.items (drain (length p.task_queue.items + 1) p)
  tally _ p = nothing

  unfoldable pub run_tally : List (Action V) → Pool V → Tally
  run_tally [] p = nothing
  run_tally (a ∷ rest) p = plus (tally a p) (run_tally rest (after (step a p) p))

  -- The pool `q` that follows `p` accounts for the tally `t`.
  pub record Accounts (p q : Pool V) (t : Tally) : Type 0 where
    pub tasks : held q + t.returned_weight + t.lost_weight ≡ held p + t.accepted_weight
    pub completed : q.completed_tasks % 2 ^ 64 ≡ (p.completed_tasks + t.returned_calls) % 2 ^ 64
    pub failed : q.failed_tasks % 2 ^ 64 ≡ (p.failed_tasks + t.errors) % 2 ^ 64

  pub queued-append : (ts us : List (Task V)) → queued (ts ++ us) ≡ queued ts + queued us
  queued-append [] us = omega arith
  queued-append (t ∷ ts) us = omega (arith, queued-append ts us)

  pub loads-append : (ws vs : List (Worker V)) → loads (ws ++ vs) ≡ loads ws + loads vs
  loads-append [] vs = omega arith
  loads-append (w ∷ ws) vs = omega (arith, loads-append ws vs)

  pub loads-set :
      (ws : List (Worker V)) (i : ℕ) (v w : Worker V)
      → get_elem? ws i ≡ some w
      → loads (set ws i v) + load w ≡ loads ws + load v
  loads-set [] i v w h = absurd (ground arith)
  loads-set (x ∷ ws) zero v w h = ground arith
  loads-set (x ∷ ws) (suc i) v w h = omega (arith, loads-set ws i v w h)

  pub loads-erase_idx :
      (ws : List (Worker V)) (i : ℕ) (w : Worker V)
      → get_elem? ws i ≡ some w
      → loads (erase_idx ws i) + load w ≡ loads ws
  loads-erase_idx [] i w h = absurd (ground arith)
  loads-erase_idx (x ∷ ws) zero w h = ground arith
  loads-erase_idx (x ∷ ws) (suc i) w h = omega (arith, loads-erase_idx ws i w h)

  -- Starting workers gives none of them a task.
  pub start_workers-loads :
      (n : ℕ) (p : Pool V) → loads (start_workers n p).workers ≡ loads p.workers
  unfolding start_workers start_worker
  start_workers-loads zero p = refl
  start_workers-loads (suc n) p =
      omega (arith, loads-append p.workers (idle ∷ []), start_workers-loads n (start_worker p))
