-- ===== src/WorkerPool/Unstopped.antt =====
-- What `StopAndWait` does to the pool of the demonstration.
use huba.Common.{
  String, ◌≡◌, refl, inl, inr, true, false, Option, some, List, [], ◌∷◌, arith, Option-cases, All,
  ◌∙◌,
}
use huba.WorkerPool.Types.{Pool, not_begun}
use huba.WorkerPool.Setup.{
  new_worker_pool, default_config, apply_options, with_channels, clamp_min, clamp_max,
}
use huba.WorkerPool.Control.{stop_and_wait, stop_when_empty, stop}
use huba.WorkerPool.Schedule.{Action, poll_ends, waits_to_stop, submits, step, after}
use huba.WorkerPool.Scaling.{start, start_workers, start_worker}
use huba.WorkerPool.Shutdown.{signals, is_quiet, quiet-signals}
use huba.WorkerPool.Stopping.{IsSpent, step-IsSpent}
use huba.WorkerPool.Example.{
  Event, ticker, stats_ticker, shutdown, others, Program, started, act, make_task, handle,
  handle_all,
}

-- A tick, or a step of workers, autoscalers and receivers.
abbrev pub IsCalm : Event → Type 0
IsCalm (others a) = is_quiet a ≡ true
IsCalm shutdown = ⊥
IsCalm e = Unit

act-signals :
    (a : Action (Option String)) (d : Program)
    → is_quiet a ≡ true
    → signals (act a d).pool ≡ signals d.pool
unfolding after
act-signals a d h = elim (Option-cases (step a d.pool)) [
  | inl e ↦ ground arith
  | inr (q, e) ↦ ground (arith, quiet-signals a d.pool q h e)
]

act-IsSpent : (a : Action (Option String)) (d : Program) → IsSpent d.pool → IsSpent (act a d).pool
unfolding after
act-IsSpent a d v = elim (Option-cases (step a d.pool)) [
  | inl e ↦ ground arith
  | inr (q, e) ↦ ground (arith, step-IsSpent a d.pool q refl e v)
]

-- A calm event leaves the pool's signals and the loop alone.
abbrev SameMode : Program → Program → Type 0
SameMode d e = (signals e.pool ≡ signals d.pool) × (e.stopping ≡ d.stopping)

handle-SameMode : (e : Event) (d : Program) → IsCalm e → SameMode d (handle e d)
unfolding handle
handle-SameMode (ticker prefer duration fails) d h =
    ground (arith, act-signals (submits prefer (make_task d.task_count duration fails)) d refl)
handle-SameMode stats_ticker d h = (refl, refl)
handle-SameMode shutdown d h = absurd h
handle-SameMode (others a) d h = (act-signals a d h, refl)

handle_all-SameMode :
    (events : List Event) (d : Program) → All IsCalm events → SameMode d (handle_all events d)
unfolding handle_all
handle_all-SameMode [] d h = (refl, refl)
handle_all-SameMode (e ∷ rest) d h =
    let (s, m) = handle_all-SameMode rest (handle e d) h.1 in
    let (s', m') = handle-SameMode e d h.0 in (s ∙ s', m ∙ m')

handle_all-IsSpent :
    (events : List Event) (d : Program) → IsSpent d.pool → IsSpent (handle_all events d).pool
unfolding handle_all handle
handle_all-IsSpent [] d v = v
handle_all-IsSpent (ticker prefer duration fails ∷ rest) d v =
    handle_all-IsSpent rest (handle (ticker prefer duration fails) d)
      (ground (arith, act-IsSpent (submits prefer (make_task d.task_count duration fails)) d v))
handle_all-IsSpent (stats_ticker ∷ rest) d v = handle_all-IsSpent rest d v
handle_all-IsSpent (shutdown ∷ rest) d v =
    handle_all-IsSpent rest (handle shutdown d) (ground (arith, act-IsSpent waits_to_stop d v))
handle_all-IsSpent (others a ∷ rest) d v = handle_all-IsSpent rest (act a d) (act-IsSpent a d v)

started-signals :
    (d : Program)
    → started ≡ some d
    → (d.pool.shutdown ≡ not_begun) × (d.pool.cancelled ≡ false) × (d.stopping ≡ false)
unfolding started new_worker_pool default_config apply_options with_channels clamp_min clamp_max
    start start_workers start_worker
started-signals d e = ground arith

stop_and_wait-signals :
    (p : Pool (Option String))
    → ((stop_and_wait p).is_running ≡ false)
      × ((stop_and_wait p).shutdown ≡ p.shutdown)
      × ((stop_and_wait p).cancelled ≡ p.cancelled)
unfolding stop_and_wait
stop_and_wait-signals p = ground arith

poll_ends-IsSpent :
    (p q : Pool (Option String))
    → step poll_ends p ≡ some q
    → signals p ≡ (not_begun, false, false)
    → (q.workers ≡ p.workers) × IsSpent q
unfolding step stop_when_empty stop
poll_ends-IsSpent p q e s = ground arith

-- The demonstration never stops its pool. Whatever ticks and whatever steps of workers, autoscalers
-- and the receiver of results come before the signal and while `StopAndWait` waits: when its poll
-- sees the queue empty and it returns, the workers are those from before, and the context that would
-- end them is not cancelled, then or after any events that follow.
pub demonstration_never_stops :
    (d : Program) (before waiting later : List Event) (p : Pool (Option String))
    → started ≡ some d
    → All IsCalm before
    → All IsCalm waiting
    → step poll_ends (handle_all waiting (handle shutdown (handle_all before d))).pool ≡ some p
    → let ended = handle_all waiting (handle shutdown (handle_all before d)) in
      (p.workers ≡ ended.pool.workers)
      × IsSpent p
      × IsSpent (handle_all later (handle (others poll_ends) ended)).pool
unfolding handle after step
demonstration_never_stops d before waiting later p e calm calm' polled =
    let (begun, uncancelled, looping) = started-signals d e in
    let (same, mode) = handle_all-SameMode before d calm in
    let stopped = handle_all before d in
    let (off, kept, kept') = stop_and_wait-signals stopped.pool in
    let (same', _) = handle_all-SameMode waiting (handle shutdown stopped) calm' in
    let ended = handle_all waiting (handle shutdown stopped) in
    let (workers, spent) = poll_ends-IsSpent ended.pool p polled (ground arith) in
    (workers, spent, handle_all-IsSpent later (handle (others poll_ends) ended) (ground arith))
