-- ===== src/WorkerPool/Stopping.antt =====
-- Theorems on `Stop` and `StopAndWait`.
use huba.Common.{
  ◌+◌, ◌≡◌, refl, ◌⊎◌, inl, inr, Bool, true, false, some, List, [], ◌∷◌, arith, Bool-cases, All,
}
use huba.WorkerPool.Types.{Pool, not_begun, finished}
use huba.WorkerPool.Control.{stop, stop_step, stop_and_wait, stop_when_empty, pause, resume}
use huba.WorkerPool.Schedule.{
  Action, starts, stops, stop_proceeds, waits_to_stop, poll_ends, pauses, resumes, step, run,
}
use huba.WorkerPool.Shutdown.{is_quiet, quiet-signals, start-signals, run_keeps}

-- `shutdownOnce` is used up and the context was never cancelled.
abbrev pub IsSpent : {V : Type 0} → Pool V → Type 0
IsSpent p = (p.shutdown ≡ finished) × (p.cancelled ≡ false)

abbrev pub anything : {V : Type 0} → Action V → Bool
anything a = true

abbrev all_allowed : {V : Type 0} (actions : List (Action V)) → All (λ a. anything a ≡ true) actions
all_allowed [] = tt
all_allowed (a ∷ rest) = (refl, all_allowed rest)

module _ {V : Type 0} where
  loud-IsSpent :
      (a : Action V) (p q : Pool V) → is_quiet a ≡ false → step a p ≡ some q → IsSpent p → IsSpent q
  unfolding step stop stop_step stop_and_wait stop_when_empty pause resume
  loud-IsSpent starts p q h e v = ground (arith, start-signals p)
  loud-IsSpent stops p q h e v = ground arith
  loud-IsSpent stop_proceeds p q h e v = ground arith
  loud-IsSpent waits_to_stop p q h e v = ground arith
  loud-IsSpent poll_ends p q h e v = ground arith
  loud-IsSpent pauses p q h e v = ground arith
  loud-IsSpent resumes p q h e v = ground arith
  loud-IsSpent _ p q h e v = cc

  pub step-IsSpent :
      (a : Action V) (p q : Pool V) → anything a ≡ true → step a p ≡ some q → IsSpent p → IsSpent q
  step-IsSpent a p q _ e v = elim (Bool-cases (is_quiet a)) [
    | inl h ↦ ground (arith, quiet-signals a p q h e)
    | inr h ↦ loud-IsSpent a p q h e v
  ]

  -- A first `Stop` on a pool that is marked as not running (never started, paused, or inside
  -- `StopAndWait`) uses `shutdownOnce` up without cancelling the context: whatever is called
  -- afterwards, the context is never cancelled.
  pub stop_not_running_is_final :
      (p : Pool V) (actions : List (Action V))
      → p.is_running ≡ false
      → p.shutdown ≡ not_begun
      → p.cancelled ≡ false
      → IsSpent (run actions (stop p))
  unfolding stop
  stop_not_running_is_final p actions r s c =
      run_keeps IsSpent anything step-IsSpent actions (stop p) (all_allowed actions) (ground arith)

  -- Not a call that marks the pool as running again.
  abbrev pub keeps_stopped : Action V → Bool
  keeps_stopped starts = false
  keeps_stopped resumes = false
  keeps_stopped _ = true

  -- Marked as not running and never cancelled: a `Stop` is without effect, whether it is the first.
  abbrev pub IsOff : Pool V → Type 0
  IsOff p =
      (p.is_running ≡ false)
      × (p.cancelled ≡ false)
      × ((p.shutdown ≡ not_begun) ⊎ (p.shutdown ≡ finished))

  loud-IsOff :
      (a : Action V) (p q : Pool V)
      → is_quiet a ≡ false
      → keeps_stopped a ≡ true
      → step a p ≡ some q
      → IsOff p
      → IsOff q
  unfolding step stop stop_step stop_and_wait stop_when_empty pause
  loud-IsOff stops p q h k e v = ground arith
  loud-IsOff stop_proceeds p q h k e v = ground arith
  loud-IsOff waits_to_stop p q h k e v = ground arith
  loud-IsOff poll_ends p q h k e v = ground arith
  loud-IsOff pauses p q h k e v = ground arith
  loud-IsOff starts p q h k e v = cc
  loud-IsOff resumes p q h k e v = cc
  loud-IsOff _ p q h k e v = cc

  step-IsOff :
      (a : Action V) (p q : Pool V) → keeps_stopped a ≡ true → step a p ≡ some q → IsOff p → IsOff q
  step-IsOff a p q k e v = elim (Bool-cases (is_quiet a)) [
    | inl h ↦ ground (arith, quiet-signals a p q h e)
    | inr h ↦ loud-IsOff a p q h k e v
  ]

  stop_and_wait-IsOff :
      (p : Pool V)
      → p.is_running ≡ true
      → p.shutdown ≡ not_begun
      → p.cancelled ≡ false
      → (IsOff (stop_and_wait p)) × ((stop_and_wait p).polling ≡ p.polling + 1)
  unfolding stop_and_wait
  stop_and_wait-IsOff p r s c = ground arith

  off-poll_ends :
      (p q : Pool V) → IsOff p → step poll_ends p ≡ some q → (q.workers ≡ p.workers) × IsSpent q
  unfolding step stop_when_empty stop
  off-poll_ends p q v e = ground arith

  -- `StopAndWait` on a running pool that was never shut down never stops it, unless somebody calls
  -- `Start` or `Resume` while it waits. Whatever tasks are queued, and whatever else happens while it
  -- polls: when its poll sees the queue empty and its call of `Stop` returns, no worker has been ended
  -- by it, the context is not cancelled, and it is not cancelled after any actions that follow. While
  -- it waits, the context is not cancelled either.
  pub stop_and_wait_never_stops :
      (p q : Pool V) (during later : List (Action V))
      → p.is_running ≡ true
      → p.shutdown ≡ not_begun
      → p.cancelled ≡ false
      → All (λ a. keeps_stopped a ≡ true) during
      → step poll_ends (run during (stop_and_wait p)) ≡ some q
      → ((run during (stop_and_wait p)).cancelled ≡ false)
        × (q.workers ≡ (run during (stop_and_wait p)).workers)
        × IsSpent (run later q)
  stop_and_wait_never_stops p q during later r s c keep e =
      let (off, _) = stop_and_wait-IsOff p r s c in
      let off' = run_keeps IsOff keeps_stopped step-IsOff during (stop_and_wait p) keep off in
      let (workers, spent) = off-poll_ends (run during (stop_and_wait p)) q off' e in
      (off'.1, workers, run_keeps IsSpent anything step-IsSpent later q (all_allowed later) spent)
