-- ===== src/Kafka/Async/Ledger.antt =====
-- Where the messages that `ConsumeAsync` has fetched are.
use huba.Common.{
  ℕ, ◌+◌, ◌≤◌, String, ◌≡◌, refl, sym, ap, ◌∙◌, inl, inr, Option, none, some, List, [], ◌∷◌, ◌++◌,
  arith, Option-cases, length, get_elem?, length-append, ok, err,
}
use huba.Kafka.Consumer.{Consumer, consume_async, append_handled, commit_offsets, auto_commit_tick}
use huba.Kafka.Commits.{
  InStep, commit_offsets-InStep, append_handled-InStep, auto_commit_tick-InStep,
}
use huba.Kafka.Async.{
  Fetcher, at_head, fetching, offering, Worker, waiting, committing, worker_gone, handling, Async,
  Action, fetcher_looks, fetcher_sends, fetcher_leaves, fetch_returns, worker_takes, worker_leaves,
  handler_returns, worker_commits, ticks, context_ends, stop_begins, stop_returns, start_async,
  take_message, worker_step, fetcher_step, step, after, run,
}
use huba.Kafka.Async.Weights.{
  weigh, at_workers, at_fetcher, weigh-append, at_workers-set, at_workers-replicate,
}

module _ {M : Type 0} where
  -- The worker that an action is about.
  abbrev position : Action M → ℕ
  position (worker_takes i) = i
  position (worker_leaves i) = i
  position (handler_returns i e) = i
  position (worker_commits i answer) = i
  position b = 0

  append_handled_lem : (m : M) (c : Consumer M) → (append_handled m c).handled ≡ c.handled ++ m ∷ []
  unfolding append_handled
  append_handled_lem m c = refl

  commit_offsets-handled :
      (answer : Option String) (c : Consumer M) → (commit_offsets answer c).0.handled ≡ c.handled
  unfolding commit_offsets
  commit_offsets-handled answer c = ground arith

  pub auto_commit_tick-handled :
      (answer : Option String) (c : Consumer M)
      → (auto_commit_tick (some answer) c).handled ≡ c.handled
  unfolding auto_commit_tick
  auto_commit_tick-handled answer c = ground (arith, commit_offsets-handled answer c)

module _ {M : Type 0} (weight : M → ℕ) where
  -- `before` is the weight of what was handled before the start.
  pub record Ledger (before : ℕ) (a : Async M) : Type 0 where
    pub all_there :
        before + weigh weight a.fetched
        ≡ at_fetcher weight a.fetcher
          + weigh weight a.messages
          + at_workers weight a.workers
          + weigh weight a.consumer.handled
          + weigh weight a.refused
          + weigh weight a.dropped
    pub room : length a.messages ≤ a.capacity
    pub in_step : InStep a.consumer

  module _ (before : ℕ) (a b : Async M) (h : Ledger before a) where
    fetcher_step-Ledger :
        (x : Action M) (f : Fetcher M)
        → a.fetcher ≡ f
        → fetcher_step x f a ≡ some b
        → Ledger before b
    unfolding fetcher_step
    fetcher_step-Ledger fetcher_looks at_head p e = ground arith
    fetcher_step-Ledger (fetch_returns (ok m)) fetching p e =
        ground (arith, weigh-append weight a.fetched (m ∷ []))
    fetcher_step-Ledger (fetch_returns (err x)) fetching p e = ground arith
    fetcher_step-Ledger fetcher_sends (offering m) p e =
        ground (arith, weigh-append weight a.messages (m ∷ []), length-append a.messages (m ∷ []))
    fetcher_step-Ledger fetcher_leaves (offering m) p e =
        ground (arith, weigh-append weight a.dropped (m ∷ []))
    fetcher_step-Ledger x f p e = absurd (ground arith)

    take_message-Ledger :
        (j : ℕ) (messages : List M)
        → a.messages ≡ messages
        → get_elem? a.workers j ≡ some waiting
        → take_message j messages a ≡ some b
        → Ledger before b
    unfolding take_message
    take_message-Ledger j [] q p e = absurd (ground arith)
    take_message-Ledger j (m ∷ rest) q p e =
        ground (arith, at_workers-set weight a.workers j (handling m) waiting p)

    worker_step-Ledger :
        (x : Action M) (w : Worker M)
        → get_elem? a.workers (position x) ≡ some w
        → worker_step x (some w) a ≡ some b
        → Ledger before b
    unfolding worker_step
    worker_step-Ledger (worker_takes j) waiting p e = take_message-Ledger j a.messages refl p e
    worker_step-Ledger (worker_leaves j) waiting p e =
        ground (arith, at_workers-set weight a.workers j worker_gone waiting p)
    worker_step-Ledger (handler_returns j (some x)) (handling m) p e = ground (
      arith,
      at_workers-set weight a.workers j waiting (handling m) p,
      weigh-append weight a.refused (m ∷ []),
    )
    worker_step-Ledger (handler_returns j none) (handling m) p e = ground (
      arith,
      at_workers-set weight a.workers j waiting (handling m) p,
      at_workers-set weight a.workers j committing (handling m) p,
      weigh-append weight a.consumer.handled (m ∷ []),
      append_handled-InStep m a.consumer h.in_step,
      append_handled_lem m a.consumer,
    )
    worker_step-Ledger (worker_commits j answer) committing p e = ground (
      arith,
      at_workers-set weight a.workers j waiting committing p,
      commit_offsets-InStep answer a.consumer h.in_step,
      commit_offsets-handled answer a.consumer,
    )
    worker_step-Ledger x w p e = absurd (ground arith)

    at_position :
        (x : Action M)
        → worker_step x (get_elem? a.workers (position x)) a ≡ some b
        → Ledger before b
    unfolding worker_step
    at_position x e = elim (Option-cases (get_elem? a.workers (position x))) [
      | inl q ↦ absurd (ground arith)
      | inr (w, q) ↦ worker_step-Ledger x w q (ap (λ o. worker_step x o a) (sym q) ∙ e)
    ]

    step-Ledger : (x : Action M) → step x a ≡ some b → Ledger before b
    unfolding step
    step-Ledger (worker_takes i) e = at_position (worker_takes i) e
    step-Ledger (worker_leaves i) e = at_position (worker_leaves i) e
    step-Ledger (handler_returns i x) e = at_position (handler_returns i x) e
    step-Ledger (worker_commits i answer) e = at_position (worker_commits i answer) e
    step-Ledger (ticks answer) e = ground (
      arith,
      auto_commit_tick-InStep (some answer) a.consumer h.in_step,
      auto_commit_tick-handled answer a.consumer,
    )
    step-Ledger context_ends e = ground arith
    step-Ledger stop_begins e = ground arith
    step-Ledger stop_returns e = ground arith
    step-Ledger fetcher_looks e = fetcher_step-Ledger fetcher_looks a.fetcher refl e
    step-Ledger fetcher_sends e = fetcher_step-Ledger fetcher_sends a.fetcher refl e
    step-Ledger fetcher_leaves e = fetcher_step-Ledger fetcher_leaves a.fetcher refl e
    step-Ledger (fetch_returns x) e = fetcher_step-Ledger (fetch_returns x) a.fetcher refl e

  pub run-Ledger :
      (before : ℕ) (actions : List (Action M)) (a : Async M)
      → Ledger before a
      → Ledger before (run actions a)
  unfolding run
  run-Ledger before [] a h = h
  run-Ledger before (x ∷ rest) a h = elim (Option-cases (step x a)) [
    | inl e ↦ rw (ap (λ o. run rest (after o a)) e) (run-Ledger before rest a h)
    | inr (b, e) ↦
        rw (ap (λ o. run rest (after o a)) e)
          (run-Ledger before rest b (step-Ledger before a b h x e))
  ]

  pub start_async-Ledger :
      (concurrency : ℕ) (c : Consumer M) (a : Async M)
      → InStep c
      → start_async concurrency c ≡ ok a
      → Ledger (weigh weight c.handled) a
  unfolding start_async consume_async
  start_async-Ledger concurrency c a h e = ground (arith, at_workers-replicate weight concurrency)

-- Whatever the broker, the handler, the context and the callers of `StopConsumeAsync` do, in every
-- interleaving after `ConsumeAsync`: no message is lost or taken twice. By any weight of messages,
-- those fetched since the start and those handled before it are together those that the fetcher is
-- sending, that are in the channel or in a handler, that the handlers have accepted or refused, and
-- that the fetcher gave up at the end. The accepted ones are, in order, those acknowledged by the
-- broker and those that wait for a commit, and the channel is never overfull.
pub run-start_async-Ledger :
    {M : Type 0} (weight : M → ℕ) (concurrency : ℕ) (c : Consumer M) (a : Async M)
    (actions : List (Action M))
    → c.handled ≡ c.committed ++ c.uncommitted
    → start_async concurrency c ≡ ok a
    → Ledger weight (weigh weight c.handled) (run actions a)
run-start_async-Ledger weight concurrency c a actions h e =
    run-Ledger weight (weigh weight c.handled) actions a
      (start_async-Ledger weight concurrency c a h e)
