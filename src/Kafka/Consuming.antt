-- ===== src/Kafka/Consuming.antt =====
-- What becomes of the messages that the demonstration's consumer fetches.
use huba.Common.{
  ℕ, ◌+◌, String, ◌≡◌, refl, ap, ◌∙◌, Bool, true, inl, inr, Option, none, some, List, [], ◌∷◌,
  arith, Bool-cases, Option-cases, Fallible-cases, All, ok,
}
use huba.Kafka.Topics.{KafkaConfig}
use huba.Kafka.Consumer.{Consumer, new_consumer, close, auto_commit_tick, consume_async}
use huba.Kafka.Commits.{InStep, close_commits_all, auto_commit_tick-InStep}
use huba.Kafka.Async.{
  Worker, waiting, committing, handling, Async, Action, fetcher_looks, fetcher_sends,
  fetcher_leaves, fetch_returns, worker_takes, worker_leaves, handler_returns, worker_commits,
  ticks, context_ends, stop_begins, stop_returns, start_async, finish_stop, worker_step,
  fetcher_step, step, after, run,
}
use huba.Kafka.Async.Weights.{weigh, at_workers-all_gone}
use huba.Kafka.Async.Ledger.{Ledger, run-Ledger, start_async-Ledger, auto_commit_tick-handled}
use huba.Kafka.Example.{accepted_actions, run_async_consumer}

module _ {M : Type 0} where
  -- An action of the consumer of the demonstration, before `StopConsumeAsync` returns: it refuses no
  -- message.
  abbrev pub Accepts : Action M → Type 0
  Accepts (handler_returns i (some e)) = ⊥
  Accepts stop_returns = ⊥
  Accepts b = Unit

  worker_step-refused :
      (x : Action M) (o : Option (Worker M)) (a b : Async M)
      → Accepts x
      → worker_step x o a ≡ some b
      → b.refused ≡ a.refused
  unfolding worker_step
  worker_step-refused (worker_takes i) (some waiting) a b h e = ground arith
  worker_step-refused (worker_leaves i) (some waiting) a b h e = ground arith
  worker_step-refused (handler_returns i (some x)) (some (handling m)) a b h e = absurd h
  worker_step-refused (handler_returns i none) (some (handling m)) a b h e = ground arith
  worker_step-refused (worker_commits i answer) (some committing) a b h e = ground arith
  worker_step-refused x o a b h e = absurd (ground arith)

  step-refused :
      (x : Action M) (a b : Async M) → Accepts x → step x a ≡ some b → b.refused ≡ a.refused
  unfolding step fetcher_step
  step-refused (worker_takes i) a b h e = worker_step-refused (worker_takes i) _ a b h e
  step-refused (worker_leaves i) a b h e = worker_step-refused (worker_leaves i) _ a b h e
  step-refused (handler_returns i x) a b h e = worker_step-refused (handler_returns i x) _ a b h e
  step-refused (worker_commits i answer) a b h e =
      worker_step-refused (worker_commits i answer) _ a b h e
  step-refused (ticks answer) a b h e = ground arith
  step-refused context_ends a b h e = ground arith
  step-refused stop_begins a b h e = ground arith
  step-refused stop_returns a b h e = absurd h
  step-refused fetcher_looks a b h e = ground arith
  step-refused fetcher_sends a b h e = ground arith
  step-refused fetcher_leaves a b h e = ground arith
  step-refused (fetch_returns x) a b h e = ground arith

  run-refused :
      (actions : List (Action M)) (a : Async M)
      → All Accepts actions
      → (run actions a).refused ≡ a.refused
  unfolding run
  run-refused [] a h = refl
  run-refused (x ∷ rest) a h = elim (Option-cases (step x a)) [
    | inl e ↦ rw (ap (λ o. run rest (after o a)) e) (run-refused rest a h.1)
    | inr (b, e) ↦
        rw (ap (λ o. run rest (after o a)) e) (run-refused rest b h.1 ∙ step-refused x a b h.0 e)
  ]

  pub accepted_actions-Accepts :
      (actions : List (Action M)) → All Accepts (accepted_actions actions)
  accepted_actions-Accepts [] = tt
  accepted_actions-Accepts (handler_returns i e ∷ rest) = (tt, accepted_actions-Accepts rest)
  accepted_actions-Accepts (stop_begins ∷ rest) = accepted_actions-Accepts rest
  accepted_actions-Accepts (stop_returns ∷ rest) = accepted_actions-Accepts rest
  accepted_actions-Accepts (worker_takes i ∷ rest) = (tt, accepted_actions-Accepts rest)
  accepted_actions-Accepts (worker_leaves i ∷ rest) = (tt, accepted_actions-Accepts rest)
  accepted_actions-Accepts (worker_commits i x ∷ rest) = (tt, accepted_actions-Accepts rest)
  accepted_actions-Accepts (ticks x ∷ rest) = (tt, accepted_actions-Accepts rest)
  accepted_actions-Accepts (context_ends ∷ rest) = (tt, accepted_actions-Accepts rest)
  accepted_actions-Accepts (fetcher_looks ∷ rest) = (tt, accepted_actions-Accepts rest)
  accepted_actions-Accepts (fetcher_sends ∷ rest) = (tt, accepted_actions-Accepts rest)
  accepted_actions-Accepts (fetcher_leaves ∷ rest) = (tt, accepted_actions-Accepts rest)
  accepted_actions-Accepts (fetch_returns x ∷ rest) = (tt, accepted_actions-Accepts rest)

  -- When `StopConsumeAsync` returns, no goroutine holds a message.
  stopped-weight :
      (weight : M → ℕ) (a b : Async M)
      → Ledger weight 0 a
      → a.refused ≡ []
      → finish_stop a ≡ some b
      → (weigh weight b.fetched
          ≡ weigh weight b.consumer.handled + weigh weight b.messages + weigh weight b.dropped)
        × InStep b.consumer
  unfolding finish_stop
  stopped-weight weight a b h r e =
      ground (arith, h.all_there, h.in_step, at_workers-all_gone weight a.workers)

  tick-kept :
      (tick : Option (Option String)) (c : Consumer M)
      → (auto_commit_tick tick c).handled ≡ c.handled
  unfolding auto_commit_tick
  tick-kept none c = refl
  tick-kept (some answer) c = ground (arith, auto_commit_tick-handled answer c)

  -- The last tick and the final commit.
  closed-weight :
      (weight : M → ℕ) (tick : Option (Option String)) (ca cla : Option String) (g d : Async M)
      (k : Consumer M)
      → (weigh weight g.fetched
          ≡ weigh weight g.consumer.handled + weigh weight g.messages + weigh weight g.dropped)
        × InStep g.consumer
      → record g { consumer = auto_commit_tick tick g.consumer } ≡ d
      → close ca cla (auto_commit_tick tick g.consumer) ≡ some (k, none)
      → (k.committed ≡ d.consumer.handled)
        × (k.uncommitted ≡ [])
        × (k.reader_closed ≡ true)
        × (weigh weight d.fetched
            ≡ weigh weight k.committed + weigh weight d.messages + weigh weight d.dropped)
  closed-weight weight tick ca cla g d k (h, v) at_d closed =
      let c = auto_commit_tick tick g.consumer in
      let kept = tick-kept tick g.consumer in
      let (all, none_left, _, shut, _) =
        close_commits_all ca cla c k (auto_commit_tick-InStep tick g.consumer v) closed in
      rw (← at_d) (all, none_left, shut, rw (all, kept) h)

  started-Ledger :
      (weight : M → ℕ) (auto_commit : Bool) (concurrency : ℕ) (a : Async M)
      → start_async concurrency (new_consumer auto_commit) ≡ ok a
      → Ledger weight 0 a × (a.refused ≡ [])
  unfolding new_consumer start_async consume_async
  started-Ledger weight auto_commit concurrency a e =
      (start_async-Ledger weight concurrency (new_consumer auto_commit) a refl e, ground arith)

  -- The ledger and the refused messages along the consumer's actions.
  module _ (weight : M → ℕ) (actions : List (Action M)) (a : Async M) where
    accepted-Ledger :
        All Accepts actions
        → Ledger weight 0 a × (a.refused ≡ [])
        → Ledger weight 0 (run actions a) × ((run actions a).refused ≡ [])
    accepted-Ledger h v = (run-Ledger weight 0 actions a v.0, run-refused actions a h ∙ v.1)

  -- The consumer of the demonstration, `runAsyncConsumer`, loses nothing, in any interleaving of its
  -- goroutines and with whatever answers of the broker, for any settings and any concurrency that is
  -- not negative: if the context is done, and its deferred `Close` returns and gives no error, then
  -- the broker has acknowledged exactly the messages that the handler has accepted, in order, none
  -- waits for a commit, and the reader is closed. By any weight of messages, all that were fetched are
  -- those acknowledged, those left in the channel, and those that the fetcher still had to send when
  -- it returned: no message is with a goroutine any more.
  pub run_async_consumer_commits :
      (weight : M → ℕ) (config : KafkaConfig) (concurrency : ℕ) (during closing : List (Action M))
      (tick : Option (Option String)) (commit_answer close_answer : Option String) (d : Async M)
      (k : Consumer M)
      → run_async_consumer config concurrency during closing tick commit_answer close_answer
        ≡ some (d, some (k, none))
      → (k.committed ≡ d.consumer.handled)
        × (k.uncommitted ≡ [])
        × (k.reader_closed ≡ true)
        × (weigh weight d.fetched
            ≡ weigh weight k.committed + weigh weight d.messages + weigh weight d.dropped)
  unfolding run_async_consumer
  run_async_consumer_commits weight config concurrency during closing tick ca cla d k e =
      elim (Fallible-cases (start_async concurrency (new_consumer {M = M} config.auto_commit))) [
        | inr (x, s) ↦ absurd (ground arith)
        | inl (a, s) ↦
            let b = run (accepted_actions during) a in
            let c = run (stop_begins ∷ []) b in
            let f = run (accepted_actions closing) c in
            let v1 =
              accepted-Ledger weight (accepted_actions during) a (accepted_actions-Accepts during)
                (started-Ledger weight config.auto_commit concurrency a s) in
            let v2 = accepted-Ledger weight (stop_begins ∷ []) b (tt, tt) v1 in
            let v3 =
              accepted-Ledger weight (accepted_actions closing) c (accepted_actions-Accepts closing)
                v2 in
            elim (Option-cases (finish_stop f)) [
              | inl n ↦ absurd (ground (arith, Bool-cases b.context_done))
              | inr (g, n) ↦
                  closed-weight weight tick ca cla g d k (stopped-weight weight f g v3.0 v3.1 n)
                    (ground (arith, Bool-cases b.context_done))
                    (ground (arith, Bool-cases b.context_done))
            ]
      ]
