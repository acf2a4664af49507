-- ===== src/Kafka/Closing.antt =====
-- The deferred `Close` of the demonstration's consumer can return.
use huba.Common.{
  ℕ, zero, suc, String, ◌≡◌, refl, ap, ◌∙◌, Bool, true, false, inl, inr, Option, none, some, List,
  [], ◌∷◌, ◌++◌, arith, Bool-cases, Option-cases, length, All, Fallible, ok,
}
use huba.Kafka.Topics.{KafkaConfig}
use huba.Kafka.Consumer.{
  Consumer, new_consumer, close, auto_commit_tick, append_handled, commit_offsets, consume_async,
  stop_consume_async, finish_close,
}
use huba.Kafka.Async.{
  Worker, waiting, committing, handling, Async, Action, fetcher_looks, fetcher_sends,
  fetcher_leaves, fetch_returns, worker_takes, worker_leaves, handler_returns, worker_commits,
  ticks, context_ends, stop_begins, stop_returns, start_async, finish_stop, worker_step,
  fetcher_step, step, after, run,
}
use huba.Kafka.Async.Stopping.{fetcher_end, workers_end, finish_stop-all_ended}
use huba.Kafka.Example.{accepted_actions, run_async_consumer}
use huba.Kafka.Consuming.{Accepts, accepted_actions-Accepts}

-- No handler has an error.
abbrev pub no_error : ℕ → Option String
no_error i = none

module _ {M : Type 0} where
  abbrev flags : Consumer M → Bool × Bool
  flags c = (c.is_consuming, c.stop_commit_closed)

  commit_offsets-flags :
      (answer : Option String) (c : Consumer M) → flags (commit_offsets answer c).0 ≡ flags c
  unfolding commit_offsets
  commit_offsets-flags answer c = ground arith

  append_handled-flags : (m : M) (c : Consumer M) → flags (append_handled m c) ≡ flags c
  unfolding append_handled
  append_handled-flags m c = refl

  auto_commit_tick-flags :
      (tick : Option (Option String)) (c : Consumer M) → flags (auto_commit_tick tick c) ≡ flags c
  unfolding auto_commit_tick
  auto_commit_tick-flags none c = refl
  auto_commit_tick-flags (some answer) c = ground (arith, commit_offsets-flags answer c)

  worker_step-flags :
      (x : Action M) (o : Option (Worker M)) (a b : Async M)
      → worker_step x o a ≡ some b
      → flags b.consumer ≡ flags a.consumer
  unfolding worker_step
  worker_step-flags (worker_takes i) (some waiting) a b e = ground arith
  worker_step-flags (worker_leaves i) (some waiting) a b e = ground arith
  worker_step-flags (handler_returns i (some x)) (some (handling m)) a b e = ground arith
  worker_step-flags (handler_returns i none) (some (handling m)) a b e =
      ground (arith, append_handled-flags m a.consumer)
  worker_step-flags (worker_commits i answer) (some committing) a b e =
      ground (arith, commit_offsets-flags answer a.consumer)
  worker_step-flags x o a b e = absurd (ground arith)

  step-flags :
      (x : Action M) (a b : Async M)
      → Accepts x
      → step x a ≡ some b
      → flags b.consumer ≡ flags a.consumer
  unfolding step fetcher_step
  step-flags (worker_takes i) a b h e = worker_step-flags (worker_takes i) _ a b e
  step-flags (worker_leaves i) a b h e = worker_step-flags (worker_leaves i) _ a b e
  step-flags (handler_returns i x) a b h e = worker_step-flags (handler_returns i x) _ a b e
  step-flags (worker_commits i answer) a b h e = worker_step-flags (worker_commits i answer) _ a b e
  step-flags (ticks answer) a b h e =
      ground (arith, auto_commit_tick-flags (some answer) a.consumer)
  step-flags context_ends a b h e = ground arith
  step-flags stop_begins a b h e = ground arith
  step-flags stop_returns a b h e = absurd h
  step-flags fetcher_looks a b h e = ground arith
  step-flags fetcher_sends a b h e = ground arith
  step-flags fetcher_leaves a b h e = ground arith
  step-flags (fetch_returns x) a b h e = ground arith

  run-flags :
      (actions : List (Action M)) (a : Async M)
      → All Accepts actions
      → flags (run actions a).consumer ≡ flags a.consumer
  unfolding run
  run-flags [] a h = refl
  run-flags (x ∷ rest) a h = elim (Option-cases (step x a)) [
    | inl e ↦ rw (ap (λ o. run rest (after o a)) e) (run-flags rest a h.1)
    | inr (b, e) ↦
        rw (ap (λ o. run rest (after o a)) e) (run-flags rest b h.1 ∙ step-flags x a b h.0 e)
  ]

  accepted_actions-append :
      (xs ys : List (Action M))
      → accepted_actions (xs ++ ys) ≡ accepted_actions xs ++ accepted_actions ys
  accepted_actions-append [] ys = refl
  accepted_actions-append (handler_returns i e ∷ xs) ys =
      ground (arith, accepted_actions-append xs ys)
  accepted_actions-append (stop_begins ∷ xs) ys = accepted_actions-append xs ys
  accepted_actions-append (stop_returns ∷ xs) ys = accepted_actions-append xs ys
  accepted_actions-append (worker_takes i ∷ xs) ys = ground (arith, accepted_actions-append xs ys)
  accepted_actions-append (worker_leaves i ∷ xs) ys = ground (arith, accepted_actions-append xs ys)
  accepted_actions-append (worker_commits i x ∷ xs) ys =
      ground (arith, accepted_actions-append xs ys)
  accepted_actions-append (ticks x ∷ xs) ys = ground (arith, accepted_actions-append xs ys)
  accepted_actions-append (context_ends ∷ xs) ys = ground (arith, accepted_actions-append xs ys)
  accepted_actions-append (fetcher_looks ∷ xs) ys = ground (arith, accepted_actions-append xs ys)
  accepted_actions-append (fetcher_sends ∷ xs) ys = ground (arith, accepted_actions-append xs ys)
  accepted_actions-append (fetcher_leaves ∷ xs) ys = ground (arith, accepted_actions-append xs ys)
  accepted_actions-append (fetch_returns x ∷ xs) ys = ground (arith, accepted_actions-append xs ys)

  accepted_actions-workers_end :
      (n : ℕ) (answers : ℕ → Option String)
      → accepted_actions (workers_end {M = M} n no_error answers) ≡ workers_end n no_error answers
  accepted_actions-workers_end zero answers = refl
  accepted_actions-workers_end (suc n) answers =
      accepted_actions-append (workers_end n no_error answers)
        (handler_returns n none ∷ worker_commits n (answers n) ∷ worker_leaves n ∷ [])
      ∙ ap
          (λ (t : List (Action M)).
            t ++ handler_returns n none ∷ worker_commits n (answers n) ∷ worker_leaves n ∷ [])
          (accepted_actions-workers_end n answers)

  -- `Close` panics only where the auto-commit loop was stopped before; with good answers it gives no
  -- error.
  close_succeeds :
      (c : Consumer M)
      → flags c ≡ (false, false)
      → (k : Consumer M) × (close none none c ≡ some (k, none))
  unfolding close stop_consume_async commit_offsets finish_close
  close_succeeds c h = elim (Option-cases (close none none c)) [
    | inl n ↦ absurd (ground arith)
    | inr ((k, x), e) ↦ (k, ground arith)
  ]

  started-flags :
      (auto_commit : Bool) (concurrency : ℕ) (a : Async M)
      → start_async concurrency (new_consumer auto_commit) ≡ ok a
      → flags a.consumer ≡ (true, false)
  unfolding new_consumer start_async consume_async
  started-flags auto_commit concurrency a e = ground arith

  begun-stop :
      (b : Async M)
      → b.consumer.is_consuming ≡ true
      → let c = run (stop_begins ∷ []) b in
        (c.consumer.stop_consume_closed ≡ true) × (c.workers ≡ b.workers)
  unfolding run step
  begun-stop b h = ground (arith, Bool-cases b.consumer.stop_consume_closed)

  abbrev off : Async M → Async M
  off f = record f { consumer = record (f.consumer) { is_consuming = false } }

  closing_ends :
      (answer : Fallible String M) (answers : ℕ → Option String) (n : ℕ) (c : Async M)
      → length c.workers ≡ n
      → c.consumer.stop_consume_closed ≡ true
      → let f = run (accepted_actions (fetcher_end answer ++ workers_end n no_error answers)) c in
        finish_stop f ≡ some (off f)
  closing_ends answer answers n c same stopped =
      rw (accepted_actions-workers_end n answers)
        (rw (← same) (finish_stop-all_ended answer no_error answers c stopped))

  -- The parts of a run put together.
  run_async_consumer_of :
      (config : KafkaConfig) (concurrency : ℕ) (during closing : List (Action M))
      (tick : Option (Option String)) (a g : Async M) (k : Consumer M)
      → start_async concurrency (new_consumer config.auto_commit) ≡ ok a
      → (run (accepted_actions during) a).context_done ≡ true
      → finish_stop (
          run (accepted_actions closing) (run (stop_begins ∷ []) (run (accepted_actions during) a)))
        ≡ some g
      → close none none (auto_commit_tick tick g.consumer) ≡ some (k, none)
      → run_async_consumer config concurrency during closing tick none none
        ≡ some (record g { consumer = auto_commit_tick tick g.consumer }, some (k, none))
  unfolding run_async_consumer
  run_async_consumer_of config concurrency during closing tick a g k s done ended closed =
      ground arith

  -- The deferred `Close` of `runAsyncConsumer` can return, whatever its goroutines did until the
  -- context was done: if then `FetchMessage` returns, with whatever answer, and the handlers and the
  -- commits that are under way return, those with whatever answers, the fetcher and all workers
  -- return and with them `StopConsumeAsync`; and where the last commit is acknowledged and the reader
  -- closes, `Close` gives no error.
  pub run_async_consumer_returns :
      (config : KafkaConfig) (concurrency : ℕ) (during : List (Action M))
      (answer : Fallible String M) (answers : ℕ → Option String) (tick : Option (Option String))
      (a : Async M)
      → start_async concurrency (new_consumer config.auto_commit) ≡ ok a
      → (run (accepted_actions during) a).context_done ≡ true
      → let closing =
          fetcher_end answer
          ++ workers_end (length (run (accepted_actions during) a).workers) no_error answers in
        (d : Async M) × ((k : Consumer M) × (run_async_consumer config concurrency during closing
              tick none none
            ≡ some (d, some (k, none))))
  run_async_consumer_returns config concurrency during answer answers tick a s done =
      let b = run (accepted_actions during) a in
      let c = run (stop_begins ∷ []) b in
      let n = length b.workers in
      let closing : List (Action M) = fetcher_end answer ++ workers_end n no_error answers in
      let on =
        run-flags (accepted_actions during) a (accepted_actions-Accepts during)
        ∙ started-flags config.auto_commit concurrency a s in
      let (stopped, same) = begun-stop b (ap (λ (x : Bool × Bool). x.0) on) in
      let f = run (accepted_actions closing) c in
      let kept =
        run-flags (accepted_actions closing) c (accepted_actions-Accepts closing)
        ∙ run-flags (stop_begins ∷ []) b (tt, tt)
        ∙ on in
      let ended : finish_stop f ≡ some (off f) =
        closing_ends answer answers n c (ap length same) stopped in
      let g = off f in
      let last = auto_commit_tick tick g.consumer in
      let (k, closed) =
        close_succeeds last
          (auto_commit_tick-flags tick g.consumer ∙ ap (λ (x : Bool × Bool). (false, x.1)) kept) in
      (
        record g { consumer = last },
        (k, run_async_consumer_of config concurrency during closing tick a g k s done ended closed),
      )
