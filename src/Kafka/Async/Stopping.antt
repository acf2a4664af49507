-- ===== src/Kafka/Async/Stopping.antt =====
-- When `StopConsumeAsync` returns.
use huba.Common.{
  get_elem?-set_self, get_elem?-below, get_elem?-set_ne, ℕ, zero, suc, ◌≤◌, ◌<◌, String, ◌≡◌, refl,
  ap, ◌∙◌, inl, inr, Bool, true, false, Option, none, some, List, [], ◌∷◌, ◌++◌, arith, ◌==◌,
  ==_iff, Bool-cases, Option-cases, length, get_elem?, All, length-set, Fallible, ok, err,
}
use huba.Kafka.Consumer.{Consumer, append_handled, commit_offsets, auto_commit_tick}
use huba.Kafka.Async.{
  Fetcher, at_head, fetching, fetcher_gone, offering, Worker, waiting, committing, worker_gone,
  handling, Async, Action, fetcher_looks, fetcher_leaves, fetch_returns, worker_takes,
  worker_leaves, handler_returns, worker_commits, ticks, stop_returns, all_gone, finish_stop,
  worker_step, fetcher_step, step, after, run,
}
use huba.Kafka.Async.Endings.{worker_ends}

module _ {M : Type 0} where
  abbrev pub awaits_answer : Action M → Bool
  awaits_answer (fetch_returns answer) = false
  awaits_answer b = true

  -- While `FetchMessage` has not returned.
  record Hangs (consuming : Bool) (a : Async M) : Type 0 where
    in_fetch : a.fetcher ≡ fetching
    flag : a.consumer.is_consuming ≡ consuming

  auto_commit_tick-flag :
      (answer : Option String) (c : Consumer M)
      → (auto_commit_tick (some answer) c).is_consuming ≡ c.is_consuming
  unfolding auto_commit_tick commit_offsets
  auto_commit_tick-flag answer c = ground arith

  commit_offsets-flag :
      (answer : Option String) (c : Consumer M)
      → (commit_offsets answer c).0.is_consuming ≡ c.is_consuming
  unfolding commit_offsets
  commit_offsets-flag answer c = ground arith

  append_handled-flag :
      (m : M) (c : Consumer M) → (append_handled m c).is_consuming ≡ c.is_consuming
  unfolding append_handled
  append_handled-flag m c = refl

  module _ (consuming : Bool) (a b : Async M) (h : Hangs consuming a) where
    worker_step-Hangs :
        (x : Action M) (o : Option (Worker M)) → worker_step x o a ≡ some b → Hangs consuming b
    unfolding worker_step
    worker_step-Hangs (worker_takes i) (some waiting) e = ground arith
    worker_step-Hangs (worker_leaves i) (some waiting) e = ground arith
    worker_step-Hangs (handler_returns i (some x)) (some (handling m)) e = ground arith
    worker_step-Hangs (handler_returns i none) (some (handling m)) e =
        ground (arith, append_handled-flag m a.consumer)
    worker_step-Hangs (worker_commits i answer) (some committing) e =
        ground (arith, commit_offsets-flag answer a.consumer)
    worker_step-Hangs x o e = absurd (ground arith)

    step-Hangs : (x : Action M) → awaits_answer x ≡ true → step x a ≡ some b → Hangs consuming b
    unfolding step fetcher_step
    step-Hangs (worker_takes i) n e = worker_step-Hangs (worker_takes i) (get_elem? a.workers i) e
    step-Hangs (worker_leaves i) n e = worker_step-Hangs (worker_leaves i) (get_elem? a.workers i) e
    step-Hangs (handler_returns i x) n e =
        worker_step-Hangs (handler_returns i x) (get_elem? a.workers i) e
    step-Hangs (worker_commits i answer) n e =
        worker_step-Hangs (worker_commits i answer) (get_elem? a.workers i) e
    step-Hangs (ticks answer) n e = ground (arith, auto_commit_tick-flag answer a.consumer)
    step-Hangs x n e = ground arith

  run-Hangs :
      (consuming : Bool) (actions : List (Action M)) (a : Async M)
      → All (λ x. awaits_answer x ≡ true) actions
      → Hangs consuming a
      → Hangs consuming (run actions a)
  unfolding run
  run-Hangs consuming [] a q h = h
  run-Hangs consuming (x ∷ rest) a q h = elim (Option-cases (step x a)) [
    | inl e ↦ rw (ap (λ o. run rest (after o a)) e) (run-Hangs consuming rest a q.1 h)
    | inr (b, e) ↦
        rw (ap (λ o. run rest (after o a)) e)
          (run-Hangs consuming rest b q.1 (step-Hangs consuming a b h x q.0 e))
  ]

  run-append : (xs ys : List (Action M)) (a : Async M) → run (xs ++ ys) a ≡ run ys (run xs a)
  unfolding run
  run-append [] ys a = refl
  run-append (x ∷ xs) ys a = run-append xs ys (after (step x a) a)

  -- `FetchMessage` returns, and the fetcher with it.
  abbrev pub fetcher_end : Fallible String M → List (Action M)
  fetcher_end answer = fetch_returns answer ∷ fetcher_looks ∷ fetcher_leaves ∷ []

  -- The handlers of the first n workers return, their commits are answered, and they return.
  abbrev pub workers_end : ℕ → (ℕ → Option String) → (ℕ → Option String) → List (Action M)
  workers_end zero problems answers = []
  workers_end (suc n) problems answers =
      workers_end n problems answers
      ++ handler_returns n (problems n) ∷ worker_commits n (answers n) ∷ worker_leaves n ∷ []

  fetcher_ends :
      (answer : Fallible String M) (f : Fetcher M) (a : Async M)
      → a.fetcher ≡ f
      → a.consumer.stop_consume_closed ≡ true
      → let b = run (fetcher_end answer) a in
        (b.fetcher ≡ fetcher_gone)
        × (b.workers ≡ a.workers)
        × (b.consumer.stop_consume_closed ≡ true)
  unfolding run step fetcher_step
  fetcher_ends answer at_head a p c = ground arith
  fetcher_ends (ok m) fetching a p c = ground arith
  fetcher_ends (err e) fetching a p c = ground arith
  fetcher_ends answer fetcher_gone a p c = ground arith
  fetcher_ends answer (offering m) a p c = ground arith

  record Winding (n : ℕ) (a b : Async M) : Type 0 where
    same_length : length b.workers ≡ length a.workers
    fetcher_eq : b.fetcher ≡ a.fetcher
    stopped : b.consumer.stop_consume_closed ≡ true
    gone : (j : ℕ) → j < n → get_elem? b.workers j ≡ some worker_gone

  workers_end-Winding :
      (n : ℕ) (problems answers : ℕ → Option String) (a : Async M)
      → a.consumer.stop_consume_closed ≡ true
      → n ≤ length a.workers
      → Winding n a (run (workers_end n problems answers) a)
  unfolding run
  workers_end-Winding zero problems answers a c le = record {
    same_length = refl;
    fetcher_eq = refl;
    stopped = c;
    gone = λ j h. absurd (omega arith);
  }
  workers_end-Winding (suc n) problems answers a c le =
      let b = run (workers_end n problems answers) a in
      let before = workers_end-Winding n problems answers a c (omega arith) in
      let (w, at_n) = get_elem?-below b.workers n (omega (arith, before.same_length)) in
      let (ws, f, s) = worker_ends n (problems n) (answers n) w b at_n before.stopped in
      rw
        (run-append (workers_end n problems answers)
          (handler_returns n (problems n) ∷ worker_commits n (answers n) ∷ worker_leaves n ∷ []) a)
        (record {
          same_length = ap length ws ∙ length-set b.workers n worker_gone ∙ before.same_length;
          fetcher_eq = f ∙ before.fetcher_eq;
          stopped = s;
          gone = λ j h.
              ap (λ (t : List (Worker M)). get_elem? t j) ws ∙ elim (Bool-cases (j == n)) [
                | inl e ↦ rw ((==_iff j n).0 e) (get_elem?-set_self b.workers n worker_gone at_n)
                | inr e ↦
                    get_elem?-set_ne b.workers n j worker_gone (ground arith)
                    ∙ before.gone j (ground arith)
              ];
        })

  all_gone_lem :
      (ws : List (Worker M))
      → ((j : ℕ) → j < length ws → get_elem? ws j ≡ some worker_gone)
      → all_gone ws ≡ true
  unfolding all_gone
  all_gone_lem [] h = refl
  all_gone_lem (w ∷ ws) h =
      let first = h 0 (omega arith) in
      let rest = all_gone_lem ws (λ j l. h (suc j) (omega arith)) in ground arith

  last_stop :
      (d : Async M)
      → d.fetcher ≡ fetcher_gone
      → d.consumer.stop_consume_closed ≡ true
      → all_gone d.workers ≡ true
      → ((run (stop_returns ∷ []) d).consumer.is_consuming ≡ false)
        × ((run (stop_returns ∷ []) d).fetcher ≡ fetcher_gone)
        × (all_gone (run (stop_returns ∷ []) d).workers ≡ true)
  unfolding run step
  last_stop d f c g = ground arith

  -- A stopped consumer whose goroutines all get their answers.
  module _ (answer : Fallible String M) (problems answers : ℕ → Option String) (a : Async M) where
    all_ended :
        a.consumer.stop_consume_closed ≡ true
        → let b = run (fetcher_end answer ++ workers_end (length a.workers) problems answers) a in
          (b.fetcher ≡ fetcher_gone)
          × (b.consumer.stop_consume_closed ≡ true)
          × (all_gone b.workers ≡ true)
    all_ended c =
        let b = run (fetcher_end answer) a in
        let (f, ws, s) = fetcher_ends answer a.fetcher a refl c in
        let n = length a.workers in
        let w = workers_end-Winding n problems answers b s (omega (arith, ap length ws)) in
        let d = run (workers_end n problems answers) b in
        let gone =
          all_gone_lem d.workers
            (λ j l. w.gone j (omega (arith, w.same_length, ap length ws, l))) in
        rw (run-append (fetcher_end answer) (workers_end n problems answers) a)
          (w.fetcher_eq ∙ f, w.stopped, gone)

    pub finish_stop-all_ended :
        a.consumer.stop_consume_closed ≡ true
        → let b = run (fetcher_end answer ++ workers_end (length a.workers) problems answers) a in
          finish_stop b
          ≡ some (record b { consumer = record (b.consumer) { is_consuming = false } })
    unfolding finish_stop
    finish_stop-all_ended c = ground (arith, all_ended c)

  -- `StopConsumeAsync` waits for the broker: from a state in which the fetcher is in
  -- `FetchMessage`, whatever else happens, as long as that does not return the call cannot return, and
  -- the consumer stays as consuming as it was.
  pub stop_waits_for_fetch :
      (actions : List (Action M)) (a : Async M)
      → a.fetcher ≡ fetching
      → All (λ x. awaits_answer x ≡ true) actions
      → (step stop_returns (run actions a) ≡ none)
        × ((run actions a).consumer.is_consuming ≡ a.consumer.is_consuming)
  unfolding step
  stop_waits_for_fetch actions a f q =
      let h =
        run-Hangs a.consumer.is_consuming actions a q (record { in_fetch = f; flag = refl }) in
      (ground arith, h.flag)

  -- Once consumption is stopped, no state is in the way of `StopConsumeAsync`: in every state, if
  -- `FetchMessage`, the handlers and the commits that are under way return, with whatever answers,
  -- then the fetcher and all workers can return, and with them `StopConsumeAsync`, which leaves the
  -- consumer not consuming.
  pub stop_async_ends :
      (answer : Fallible String M) (problems answers : ℕ → Option String) (a : Async M)
      → a.consumer.stop_consume_closed ≡ true
      → let actions =
          fetcher_end answer
          ++ (workers_end (length a.workers) problems answers ++ stop_returns ∷ []) in
        ((run actions a).consumer.is_consuming ≡ false)
        × ((run actions a).fetcher ≡ fetcher_gone)
        × (all_gone (run actions a).workers ≡ true)
  stop_async_ends answer problems answers a c =
      let b = run (fetcher_end answer) a in
      let (f, ws, s) = fetcher_ends answer a.fetcher a refl c in
      let n = length a.workers in
      let w = workers_end-Winding n problems answers b s (omega (arith, ap length ws)) in
      let d = run (workers_end n problems answers) b in
      let gone =
        all_gone_lem d.workers (λ j l. w.gone j (omega (arith, w.same_length, ap length ws, l))) in
      rw (run-append (fetcher_end answer) (workers_end n problems answers ++ stop_returns ∷ []) a) (
        rw (run-append (workers_end n problems answers) (stop_returns ∷ []) b)
          (last_stop d (w.fetcher_eq ∙ f) w.stopped gone))
