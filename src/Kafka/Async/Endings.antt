-- ===== src/Kafka/Async/Endings.antt =====
-- How the goroutines of a stopped `ConsumeAsync` return.
use huba.Common.{
  get_elem?-set_self, set-set, set-get_elem?, ℕ, String, ◌≡◌, refl, ◌⊎◌, inl, inr, true, Option,
  none, some, [], ◌∷◌, ◌++◌, arith, if◌then◌else◌, get_elem?, set,
}
use huba.Kafka.Consumer.{Consumer, append_handled, commit_offsets}
use huba.Kafka.Async.{
  Worker, waiting, committing, worker_gone, handling, Async, worker_leaves, handler_returns,
  worker_commits, put_worker, worker_step, step, run,
}

module _ {M : Type 0} where
  commit_offsets-stop :
      (answer : Option String) (c : Consumer M)
      → (commit_offsets answer c).0.stop_consume_closed ≡ c.stop_consume_closed
  unfolding commit_offsets
  commit_offsets-stop answer c = ground arith

  append_handled-stop :
      (m : M) (c : Consumer M)
      → ((append_handled m c).stop_consume_closed ≡ c.stop_consume_closed)
        × ((append_handled m c).auto_committer ≡ c.auto_committer)
  unfolding append_handled
  append_handled-stop m c = (refl, refl)

  -- The worker has returned, and nothing else has changed that matters for stopping.
  abbrev pub Ended : ℕ → Async M → Async M → Type 0
  Ended i a b =
      (b.workers ≡ set a.workers i worker_gone)
      × (b.fetcher ≡ a.fetcher)
      × (b.consumer.stop_consume_closed ≡ true)

  waiting_ends :
      (i : ℕ) (a : Async M)
      → get_elem? a.workers i ≡ some waiting
      → a.consumer.stop_consume_closed ≡ true
      → Ended i a (run (worker_leaves i ∷ []) a)
  unfolding run step worker_step
  waiting_ends i a p c = ground arith

  committing_ends :
      (i : ℕ) (answer : Option String) (a : Async M)
      → get_elem? a.workers i ≡ some committing
      → a.consumer.stop_consume_closed ≡ true
      → Ended i a (run (worker_commits i answer ∷ worker_leaves i ∷ []) a)
  unfolding run step worker_step
  committing_ends i answer a p c =
      let b : Async M =
        put_worker i waiting (record a { consumer = (commit_offsets answer a.consumer).0 }) in
      let next : step (worker_commits i answer) a ≡ some b = ground arith in
      let (ws, f, s) =
        waiting_ends i b (ground (arith, get_elem?-set_self a.workers i waiting p))
          (ground (arith, commit_offsets-stop answer a.consumer)) in
      rw next (ground (arith, set-set a.workers i waiting worker_gone))

  -- A commit that cannot happen, or does.
  settled_ends :
      (i : ℕ) (answer : Option String) (w : Worker M) (a : Async M)
      → (w ≡ waiting) ⊎ (w ≡ committing) ⊎ (w ≡ worker_gone)
      → get_elem? a.workers i ≡ some w
      → a.consumer.stop_consume_closed ≡ true
      → Ended i a (run (worker_commits i answer ∷ worker_leaves i ∷ []) a)
  unfolding run step worker_step
  settled_ends i answer waiting a k p c = rw p (waiting_ends i a p c)
  settled_ends i answer committing a k p c = committing_ends i answer a p c
  settled_ends i answer worker_gone a k p c =
      ground (arith, set-get_elem? a.workers i worker_gone p)
  settled_ends i answer (handling m) a k p c = absurd (ground arith)

  pub worker_ends :
      (i : ℕ) (problem answer : Option String) (w : Worker M) (a : Async M)
      → get_elem? a.workers i ≡ some w
      → a.consumer.stop_consume_closed ≡ true
      → Ended i a
          (run (handler_returns i problem ∷ worker_commits i answer ∷ worker_leaves i ∷ []) a)
  unfolding run step worker_step
  worker_ends i problem answer waiting a p c = rw p (settled_ends i answer waiting a (inl refl) p c)
  worker_ends i problem answer committing a p c =
      rw p (settled_ends i answer committing a (inr (inl refl)) p c)
  worker_ends i problem answer worker_gone a p c =
      rw p (settled_ends i answer worker_gone a (inr (inr refl)) p c)
  worker_ends i (some e) answer (handling m) a p c =
      let b : Async M = put_worker i waiting (record a { refused = a.refused ++ m ∷ [] }) in
      let next : step (handler_returns i (some e)) a ≡ some b = ground arith in
      let (ws, f, s) =
        settled_ends i answer waiting b (inl refl)
          (ground (arith, get_elem?-set_self a.workers i waiting p)) (ground arith) in
      rw next (ground (arith, set-set a.workers i waiting worker_gone))
  worker_ends i none answer (handling m) a p c =
      let v : Worker M = if a.consumer.auto_committer then waiting else committing in
      let b : Async M = put_worker i v (record a { consumer = append_handled m a.consumer }) in
      let next : step (handler_returns i none) a ≡ some b = ground arith in
      let kind : (v ≡ waiting) ⊎ (v ≡ committing) ⊎ (v ≡ worker_gone) = ground arith in
      let (ws, f, s) =
        settled_ends i answer v b kind (ground (arith, get_elem?-set_self a.workers i v p))
          (ground (arith, append_handled-stop m a.consumer)) in
      rw next (ground (arith, set-set a.workers i v worker_gone))
