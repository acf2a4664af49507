-- ===== src/Kafka/Async.antt =====
-- kafka/consumer.go: `ConsumeAsync` as an interleaving. Its goroutines are the fetcher, which hands
-- messages to a buffered channel, and the workers, which take them from it; beside them the
-- auto-commit loop, a caller of `StopConsumeAsync` and the context. What the broker and the handler
-- answer is a part of the actions. A handler that panics ends the program and is not modelled.
pub mod Weights
pub mod Ledger
pub mod Endings
pub mod Stopping
mod Tests
use huba.Common.{
  ℕ, String, Bool, true, false, not, ◌&&◌, ◌||◌, Option, none, some, List, [], ◌∷◌, ◌++◌, ltb, ◌==◌,
  if◌then◌else◌, length, get_elem?, set, replicate, Fallible, ok, err,
}
use huba.Kafka.Consumer.{
  Consumer, ConsumeError, consume_async, append_handled, commit_offsets, auto_commit_tick,
}

-- The fetcher: at the head of its loop, in `FetchMessage`, sending a message, or returned.
pub data Fetcher (M : Type 0) : Type 0 where
  at_head fetching fetcher_gone : Fetcher M
  offering : M → Fetcher M

-- A worker: at its `select`, in the handler, before its `commitOffsets`, or returned.
pub data Worker (M : Type 0) : Type 0 where
  waiting committing worker_gone : Worker M
  handling : M → Worker M

-- `fetched`, `refused` and `dropped` are the messages that `FetchMessage` gave, that the handler
-- refused, and that the fetcher had not sent when it returned; the source does not keep them.
pub record Async (M : Type 0) : Type 0 where
  pub consumer : Consumer M
  pub fetcher : Fetcher M
  pub messages : List M
  pub closed : Bool
  pub capacity : ℕ
  pub workers : List (Worker M)
  pub context_done : Bool
  pub fetched : List M
  pub refused : List M
  pub dropped : List M

pub data Action (M : Type 0) : Type 0 where
  fetcher_looks fetcher_sends fetcher_leaves : Action M
  fetch_returns : Fallible String M → Action M
  worker_takes worker_leaves : ℕ → Action M
  handler_returns : ℕ → Option String → Action M
  worker_commits : ℕ → Option String → Action M
  ticks : Option String → Action M
  context_ends stop_begins stop_returns : Action M

module _ {M : Type 0} where
  -- `ConsumeAsync` with its goroutines; a consumer that consumes already is refused.
  unfoldable pub start_async : ℕ → Consumer M → Fallible ConsumeError (Async M)
  start_async concurrency c =
      let (d, e) = consume_async c in
      elim e [
        | some problem ↦ err problem
        | none ↦ ok (record {
          consumer = d;
          fetcher = at_head;
          messages = [];
          closed = false;
          capacity = concurrency;
          workers = replicate concurrency waiting;
          context_done = false;
          fetched = [];
          refused = [];
          dropped = [];
        })
      ]

  -- The head of the fetcher's loop; `default` is chosen only if nothing else is ready.
  unfoldable pub look : Async M → Async M
  look a =
      if a.consumer.stop_consume_closed || a.context_done
      then record a { fetcher = fetcher_gone; closed = true }
      else record a { fetcher = fetching }

  unfoldable pub receive : Fallible String M → Async M → Async M
  receive (err e) a = record a { fetcher = at_head }
  receive (ok m) a = record a { fetcher = offering m; fetched = a.fetched ++ m ∷ [] }

  unfoldable pub send_message : M → Async M → Option (Async M)
  send_message m a =
      if ltb (length a.messages) a.capacity
      then some (record a { fetcher = at_head; messages = a.messages ++ m ∷ [] })
      else none

  unfoldable pub leave_unsent : M → Async M → Option (Async M)
  leave_unsent m a =
      if a.consumer.stop_consume_closed || a.context_done
      then some (record a { fetcher = fetcher_gone; closed = true; dropped = a.dropped ++ m ∷ [] })
      else none

  unfoldable pub put_worker : ℕ → Worker M → Async M → Async M
  put_worker i w a = record a { workers = set a.workers i w }

  unfoldable pub take_message : ℕ → List M → Async M → Option (Async M)
  unfolding put_worker
  take_message i [] a = none
  take_message i (m ∷ rest) a = some (put_worker i (handling m) (record a { messages = rest }))

  -- A worker returns when the channel is closed and empty, or when consumption is stopped.
  unfoldable pub leave : ℕ → Async M → Option (Async M)
  unfolding put_worker
  leave i a =
      if a.consumer.stop_consume_closed || (a.closed && (length a.messages == 0))
      then some (put_worker i worker_gone a)
      else none

  -- After the handler: an error is printed; otherwise the message joins the uncommitted ones, and
  -- without auto-commit the worker goes on to commit.
  unfoldable pub settle : ℕ → M → Option String → Async M → Async M
  unfolding put_worker
  settle i m (some e) a = put_worker i waiting (record a { refused = a.refused ++ m ∷ [] })
  settle i m none a =
      put_worker i (if a.consumer.auto_committer then waiting else committing)
        (record a { consumer = append_handled m a.consumer })

  unfoldable pub is_gone : Worker M → Bool
  is_gone worker_gone = true
  is_gone w = false

  unfoldable pub all_gone : List (Worker M) → Bool
  unfolding is_gone
  all_gone [] = true
  all_gone (w ∷ ws) = is_gone w && all_gone ws

  -- `consumeWg.Wait()` of `StopConsumeAsync`, and what follows it.
  unfoldable pub finish_stop : Async M → Option (Async M)
  unfolding all_gone
  finish_stop a = elim a.fetcher [
    | fetcher_gone ↦
        if a.consumer.stop_consume_closed && all_gone a.workers
        then some (record a { consumer = record (a.consumer) { is_consuming = false } })
        else none
    | _ ↦ none
  ]

  -- A step of a worker, given its phase.
  unfoldable pub worker_step : Action M → Option (Worker M) → Async M → Option (Async M)
  unfolding take_message leave settle put_worker
  worker_step (worker_takes i) (some waiting) a = take_message i a.messages a
  worker_step (worker_leaves i) (some waiting) a = leave i a
  worker_step (handler_returns i e) (some (handling m)) a = some (settle i m e a)
  worker_step (worker_commits i answer) (some committing) a =
      some (put_worker i waiting (record a { consumer = (commit_offsets answer a.consumer).0 }))
  worker_step b w a = none

  -- A step of the fetcher, given its phase.
  unfoldable pub fetcher_step : Action M → Fetcher M → Async M → Option (Async M)
  unfolding look receive send_message leave_unsent
  fetcher_step fetcher_looks at_head a = some (look a)
  fetcher_step (fetch_returns answer) fetching a = some (receive answer a)
  fetcher_step fetcher_sends (offering m) a = send_message m a
  fetcher_step fetcher_leaves (offering m) a = leave_unsent m a
  fetcher_step b f a = none

  -- `none`: the action cannot happen in this state.
  unfoldable pub step : Action M → Async M → Option (Async M)
  unfolding finish_stop
  step (worker_takes i) a = worker_step (worker_takes i) (get_elem? a.workers i) a
  step (worker_leaves i) a = worker_step (worker_leaves i) (get_elem? a.workers i) a
  step (handler_returns i e) a = worker_step (handler_returns i e) (get_elem? a.workers i) a
  step (worker_commits i answer) a = worker_step (worker_commits i answer) (get_elem? a.workers i) a
  step (ticks answer) a = some (record a { consumer = auto_commit_tick (some answer) a.consumer })
  step context_ends a = some (record a { context_done = true })
  step stop_begins a =
      if a.consumer.is_consuming && not a.consumer.stop_consume_closed
      then some (record a { consumer = record (a.consumer) { stop_consume_closed = true } })
      else none
  step stop_returns a = finish_stop a
  step b a = fetcher_step b a.fetcher a

  -- An action that cannot happen is skipped.
  unfoldable pub after : Option (Async M) → Async M → Async M
  after none a = a
  after (some b) a = b

  unfoldable pub run : List (Action M) → Async M → Async M
  unfolding after
  run [] a = a
  run (b ∷ rest) a = run rest (after (step b a) a)
