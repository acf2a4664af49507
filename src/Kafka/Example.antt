-- ===== src/Kafka/Example.antt =====
-- kafka/example/main.go. Whether the context is done before a message, what the writer answers, and
-- what the consumer is given, are arguments. The deferred calls of the producer's `Close` are left
-- out, since their results are dropped.
use huba.Common.{
  ℕ, zero, suc, ◌*◌, String, ◌<>◌, Bool, true, Option, none, some, List, [], ◌∷◌, ◌++◌,
  if◌then◌else◌, ok, err,
}
use huba.Common.Int.{pos}
use huba.Common.Decimal.{format_int}
use huba.Kafka.Topics.{KafkaConfig, new_default_config}
use huba.Kafka.Producer.{ProducerConfig, ProduceError, write_failed, gave_up, context_done, produce}
use huba.Kafka.Setup.{new_producer, producer_config}
use huba.Kafka.Consumer.{
  Consumer, ConsumeError, Round, new_consumer, consume, close, auto_commit_tick,
}
use huba.Kafka.Async.{
  Async, Action, handler_returns, stop_begins, stop_returns, start_async, finish_stop, run,
}

unfoldable pub example_config : KafkaConfig
unfolding new_default_config
example_config = record new_default_config {
  topic = "example-topic";
  retention_period = pos 3_600_000_000_000;
  retention_size = pos (1024 * 1024 * 50);
  max_retries = pos 5;
  retry_backoff = pos 500_000_000;
  enable_idempotence = true;
  group_id = "example-consumer-group";
  auto_commit = true;
  commit_interval = pos 5_000_000_000;
  async_producer = true;
  async_consumer = true;
  consumer_concurrency = pos 5;
}

unfoldable pub key_of : ℕ → String
key_of i = "key-" <> format_int (pos i)

unfoldable pub value_of : ℕ → String
value_of i = "message-" <> format_int (pos i)

abbrev pub error_text : ProduceError → String
error_text (write_failed e) = e
error_text (gave_up what e) = what <> ": " <> e
error_text context_done = "context canceled"

-- What a producing loop did: the numbers of the messages that it handed to the producer, and its
-- lines.
pub record Produced : Type 0 where
  pub sent : List ℕ
  pub lines : List String

unfoldable pub print_error : Option ProduceError → List String
print_error none = []
print_error (some e) = ("Error producing message: " <> error_text e) ∷ []

-- `done i` and `writes i` are what the context and the writer say in round i.
module _ (done : ℕ → Bool) (writes : ℕ → ℕ → Option String) (done_in_wait : ℕ → ℕ → Bool) where
  -- The rounds that are left of `runProducer`. An error goes on with the next message.
  unfoldable pub produce_rounds : ProducerConfig → ℕ → ℕ → Produced
  unfolding print_error value_of
  produce_rounds c zero i = record { sent = []; lines = "Producer finished" ∷ [] }
  produce_rounds c (suc left) i =
      let rest = produce_rounds c left (suc i) in
      if done i then record { sent = []; lines = "Producer shutting down" ∷ [] } else record {
        sent = i ∷ rest.sent;
        lines =
            ("Producing message: " <> value_of i)
            ∷ (print_error (produce (writes i) (done_in_wait i) c).error ++ rest.lines);
      }

  unfoldable pub run_producer : KafkaConfig → Produced
  run_producer config = produce_rounds (producer_config (new_producer config)) 10 0

  -- The same of `runAsyncProducer`, without what its goroutines print.
  unfoldable pub async_rounds : ℕ → ℕ → Produced
  unfolding value_of
  async_rounds zero i = record {
    sent = [];
    lines = "Waiting for async messages to complete..." ∷ "Async producer finished" ∷ [];
  }
  async_rounds (suc left) i =
      let rest = async_rounds left (suc i) in
      if done i then record { sent = []; lines = "Producer shutting down" ∷ [] } else record {
        sent = i ∷ rest.sent;
        lines = ("Producing message asynchronously: " <> value_of i) ∷ rest.lines;
      }

  unfoldable pub run_async_producer : Produced
  run_async_producer = async_rounds 10 0

-- The handler of `runConsumer` accepts every message.
abbrev pub accepting : {M : Type 0} → List (Round M) → List (Round M)
accepting [] = []
accepting (r ∷ rest) = record r { handling = none } ∷ accepting rest

close_after :
    {M : Type 0}
    → Option String
    → Option String
    → Consumer M × Option ConsumeError
    → Option (Consumer M × Option (Consumer M × Option ConsumeError))
close_after commit_answer close_answer (c, none) = none
close_after commit_answer close_answer (c, some e) = some (c, close commit_answer close_answer c)

-- `runConsumer`, which `main` does not call: what the consumer is after `Consume` has returned, and
-- its deferred `Close`, given the answers to the last commit and to closing the reader. `none`:
-- `Consume` has not returned.
unfoldable pub run_consumer :
    {M : Type 0}
    → KafkaConfig
    → List (Round M)
    → Option String
    → Option String
    → Option (Consumer M × Option (Consumer M × Option ConsumeError))
unfolding close_after
run_consumer config rounds commit_answer close_answer =
    close_after commit_answer close_answer
      (consume (accepting rounds) (new_consumer config.auto_commit))

-- The steps of `runAsyncConsumer`'s goroutines: its handler accepts every message, and nobody else
-- stops its consumer.
abbrev pub accepted_actions : {M : Type 0} → List (Action M) → List (Action M)
accepted_actions [] = []
accepted_actions (handler_returns i e ∷ rest) = handler_returns i none ∷ accepted_actions rest
accepted_actions (stop_begins ∷ rest) = accepted_actions rest
accepted_actions (stop_returns ∷ rest) = accepted_actions rest
accepted_actions (b ∷ rest) = b ∷ accepted_actions rest

module _ {M : Type 0} where
  -- `Close` once `StopConsumeAsync` has returned: the auto-commit loop may tick once more before it
  -- is stopped.
  finish_async :
      Option (Option String)
      → Option String
      → Option String
      → Async M
      → Async M × Option (Consumer M × Option ConsumeError)
  finish_async tick commit_answer close_answer a =
      let b = record a { consumer = auto_commit_tick tick a.consumer } in
      (b, close commit_answer close_answer b.consumer)

  -- The deferred `Close`: `StopConsumeAsync` begins, the goroutines go on until it returns.
  close_async :
      List (Action M)
      → Option (Option String)
      → Option String
      → Option String
      → Async M
      → Option (Async M × Option (Consumer M × Option ConsumeError))
  unfolding finish_async
  close_async closing tick commit_answer close_answer a =
      elim (finish_stop (run (accepted_actions closing) (run (stop_begins ∷ []) a))) [
        | none ↦ none
        | some b ↦ some (finish_async tick commit_answer close_answer b)
      ]

  -- `runAsyncConsumer` at a concurrency that is not negative: what its goroutines do until the
  -- context is done, and while its deferred `Close` waits for them. The result is the state in which
  -- `Close` commits for the last time, and what `Close` returns. `none`: the context is not done, or
  -- `StopConsumeAsync` has not returned.
  unfoldable pub run_async_consumer :
      KafkaConfig
      → ℕ
      → List (Action M)
      → List (Action M)
      → Option (Option String)
      → Option String
      → Option String
      → Option (Async M × Option (Consumer M × Option ConsumeError))
  unfolding close_async
  run_async_consumer config concurrency during closing tick commit_answer close_answer =
      elim (start_async concurrency (new_consumer config.auto_commit)) [
        | err e ↦ none
        | ok a ↦
            let b = run (accepted_actions during) a in
            if b.context_done then close_async closing tick commit_answer close_answer b else none
      ]
