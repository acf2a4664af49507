-- ===== src/Kafka/Tests.antt =====
-- The theorems of the producer and the consumer at concrete data.
use huba.Common.{not}
use huba.Kafka.Consumer.{consume_round, handle, commit_now, append_handled, auto_commit_tick}
use huba.Kafka.Setup.{new_producer, producer_config, bits_of, close_producer}
use huba.Kafka.Example.{
  example_config, value_of, print_error, produce_rounds, run_producer, run_consumer,
  run_async_consumer, accepted_actions,
}
use huba.Kafka.Consuming.{run_async_consumer_commits}
use huba.Kafka.Closing.{no_error, run_async_consumer_returns}
use huba.Kafka.Async.Stopping.{fetcher_end, workers_end}
use huba.Kafka.Async.{
  Async, Action, Worker, at_head, fetcher_gone, worker_gone, fetcher_looks, fetcher_sends,
  fetch_returns, worker_takes, worker_leaves, handler_returns, context_ends, start_async, run, step,
  fetcher_step, worker_step, finish_stop,
}
use huba.Common.{
  ℕ, String, ◌≡◌, refl, Bool, true, false, Option, none, some, List, [], ◌∷◌, ◌++◌, length, arith,
  ltb, if◌then◌else◌, ok, err,
}
use huba.Common.Int.{pos}
use huba.Common.Decimal.{format_int}
use huba.Kafka.Topics.{new_default_config, retention_ms, topic_config, create_topic}
use huba.Kafka.Producer.{ProducerConfig, produce, produce_async, produce_batch_async}
use huba.Kafka.Retries.{backoffs, produce_succeeds}
use huba.Kafka.Consumer.{
  Consumer, Round, new_consumer, consume, consume_async, close, commit_offsets, finish_close,
}
use huba.Kafka.Commits.{InStep, consume-InStep}

-- The default: three retries, two seconds.
abbrev default_producer : ProducerConfig
default_producer = record {
  max_retries = pos 3;
  retry_backoff = 2_000_000_000;
  async_producer = false;
}

-- The broker fails twice and then answers.
abbrev flaky : ℕ → Option String
flaky i = if ltb i 2 then some "no leader" else none

abbrev dead : ℕ → Option String
dead i = some "no leader"

abbrev never_done : ℕ → Bool
never_done i = false

produce_succeeds_example :
    produce flaky never_done default_producer
    ≡ record { error = none; writes = 3; waits = backoffs 2_000_000_000 0 2 }
produce_succeeds_example =
    produce_succeeds flaky never_done 2 3 default_producer refl refl (omega arith)
      (refl, refl, (refl, refl, tt)) refl

abbrev good : ℕ → Round ℕ
good m = record { ticked = none; done = false; fetched = ok m; handling = none; committing = none }

abbrev failing_commit : ℕ → Round ℕ
failing_commit m = record (good m) { committing = some "timeout" }

fresh_consumer : Consumer ℕ
unfolding new_consumer
fresh_consumer = new_consumer false

consume-InStep_example : InStep (consume (good 1 ∷ failing_commit 2 ∷ []) fresh_consumer).0
unfolding fresh_consumer
consume-InStep_example = consume-InStep (good 1 ∷ failing_commit 2 ∷ []) fresh_consumer refl

-- Two messages wait for a commit of the auto-commit loop.
abbrev waiting : Consumer ℕ
waiting = record {
  auto_committer = true;
  uncommitted = 1 ∷ 2 ∷ [];
  is_consuming = true;
  stop_consume_closed = false;
  stop_commit_closed = false;
  reader_closed = false;
  committed = [];
  handled = 1 ∷ 2 ∷ [];
}

abbrev shut : Consumer ℕ
shut = record {
  auto_committer = true;
  uncommitted = [];
  is_consuming = false;
  stop_consume_closed = true;
  stop_commit_closed = true;
  reader_closed = true;
  committed = 1 ∷ 2 ∷ [];
  handled = 1 ∷ 2 ∷ [];
}

-- A day in milliseconds.
default_topic : topic_config new_default_config ≡ record {
  topic = "";
  num_partitions = pos 3;
  replication_factor = pos 1;
  config_entries = ("retention.ms", "86400000") ∷ ("retention.bytes", "104857600") ∷ [];
}
unfolding topic_config new_default_config retention_ms format_int
default_topic = refl

no_broker :
    create_topic {Conn = ℕ}
      (λ broker. ok 1)
      (λ conn config. ok tt)
      (record new_default_config { brokers = [] })
    ≡ none
unfolding create_topic
no_broker = refl

async_failures :
    (produce_async (some "no leader") ≡ some "Error in async message production: no leader\n")
    × (produce_batch_async (some "no leader") ≡ some "Error in async batch production: no leader\n")
unfolding produce_async produce_batch_async
async_failures = (refl, refl)

-- What the consumer of the demonstration is after one message, and after its `Close`.
abbrev served : Consumer ℕ
served = record {
  auto_committer = true;
  uncommitted = 1 ∷ [];
  is_consuming = false;
  stop_consume_closed = false;
  stop_commit_closed = false;
  reader_closed = false;
  committed = [];
  handled = 1 ∷ [];
}

abbrev left_behind : Consumer ℕ
left_behind = record served {
  uncommitted = [];
  stop_commit_closed = true;
  reader_closed = true;
  committed = 1 ∷ [];
}

-- The context is done after the message.
cancelled_round : Round ℕ
cancelled_round = record (good 2) { done = true }

served_eq :
    run_consumer example_config (good 1 ∷ cancelled_round ∷ []) none none
    ≡ some (served, some (left_behind, none))
unfolding run_consumer example_config consume consume_round new_consumer close finish_close
    commit_offsets handle commit_now append_handled auto_commit_tick cancelled_round
served_eq = refl

-- One message is handled and another one is in the channel when the context ends.
abbrev working : List (Action ℕ)
working =
    fetcher_looks
    ∷ fetch_returns (ok 1)
    ∷ fetcher_sends
    ∷ worker_takes 0
    ∷ handler_returns 0 none
    ∷ fetcher_looks
    ∷ fetch_returns (ok 2)
    ∷ fetcher_sends
    ∷ fetcher_looks
    ∷ context_ends
    ∷ []

abbrev winding_down : List (Action ℕ)
winding_down =
    worker_leaves 0 ∷ worker_leaves 1 ∷ fetch_returns (err "cancelled") ∷ fetcher_looks ∷ []

-- The consumer before and after its final commit.
abbrev stopped_consumer : Consumer ℕ
stopped_consumer = record served { stop_consume_closed = true }

abbrev closed_consumer : Consumer ℕ
closed_consumer = record left_behind { stop_consume_closed = true }

abbrev ended : Async ℕ
ended = record {
  consumer = stopped_consumer;
  fetcher = fetcher_gone;
  messages = 2 ∷ [];
  closed = true;
  capacity = 2;
  workers = worker_gone ∷ worker_gone ∷ [];
  context_done = true;
  fetched = 1 ∷ 2 ∷ [];
  refused = [];
  dropped = [];
}

ended_eq :
    run_async_consumer example_config 2 working winding_down none none none
    ≡ some (ended, some (closed_consumer, none))
unfolding run_async_consumer example_config new_consumer start_async consume_async run step
    fetcher_step worker_step finish_stop auto_commit_tick append_handled close finish_close
    commit_offsets
ended_eq = refl

run_async_consumer_commits_example :
    (closed_consumer.committed ≡ 1 ∷ [])
    × (closed_consumer.uncommitted ≡ [])
    × (closed_consumer.reader_closed ≡ true)
    × (◌≡◌ {A = ℕ} 3 3)
run_async_consumer_commits_example =
    run_async_consumer_commits (λ n. n) example_config 2 working winding_down none none none ended
      closed_consumer ended_eq

-- The same run, ended as `Close` lets it end.
abbrev begun : Async ℕ
begun = record {
  consumer = record served { uncommitted = []; handled = []; is_consuming = true };
  fetcher = at_head;
  messages = [];
  closed = false;
  capacity = 2;
  workers = Worker.waiting ∷ Worker.waiting ∷ [];
  context_done = false;
  fetched = [];
  refused = [];
  dropped = [];
}

begun_eq : start_async 2 (new_consumer example_config.auto_commit) ≡ ok begun
unfolding start_async consume_async new_consumer example_config
begun_eq = refl

working_done : (run (accepted_actions working) begun).context_done ≡ true
unfolding run step fetcher_step worker_step append_handled
working_done = refl

run_async_consumer_returns_example :
    let closing =
      fetcher_end (err "cancelled")
      ++ workers_end (length (run (accepted_actions working) begun).workers) no_error no_error in
    (d : Async ℕ) × ((k : Consumer ℕ) × (run_async_consumer example_config 2 working closing none
          none none
        ≡ some (d, some (k, none))))
run_async_consumer_returns_example =
    run_async_consumer_returns example_config 2 working (err "cancelled") no_error none begun
      begun_eq working_done

-- The demonstration's settings reach the writer.
example_writer : (new_producer example_config).writer.max_attempts ≡ pos 5
unfolding new_producer example_config
example_writer = refl

closes : close_producer (λ w. some "closed") (new_producer example_config) ≡ some "closed"
unfolding close_producer
closes = refl

-- The context is done before the third message.
abbrev third_done : ℕ → Bool
third_done i = not (ltb i 2)

two_sent :
    (run_producer third_done (λ i. dead) (λ i. never_done) example_config).lines
    ≡ "Producing message: message-0" ∷ "Error producing message: no leader"
      ∷ "Producing message: message-1" ∷ "Error producing message: no leader"
      ∷ "Producer shutting down" ∷ []
unfolding run_producer produce_rounds example_config new_producer producer_config bits_of produce
    value_of format_int print_error
two_sent = refl
