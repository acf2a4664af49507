-- ===== src/Kafka/Producer.antt =====
-- kafka/producer.go: `Produce`, `ProduceBatch` and the wait between two attempts. The writer of
-- kafka-go is a parameter: what it answers to each attempt. So is the context: whether it is done
-- before the wait after an attempt ends.
use huba.Common.{
  ℕ, zero, suc, ◌+◌, ◌*◌, ◌%◌, ◌^◌, String, ◌<>◌, Bool, false, Option, none, some, List, [], ◌∷◌,
  ◌==◌, if◌then◌else◌,
}
use huba.Common.Int.{ℤ, pos, negsuc, int64_of_bits}
use huba.Common.Decimal.{format_int}

-- The fields of `KafkaConfig` that the producer reads. `retry_backoff` is a bit pattern.
pub record ProducerConfig : Type 0 where
  pub max_retries : ℤ
  pub retry_backoff : ℕ
  pub async_producer : Bool

pub data ProduceError : Type 0 where
  write_failed : String → ProduceError
  gave_up : String → String → ProduceError
  context_done : ProduceError

-- What a call did: its error (`none` is nil), how often it called `WriteMessages`, and the waits
-- that it began, in order.
pub record Report : Type 0 where
  pub error : Option ProduceError
  pub writes : ℕ
  pub waits : List ℤ

-- `for attempt := 0; attempt <= max; attempt++` makes this many rounds.
unfoldable pub rounds_of : ℤ → ℕ
rounds_of (pos n) = suc n
rounds_of (negsuc n) = 0

-- `RetryBackoff * time.Duration(1<<attempt)`, in int64.
unfoldable pub backoff : ℕ → ℕ → ℤ
backoff retry_backoff attempt = int64_of_bits (retry_backoff * (2 ^ attempt % 2 ^ 64) % 2 ^ 64)

-- Whether `attempt` is the last one.
unfoldable pub is_last : ℕ → ℤ → Bool
is_last attempt (pos n) = attempt == n
is_last attempt (negsuc n) = false

module _ (write : ℕ → Option String) (done_in_wait : ℕ → Bool) where
  -- `what` is "message" or "batch"; `error` is the variable `err` of the source.
  unfoldable pub attempts : String → ProducerConfig → ℕ → ℕ → Option ProduceError → Report
  unfolding is_last
  attempts what c zero attempt error = record { error = error; writes = 0; waits = [] }
  attempts what c (suc left) attempt error = elim (write attempt) [
    | none ↦ record { error = none; writes = 1; waits = [] }
    | some e ↦
        let rest = attempts what c left (attempt + 1) (some (write_failed e)) in
        if is_last attempt c.max_retries
        then record {
          error = some (
              gave_up
                ("failed to write "
                  <> (what <> (" after " <> (format_int c.max_retries <> " attempts"))))
                e);
          writes = 1;
          waits = [];
        }
        else if done_in_wait attempt
        then record {
          error = some context_done;
          writes = 1;
          waits = backoff c.retry_backoff attempt ∷ [];
        }
        else record {
          error = rest.error;
          writes = rest.writes + 1;
          waits = backoff c.retry_backoff attempt ∷ rest.waits;
        }
  ]

  -- The asynchronous mode hands the message to the writer once.
  unfoldable pub write_once : Report
  write_once = record {
    error = elim (write 0) [ none ↦ none | some e ↦ some (write_failed e) ];
    writes = 1;
    waits = [];
  }

  unfoldable pub produce : ProducerConfig → Report
  unfolding write_once rounds_of attempts
  produce c =
      if c.async_producer then write_once else attempts "message" c (rounds_of c.max_retries) 0 none

  unfoldable pub produce_batch : ProducerConfig → Report
  unfolding write_once rounds_of attempts
  produce_batch c =
      if c.async_producer then write_once else attempts "batch" c (rounds_of c.max_retries) 0 none

-- What the goroutine of `ProduceAsync` and `ProduceBatchAsync` prints, given the answer to its only
-- write; the caller learns nothing of it.
unfoldable pub print_failure : String → Option String → Option String
print_failure what none = none
print_failure what (some e) = some ("Error in async " <> what <> " production: " <> e <> "\n")

unfoldable pub produce_async : Option String → Option String
unfolding print_failure
produce_async answer = print_failure "message" answer

unfoldable pub produce_batch_async : Option String → Option String
unfolding print_failure
produce_batch_async answer = print_failure "batch" answer
