-- ===== src/Kafka/Async/Tests.antt =====
-- The theorems on `ConsumeAsync` at two workers.
use huba.Common.{ℕ, String, ◌≡◌, refl, true, false, Option, none, List, [], ◌∷◌, ◌++◌, ok}
use huba.Kafka.Consumer.{Consumer, consume_async}
use huba.Kafka.Async.{
  at_head, fetching, fetcher_gone, waiting, handling, Async, Action, fetcher_looks, fetcher_sends,
  fetch_returns, worker_takes, handler_returns, stop_begins, stop_returns, start_async, all_gone,
  step, run, fetcher_step, worker_step,
}
use huba.Kafka.Async.Weights.{weigh}
use huba.Kafka.Async.Ledger.{Ledger, run-start_async-Ledger}
use huba.Kafka.Async.Stopping.{fetcher_end, workers_end, stop_waits_for_fetch, stop_async_ends}

abbrev consumer : Consumer ℕ
consumer = record {
  auto_committer = false;
  uncommitted = [];
  is_consuming = true;
  stop_consume_closed = false;
  stop_commit_closed = false;
  reader_closed = false;
  committed = 3 ∷ [];
  handled = 3 ∷ [];
}

abbrev started : Async ℕ
started = record {
  consumer = consumer;
  fetcher = at_head;
  messages = [];
  closed = false;
  capacity = 2;
  workers = waiting ∷ waiting ∷ [];
  context_done = false;
  fetched = [];
  refused = [];
  dropped = [];
}

-- Two messages are fetched, and each worker takes one.
abbrev two_taken : List (Action ℕ)
two_taken =
    fetcher_looks
    ∷ fetch_returns (ok 4)
    ∷ fetcher_sends
    ∷ worker_takes 0
    ∷ fetcher_looks
    ∷ fetch_returns (ok 5)
    ∷ fetcher_sends
    ∷ worker_takes 1
    ∷ fetcher_looks
    ∷ []

abbrev busy : Async ℕ
busy = record started {
  fetcher = fetching;
  workers = handling 4 ∷ handling 5 ∷ [];
  fetched = 4 ∷ 5 ∷ [];
}

two_busy : run two_taken started ≡ busy
unfolding run step fetcher_step worker_step
two_busy = refl

started_eq : start_async 2 (record consumer { is_consuming = false }) ≡ ok started
unfolding start_async consume_async
started_eq = refl

run-start_async-Ledger_example : Ledger (λ n. n) (weigh (λ n. n) (3 ∷ [])) (run two_taken started)
run-start_async-Ledger_example =
    run-start_async-Ledger (λ n. n) 2 (record consumer { is_consuming = false }) started two_taken
      refl started_eq

stop_waits_for_fetch_example :
    (step stop_returns (run (stop_begins ∷ handler_returns 0 none ∷ []) busy) ≡ none)
    × ((run (stop_begins ∷ handler_returns 0 none ∷ []) busy).consumer.is_consuming ≡ true)
stop_waits_for_fetch_example =
    stop_waits_for_fetch (stop_begins ∷ handler_returns 0 none ∷ []) busy refl (refl, (refl, tt))

abbrev no_error : ℕ → Option String
no_error i = none

abbrev stopped : Async ℕ
stopped = record busy { consumer = record consumer { stop_consume_closed = true } }

stop_async_ends_example :
    let actions =
      fetcher_end {M = ℕ} (ok 6)
      ++ (workers_end {M = ℕ} 2 no_error no_error ++ stop_returns ∷ []) in
    ((run actions stopped).consumer.is_consuming ≡ false)
    × ((run actions stopped).fetcher ≡ fetcher_gone)
    × (all_gone (run actions stopped).workers ≡ true)
stop_async_ends_example = stop_async_ends (ok 6) no_error no_error stopped refl
