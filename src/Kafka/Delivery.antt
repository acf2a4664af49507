-- ===== src/Kafka/Delivery.antt =====
-- What the demonstration sends, and what `runConsumer` commits.
use huba.Common.{
  ℕ, zero, suc, String, ◌≡◌, refl, Bool, true, false, inl, inr, Option, none, some, List, [], ◌∷◌,
  arith, Bool-cases,
}
use huba.Kafka.Producer.{ProducerConfig}
use huba.Kafka.Topics.{KafkaConfig}
use huba.Kafka.Setup.{new_producer, producer_config}
use huba.Kafka.Consumer.{Consumer, Round, new_consumer, consume, close}
use huba.Kafka.Commits.{consume-InStep, close_commits_all}
use huba.Kafka.Example.{
  produce_rounds, run_producer, async_rounds, run_async_producer, accepting, run_consumer,
}

-- The numbers from i on, n of them.
abbrev pub count_up : ℕ → ℕ → List ℕ
count_up zero i = []
count_up (suc n) i = i ∷ count_up n (suc i)

-- How many rounds begin before the context is done.
abbrev pub live_rounds : (ℕ → Bool) → ℕ → ℕ → ℕ
live_rounds done zero i = 0
live_rounds done (suc left) i =
    let rest = live_rounds done left (suc i) in elim (done i) [ true ↦ 0 | false ↦ suc rest ]

module _ (done : ℕ → Bool) (writes : ℕ → ℕ → Option String) (done_in_wait : ℕ → ℕ → Bool) where
  produce_rounds-sent :
      (c : ProducerConfig) (left i : ℕ)
      → (produce_rounds done writes done_in_wait c left i).sent
        ≡ count_up (live_rounds done left i) i
  unfolding produce_rounds
  produce_rounds-sent c zero i = refl
  produce_rounds-sent c (suc left) i = elim (Bool-cases (done i)) [
    | inl e ↦ ground arith
    | inr e ↦ ground (arith, produce_rounds-sent c left (suc i))
  ]

  async_rounds-sent :
      (left i : ℕ)
      → (async_rounds done writes done_in_wait left i).sent ≡ count_up (live_rounds done left i) i
  unfolding async_rounds
  async_rounds-sent zero i = refl
  async_rounds-sent (suc left) i = elim (Bool-cases (done i)) [
    | inl e ↦ ground arith
    | inr e ↦ ground (arith, async_rounds-sent left (suc i))
  ]

  -- Both producers of the demonstration hand over the same messages, whatever the writer answers:
  -- message-0, message-1 and so on in order, as many as rounds begin before the context is done, and
  -- ten at most.
  producers_agree :
      (config : KafkaConfig)
      → ((run_producer done writes done_in_wait config).sent ≡ count_up (live_rounds done 10 0) 0)
        × ((run_async_producer done writes done_in_wait).sent ≡ count_up (live_rounds done 10 0) 0)
  unfolding run_producer run_async_producer
  producers_agree config =
      (produce_rounds-sent (producer_config (new_producer config)) 10 0, async_rounds-sent 10 0)

-- `runConsumer` loses nothing that it has handled: whatever it is given, if `Consume` returns and the
-- deferred `Close` returns no error, the broker has in the end acknowledged exactly the messages that
-- the handler has accepted, in order, and the reader is closed.
run_consumer_commits :
    {M : Type 0} (config : KafkaConfig) (rounds : List (Round M))
    (commit_answer close_answer : Option String) (c d : Consumer M)
    → run_consumer config rounds commit_answer close_answer ≡ some (c, some (d, none))
    → (d.committed ≡ c.handled) × (d.uncommitted ≡ []) × (d.reader_closed ≡ true)
unfolding run_consumer new_consumer
run_consumer_commits {M} config rounds commit_answer close_answer c d e =
    let fresh : Consumer M = new_consumer config.auto_commit in
    let kept = consume-InStep (accepting rounds) fresh refl in
    let same : (consume (accepting rounds) fresh).0 ≡ c = ground arith in
    let closed : close commit_answer close_answer c ≡ some (d, none) = ground arith in
    let (all, none_left, idle, shut, _) =
      close_commits_all commit_answer close_answer c d (ground (arith, kept)) closed in
    (all, none_left, shut)
