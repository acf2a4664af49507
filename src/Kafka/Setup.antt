-- ===== src/Kafka/Setup.antt =====
-- kafka/producer.go: `NewProducer` and `Close`. The writer of kafka-go is its settings; a balancer by
-- the hash of the key, and acknowledgements from all replicas, are the same for all.
use huba.Common.{ℕ, ◌-◌, ◌%◌, ◌^◌, String, Bool, Option, List}
use huba.Common.Int.{ℤ, pos, negsuc}
use huba.Kafka.Topics.{KafkaConfig}
use huba.Kafka.Producer.{ProducerConfig}

pub record Writer : Type 0 where
  pub addr : List String
  pub topic : String
  pub max_attempts : ℤ
  pub async : Bool

pub record Producer : Type 0 where
  pub writer : Writer
  pub config : KafkaConfig

unfoldable pub new_producer : KafkaConfig → Producer
new_producer c = record {
  writer = record {
    addr = c.brokers;
    topic = c.topic;
    max_attempts = c.max_retries;
    async = c.async_producer;
  };
  config = c;
}

-- The bit pattern of an int64.
unfoldable pub bits_of : ℤ → ℕ
bits_of (pos n) = n % 2 ^ 64
bits_of (negsuc n) = 2 ^ 64 - 1 - n % 2 ^ 64

-- What `Produce` reads of the producer.
unfoldable pub producer_config : Producer → ProducerConfig
unfolding bits_of
producer_config p = record {
  max_retries = p.config.max_retries;
  retry_backoff = bits_of p.config.retry_backoff;
  async_producer = p.config.async_producer;
}

-- `Close` returns what the writer's `Close` returns.
unfoldable pub close_producer : (Writer → Option String) → Producer → Option String
close_producer close p = close p.writer
