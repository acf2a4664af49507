-- ===== src/Kafka/Topics.antt =====
-- kafka/config.go and kafka/topic.go. The connection to a broker is a parameter; durations are in
-- nanoseconds.
use huba.Common.{
  suc, ◌*◌, ◌/◌, String, Bool, true, false, Option, none, some, List, [], ◌∷◌, Fallible, ◌>>=◌,
  map_err,
}
use huba.Common.Int.{ℤ, pos, negsuc, sub_ℕ}
use huba.Common.Decimal.{format_int}

pub record KafkaConfig : Type 0 where
  pub brokers : List String
  pub topic : String
  pub num_partitions : ℤ
  pub replication_factor : ℤ
  pub retention_period : ℤ
  pub retention_size : ℤ
  pub max_retries : ℤ
  pub retry_backoff : ℤ
  pub enable_idempotence : Bool
  pub client_id : String
  pub async_producer : Bool
  pub group_id : String
  pub auto_commit : Bool
  pub commit_interval : ℤ
  pub async_consumer : Bool
  pub consumer_concurrency : ℤ

unfoldable pub new_default_config : KafkaConfig
new_default_config = record {
  brokers = "localhost:9092" ∷ [];
  topic = "";
  num_partitions = pos 3;
  replication_factor = pos 1;
  retention_period = pos 86400000000000;
  retention_size = pos (1024 * 1024 * 100);
  max_retries = pos 3;
  retry_backoff = pos 2000000000;
  enable_idempotence = true;
  client_id = "kafka-go-producer";
  async_producer = false;
  group_id = "default-consumer-group";
  auto_commit = false;
  commit_interval = pos 5000000000;
  async_consumer = false;
  consumer_concurrency = pos 3;
}

-- `kafka.TopicConfig`, its entries as names with values.
pub record TopicConfig : Type 0 where
  pub topic : String
  pub num_partitions : ℤ
  pub replication_factor : ℤ
  pub config_entries : List (String × String)

pub data TopicError : Type 0 where
  dial_failed create_failed : String → TopicError

-- `int64(period / time.Millisecond)`, which rounds towards zero.
unfoldable pub retention_ms : ℤ → ℤ
retention_ms (pos n) = pos (n / 1000000)
retention_ms (negsuc n) = sub_ℕ 0 (suc n / 1000000)

unfoldable pub topic_config : KafkaConfig → TopicConfig
topic_config config = record {
  topic = config.topic;
  num_partitions = config.num_partitions;
  replication_factor = config.replication_factor;
  config_entries =
      ("retention.ms", format_int (retention_ms config.retention_period))
      ∷ ("retention.bytes", format_int config.retention_size)
      ∷ [];
}

-- `CreateTopic`, where `dial` connects to a broker and `create` is `CreateTopics` of the connection;
-- `none` is the panic of a configuration without brokers.
unfoldable pub create_topic :
    {Conn : Type 0}
    → (String → Fallible String Conn)
    → (Conn → TopicConfig → Fallible String (Unit {0}))
    → KafkaConfig
    → Option (Fallible TopicError (Unit {0}))
create_topic dial create config = elim config.brokers [
  | [] ↦ none
  | broker ∷ rest ↦ some (do
    conn ← map_err dial_failed (dial broker)
    map_err create_failed (create conn (topic_config config)))
]
