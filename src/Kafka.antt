-- ===== src/Kafka.antt =====
-- kafka/: settings and topics, the producer's retries and the consumer's commits.
pub mod Topics
pub mod Producer
pub mod Retries
pub mod Consumer
pub mod Commits
pub mod Async
pub mod Setup
pub mod Example
pub mod Delivery
pub mod Consuming
pub mod Closing
mod Tests
