-- ===== src/Cache.antt =====
-- cache/: the Redis cache, the distributed lock, cache-aside and the rate limiter.
pub mod Redis
pub mod Deliveries
pub mod Store
pub mod Aside
pub mod Limiter
pub mod Lock
pub mod Client
pub mod Example
pub mod Session
pub mod Advanced
pub mod Guarded
mod Tests
