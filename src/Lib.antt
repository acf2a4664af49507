-- ===== src/Lib.antt =====
-- Verification of huba, a collection of Go packages for service back ends.
--
-- Parts and files (paths from the repository's root):
--   workerpool/workerpool..go   WorkerPool/: Types (tasks, results, channels, the pool), Setup
--     (options, NewWorkerPool), Scaling (startWorker, Start, adjustWorkers, Resize), Submit,
--     SubmitWait, Workers (the loop of a worker, a step for each point where it waits), Control
--     (Stop, StopAndWait, Pause, Resume, Drain, Stats), Schedule (interleavings). Theorems:
--     Invariant, Startup, Accounting, Growth, Shutdown, Stopping, Clearing (the loop of Stop), Draining,
--     Naming, Ids.
--   workerpool/example/main.go  WorkerPool/Example (ticks, the signal, StopAndWait),
--     WorkerPool/Unstopped.
--   kafka/producer.go           Kafka/Producer (Produce, ProduceBatch and their asynchronous
--     variants), Kafka/Retries.
--   kafka/config.go, kafka/topic.go   Kafka/Topics (settings and CreateTopic).
--   kafka/consumer.go           Kafka/Consumer (Consume, commitOffsets, ConsumeAsync's worker,
--     Close), Kafka/Commits; Kafka/Async (ConsumeAsync as an interleaving of its goroutines), and below
--     it Weights and Ledger (where the messages are), Endings and Stopping (StopConsumeAsync).
--   kafka/example/main.go       Kafka/Setup (NewProducer), Kafka/Example (the producing loops and both
--     consumers), Kafka/Delivery, Kafka/Consuming, Kafka/Closing.
--   oauth/middleware.go, oauth/handlers.go, oauth/google.go   Oauth/Sessions (cookie and
--     middleware), Oauth/Login (state tokens, handlers), Oauth/Userinfo (what the handlers call),
--     Oauth/Access, Oauth/Flow.
--   oauth/example/main.go       Oauth/Example (the pages behind the middleware), Oauth/Pages.
--   webauthn/user.go, store.go, service.go, handlers.go   Webauthn/Service, Webauthn/Handlers
--     (status codes and routes), Webauthn/Setup (NewService, what the library reads of a user),
--     Webauthn/Ceremonies, Webauthn/Responses.
--   cryptoutils/hmac/hmac.go   Hmac, Hmac/Laws; example/main.go there   Hmac/Example,
--     Hmac/Demonstration.
--   cache/redis.go, cache/patterns.go, cache/lock.go   Cache/Redis (the server and its laws, calls
--     with lost answers), Cache/Store (Get, Set, Delete, Exists, CacheAside), Cache/Lock, Cache/Limiter
--     (the rate limiter). Theorems: Cache/Deliveries (commands executed once or several times),
--     Cache/Aside, Cache/Lock/Calls, Holdings (the abstract lock table), Refinement, Exclusion,
--     Cache/Limiter/Bursts, Bounds, Quota.
--   cryptoutils/ecdsa/ecdsa.go   Ecdsa, Ecdsa/Service (the interface), Ecdsa/Laws; example/main.go
--     there   Ecdsa/Example, Ecdsa/Demonstration.
--   cache/example/main.go, cache/example2/advanced.go   Cache/Client (NewRedisCache, texts),
--     Cache/Example, Cache/Session; Cache/Advanced (cache-aside and the lock), Cache/Guarded.
--   unittest/userservice/user_service.go   UserService, UserService/Laws.
--   otel/otel.go, otel/example/main.go   Otel, Otel/Example, Otel/Cleanup.
--   main.go   Server (the middlewares and the values of the periodic log line), Server/Chain.
-- Common holds what they share: tests, lists, maps with text keys, fallible calls, integers, and
-- Common/Script: a demonstration program is a do block over a state that prints lines and that
-- `log.Fatalf` ends. The components' models do not use it.
--
-- How the code is read. A method that changes its receiver returns the new record. A Go error is
-- its text, `none` where it is nil; `(value, error)` is `Fallible`. Concurrency is a sequence of
-- steps: what a goroutine does between two points where it can wait is one step. So a worker's
-- deferred calls are one step, and so are a whole Pause, Resume, Resize, Start and Drain; a Submit
-- is one step or two, its check of a running pool and its select, and the clearing loop of Stop is
-- two steps for each round, its test and its receive. Where a Go `select` may choose, the choice is
-- an argument. The int64 counters of the pool wrap at 2^64; the number of live workers is a plain
-- number, since 2^31 goroutines do not fit into memory. The channels of a pool are buffered: with a
-- queue capacity of 0 a task would be handed over directly, which is not modelled. A panic handler
-- that panics itself is not modelled either.
--
-- The cache. A command of Redis is an operation on the server at a time; `get` says what a key shows
-- at any later time if nothing else is done, so that an expiration needs no step of its own. A call of
-- the client library is executed at a list of times whose answers are lost and then answered or given
-- up; Lua scripts are single commands. Keys of texts and of sorted sets are kept apart: a command for
-- a key of another type is a call that fails. Scores and windows are in nanoseconds.
--
-- Fuel. Only `drain` takes fuel, for the rounds of its loop: the number of queued tasks plus one
-- is enough while the queue is open. The decimal printer takes twenty digits, an int64 has
-- nineteen.
--
-- Outside the code, and so parameters: task functions, the Kafka broker with its client library,
-- message handlers, JSON, the cookie handling of net/http, the OAuth2 library and Google, the
-- go-webauthn library, Redis with its client library, hashes, encodings, ECDSA and the file system,
-- the user database, telemetry providers, clocks and random values. Not modelled: the log output of
-- the other packages, the routing and server loop of net/http; of the examples, the concurrent
-- requests of the rate limiter's demonstration in cache/example2, and the programs of webauthn and
-- proto, which only start servers of libraries. A message handler that panics in ConsumeAsync ends
-- the program, since nothing recovers there, and is left out; so is a negative concurrency, at
-- which ConsumeAsync panics, and a second StopConsumeAsync while a first one waits, which panics
-- because it closes a closed channel.
pub mod Cache
pub mod Common
pub mod WorkerPool
pub mod Kafka
pub mod Oauth
pub mod Webauthn
pub mod Hmac
pub mod Ecdsa
pub mod Otel
pub mod Server
pub mod UserService
