-- ===== src/Cache/Client.antt =====
-- What the demonstration programs of cache/ share: the client that they open, and the texts that they
-- print. The connection is a parameter.
use huba.Common.{ℕ, String, ◌<>◌, Option, none, some, Fallible, ok, err}
use huba.Common.Int.{ℤ, pos}
use huba.Common.Script.{Script, pure, fatal}
use huba.Cache.Redis.{
  CacheError, key_not_found, lock_acquisition_failed, lock_release_unauthorized,
  rate_limit_exceeded, other,
}

pub record RedisConfig : Type 0 where
  pub address : String
  pub password : String
  pub db : ℤ

-- `NewRedisCache`: the client is made at once, and `ping` is what the server answers to PING within
-- five seconds, if that is an error.
unfoldable pub new_redis_cache :
    (RedisConfig → Option String) → RedisConfig → Fallible String RedisConfig
new_redis_cache ping config = elim (ping config) [ some e ↦ err e | none ↦ ok config ]

-- The settings of both programs.
unfoldable pub local_config : RedisConfig
local_config = record { address = "localhost:6379"; password = ""; db = pos 0 }

unfoldable pub connect : {S : Type 0} → (RedisConfig → Option String) → Script S RedisConfig
unfolding new_redis_cache local_config
connect ping s = elim (new_redis_cache ping local_config) [
  | err e ↦ fatal ("Failed to connect to Redis: " <> e) s
  | ok client ↦ pure client s
]

abbrev pub second : ℕ
second = 1_000_000_000

abbrev pub error_text : CacheError → String
error_text key_not_found = "key not found in cache"
error_text lock_acquisition_failed = "failed to acquire lock"
error_text lock_release_unauthorized = "lock is not owned by this instance"
error_text rate_limit_exceeded = "rate limit exceeded"
error_text (other e) = e

-- `if err != nil { log.Fatalf(…) }`
abbrev pub must : {S : Type 0} → String → Option CacheError → Script S (Unit {0})
must what none = pure tt
must what (some e) = fatal (what <> ": " <> error_text e)
