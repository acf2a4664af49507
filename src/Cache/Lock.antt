-- ===== src/Cache/Lock.antt =====
-- cache/lock.go. The fields `redis` and `ctx` are the server that is passed on and the delivery.
-- Durations are in nanoseconds and not negative.
pub mod Calls
pub mod Exclusion
pub mod Holdings
pub mod Refinement
use huba.Common.{
  ℕ, ◌/◌, String, ◌<>◌, Bool, false, not, Option, none, some, ◌==◌, str_eq, if◌then◌else◌, Fallible,
  ok, err,
}
use huba.Cache.Redis.{
  Redis, Delivery, send, CacheError, lock_acquisition_failed, lock_release_unauthorized, other,
}

pub record DistributedLock : Type 0 where
  pub key : String
  pub token : String
  pub expiry : ℕ

-- The token is a new UUID.
unfoldable pub new_distributed_lock : String → String → ℕ → DistributedLock
new_distributed_lock uuid key expiry = record {
  key = "lock:" <> key;
  token = uuid;
  expiry = expiry;
}

-- `redis.call("GET", key) == text` in Lua, where a missing key is false.
abbrev pub is_text : Option String → String → Bool
is_text none w = false
is_text (some v) w = str_eq v w

-- `res.(int64) == 0`
abbrev pub owned : Fallible String ℕ → Fallible CacheError (Unit {0})
owned (err e) = err (other e)
owned (ok n) = if n == 0 then err lock_release_unauthorized else ok tt

abbrev pub obtained : Fallible String Bool → Fallible CacheError (Unit {0})
obtained (err e) = err (other e)
obtained (ok done) = if not done then err lock_acquisition_failed else ok tt

module _ (r : Redis) where
  unfoldable pub acquire :
      Delivery → DistributedLock → r.Server → r.Server × Fallible CacheError (Unit {0})
  acquire d lock s =
      let (s', res) = send (λ t. r.set_nx t lock.key lock.token lock.expiry) d s in
      (s', obtained res)

  -- The Lua script of `Release`, which the server runs as one command.
  unfoldable pub release_script : String → String → ℕ → r.Server → r.Server × ℕ
  release_script key token t s = if is_text (r.get s t key) token then r.del t key s else (s, 0)

  unfoldable pub release :
      Delivery → DistributedLock → r.Server → r.Server × Fallible CacheError (Unit {0})
  release d lock s =
      let (s', res) = send (release_script lock.key lock.token) d s in (s', owned res)

  unfoldable pub extend_script : String → String → ℕ → ℕ → r.Server → r.Server × ℕ
  extend_script key token ms t s =
      if is_text (r.get s t key) token then r.pexpire t key ms s else (s, 0)

  -- `extension.Milliseconds()` drops what is below a millisecond.
  unfoldable pub extend :
      Delivery
      → ℕ
      → DistributedLock
      → r.Server
      → DistributedLock × r.Server × Fallible CacheError (Unit {0})
  extend d extension lock s =
      let (s', res) = send (extend_script lock.key lock.token (extension / 1000000)) d s in
      elim (owned res) [
        | err e ↦ (lock, s', err e)
        | ok done ↦ (record lock { expiry = extension }, s', ok tt)
      ]
