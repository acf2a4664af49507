-- ===== src/Cache/Advanced.antt =====
-- cache/example2/advanced.go: cache-aside over a table of users, and a lock around some work. The
-- table, `show`, which is `%+v` of a destination, and the JSON of a user are parameters; the measured
-- duration of the second lookup is left out of its line. For the rate limiter see Cache/Limiter.
use huba.Common.{
  ℕ, zero, suc, ◌*◌, String, ◌<>◌, Option, none, some, List, [], ◌∷◌, Fallible, ok, err,
}
use huba.Common.Dict.{Dict, lookup}
use huba.Common.Script.{Script, ◌>>=◌, ◌>>◌, pure, print, fatal, call}
use huba.Cache.Redis.{Redis, Delivery, CacheError, lock_acquisition_failed, other}
use huba.Cache.Store.{Dest, typed, Json, cache_aside}
use huba.Cache.Lock.{DistributedLock, new_distributed_lock, acquire, extend, release}
use huba.Cache.Client.{second, error_text, must}

-- `key[n:]`; `none` is a panic.
unfoldable pub slice_from : ℕ → String → Option String
slice_from zero s = some s
slice_from (suc n) String.[] = none
slice_from (suc n) (String.◌∷◌ c s) = slice_from n s

unfoldable pub lookup_user_from_db : {V : Type 0} → Dict V → String → Fallible CacheError V
lookup_user_from_db mock_db id = elim (lookup id mock_db) [
  | none ↦ err (other "sql: no rows in result set")
  | some user ↦ ok user
]

-- The loader. A key of less than five bytes makes the slice panic, which ends the program as the
-- errors of its lookups do; here it is an error.
unfoldable pub load_user : {V : Type 0} → Dict V → String → Fallible CacheError V
unfolding slice_from lookup_user_from_db
load_user mock_db key = elim (slice_from 5 key) [
  | none ↦ err (other "slice bounds out of range")
  | some id ↦ lookup_user_from_db mock_db id
]

-- How the three commands of a lookup go.
pub record Attempt : Type 0 where
  pub get_call : Delivery
  pub set_call : Delivery
  pub get_again : Delivery

module _ (r : Redis) where
  module _ (json : Json) (show : Dest json.Value json.Target → String) where
    -- The loader prints a line each time it is called.
    unfoldable pub announce : List String → List String
    announce [] = []
    announce (key ∷ loads) = "Cache miss! Loading from database..." ∷ announce loads

    unfoldable pub look_up :
        Dict json.Value
        → Attempt
        → json.Target
        → Script r.Server (Dest json.Value json.Target × Option CacheError)
    unfolding announce
    look_up mock_db a blank s =
        let found =
          cache_aside r json a.get_call a.set_call a.get_again "user:user123" (typed blank)
            (60 * second) (load_user mock_db) s in
        (found.server, announce found.loads, some (found.dest, found.error))

    unfoldable pub cache_aside_example :
        Dict json.Value → Attempt → Attempt → json.Target → Script r.Server (Unit {0})
    unfolding look_up
    cache_aside_example mock_db a b blank = do
      print "\n=== Cache-Aside Pattern Example ==="
      (user1, e) ← look_up mock_db a blank
      must "Failed to get user" e
      print ("First lookup (cache miss): " <> show user1)
      (user2, e) ← look_up mock_db b blank
      must "Failed to get user" e
      print ("Second lookup (cache hit): " <> show user2)

  unfoldable pub refuse : CacheError → Script r.Server (Unit {0})
  refuse lock_acquisition_failed = print "Could not acquire lock - another process has it"
  refuse e = fatal ("Failed to acquire lock: " <> error_text e)

  -- `if err != nil { log.Fatalf(…) }` for the lock's calls.
  abbrev pub must_do : String → Fallible CacheError (Unit {0}) → Script r.Server (Unit {0})
  must_do what (ok done) = pure tt
  must_do what (err e) = fatal (what <> ": " <> error_text e)

  abbrev pub extending :
      Delivery
      → ℕ
      → DistributedLock
      → Script r.Server (DistributedLock × Fallible CacheError (Unit {0}))
  extending d extension lock s =
      let (lock', s', res) = extend r d extension lock s in (s', [], some (lock', res))

  -- The work under the lock.
  unfoldable pub hold : Delivery → Delivery → DistributedLock → Script r.Server (Unit {0})
  hold d_extend d_release lock = do
    print "Lock acquired successfully"
    print "Performing critical section work..."
    (lock', extended) ← extending d_extend (10 * second) lock
    must_do "Failed to extend lock" extended
    print "Lock extended successfully"
    released ← call (release r d_release lock')
    must_do "Failed to release lock" released
    print "Lock released successfully"

  unfoldable pub distributed_lock_example :
      Delivery → Delivery → Delivery → String → Script r.Server (Unit {0})
  unfolding refuse hold
  distributed_lock_example d_acquire d_extend d_release uuid = do
    print "\n=== Distributed Lock Example ==="
    let lock = new_distributed_lock uuid "user_update" (10 * second)
    acquired ← call (acquire r d_acquire lock)
    elim acquired [ err e ↦ refuse e | ok done ↦ hold d_extend d_release lock ]
