-- ===== src/Cache/Lock/Holdings.antt =====
-- What the locks promise, without the server: for each key, whose token holds it and until when.
use huba.Common.{
  ℕ, ◌+◌, ◌/◌, String, Bool, true, false, Option, none, some, List, [], ◌∷◌, ◌==◌, str_eq,
  if◌then◌else◌, is_some, Fallible, ok, err,
}
use huba.Cache.Redis.{
  Redis, deadline, until, send, CacheError, other, lock_acquisition_failed,
  lock_release_unauthorized,
}
use huba.Cache.Lock.{DistributedLock, is_text}
use huba.Cache.Lock.Calls.{LockCall, acquire_call, release_call, extend_call}

-- A token with its deadline; `none` is a lock that never expires.
abbrev pub Holdings : Type 0
Holdings = String → Option (String × Option ℕ)

abbrev pub assign : Holdings → String → Option (String × Option ℕ) → Holdings
assign h key held j = if str_eq key j then held else h j

module _ (r : Redis) where
  abbrev pub holder : Option (String × Option ℕ) → ℕ → Option String
  holder none u = none
  holder (some (token, d)) u = until r d u (some token)

  -- A key that nobody holds goes to the one who asks.
  unfoldable pub grant : DistributedLock → ℕ → Holdings → Holdings × Bool
  grant lock t h =
      if is_some (holder (h lock.key) t)
      then (h, false)
      else (assign h lock.key (some (lock.token, deadline r t lock.expiry)), true)

  -- Only the holder gives a key back.
  unfoldable pub give_back : DistributedLock → ℕ → Holdings → Holdings × Bool
  give_back lock t h =
      if is_text (holder (h lock.key) t) lock.token
      then (assign h lock.key none, true)
      else (h, false)

  -- Only the holder moves the deadline; less than a millisecond gives the key back.
  unfoldable pub prolong : ℕ → DistributedLock → ℕ → Holdings → Holdings × Bool
  prolong ms lock t h =
      if is_text (holder (h lock.key) t) lock.token
      then (assign h lock.key (if ms == 0 then none else some (lock.token, some (t + ms))), true)
      else (h, false)

  abbrev pub answer : CacheError → Fallible String Bool → Fallible CacheError (Unit {0})
  answer refusal (err e) = err (other e)
  answer refusal (ok done) = if done then ok tt else err refusal

  unfoldable pub spec_perform : LockCall → Holdings → Holdings × Fallible CacheError (Unit {0})
  unfolding grant give_back prolong
  spec_perform (acquire_call d lock) h =
      let (h', res) = send (grant lock) d h in (h', answer lock_acquisition_failed res)
  spec_perform (release_call d lock) h =
      let (h', res) = send (give_back lock) d h in (h', answer lock_release_unauthorized res)
  spec_perform (extend_call d extension lock) h =
      let (h', res) = send (prolong (extension / 1000000) lock) d h in
      (h', answer lock_release_unauthorized res)

  unfoldable pub spec_run :
      List LockCall → Holdings → Holdings × List (Fallible CacheError (Unit {0}))
  spec_run [] h = (h, [])
  spec_run (c ∷ calls) h =
      let (h', res) = spec_perform c h in
      let (h'', results) = spec_run calls h' in (h'', res ∷ results)
