-- ===== src/Cache/Lock/Calls.antt =====
-- Sequences of calls of lock objects against one server, in the order in which it executes them.
use huba.Common.{ℕ, ◌≡◌, refl, List, [], ◌∷◌, ◌++◌, Fallible}
use huba.Cache.Redis.{Redis, Delivery, times, CacheError}
use huba.Cache.Deliveries.{Ascends, last_time}
use huba.Cache.Lock.{DistributedLock, acquire, release, extend}

pub data LockCall : Type 0 where
  acquire_call : Delivery → DistributedLock → LockCall
  release_call : Delivery → DistributedLock → LockCall
  extend_call : Delivery → ℕ → DistributedLock → LockCall

abbrev pub delivery : LockCall → Delivery
delivery (acquire_call d lock) = d
delivery (release_call d lock) = d
delivery (extend_call d extension lock) = d

abbrev pub caller : LockCall → DistributedLock
caller (acquire_call d lock) = lock
caller (release_call d lock) = lock
caller (extend_call d extension lock) = lock

abbrev pub call_times : List LockCall → List ℕ
call_times [] = []
call_times (c ∷ calls) = times (delivery c) ++ call_times calls

pub Ascends-append :
    (t : ℕ) (us vs : List ℕ) → Ascends t (us ++ vs) → Ascends t us × Ascends (last_time t us) vs
Ascends-append t [] vs a = (tt, a)
Ascends-append t (u ∷ us) vs a = let (l, m) = Ascends-append u us vs a.1 in ((a.0, l), m)

pub last_time-append :
    (t : ℕ) (us vs : List ℕ) → last_time t (us ++ vs) ≡ last_time (last_time t us) vs
last_time-append t [] vs = refl
last_time-append t (u ∷ us) vs = last_time-append u us vs

module _ (r : Redis) where
  unfoldable pub perform : LockCall → r.Server → r.Server × Fallible CacheError (Unit {0})
  perform (acquire_call d lock) s = acquire r d lock s
  perform (release_call d lock) s = release r d lock s
  perform (extend_call d extension lock) s =
      let (lock', s', res) = extend r d extension lock s in (s', res)

  -- The server afterwards, and what each call returned.
  unfoldable pub run_calls :
      List LockCall → r.Server → r.Server × List (Fallible CacheError (Unit {0}))
  run_calls [] s = (s, [])
  run_calls (c ∷ calls) s =
      let (s', res) = perform c s in let (s'', results) = run_calls calls s' in (s'', res ∷ results)
