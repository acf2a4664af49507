-- ===== src/Cache/Lock/Exclusion.antt =====
-- Mutual exclusion: what other lock objects can do while a lock lasts.
use huba.Common.{
  ℕ, ◌+◌, ◌/◌, ◌≤◌, ◌<◌, ◌≡◌, ◌⊎◌, inl, inr, Bool, true, false, not, ◌&&◌, some, List, [], ◌∷◌,
  arith, eq_iff, ◌==◌, str_eq, All, Fallible, ok, err, Fallible-cases,
}
use huba.Cache.Redis.{Redis, IsLawful, answered, times, repeat, send, CacheError}
use huba.Cache.Deliveries.{Ascends, last_time, le-last_time, send-keeps}
use huba.Cache.Lock.{DistributedLock, acquire, release_script, release, extend_script, extend}
use huba.Cache.Lock.Calls.{
  LockCall, acquire_call, release_call, extend_call, delivery, caller, call_times, Ascends-append,
  last_time-append, perform, run_calls,
}

abbrev pub succeeded : Fallible CacheError (Unit {0}) → Bool
succeeded (ok done) = true
succeeded (err e) = false

-- Another key or another token.
abbrev pub is_other : DistributedLock → DistributedLock → Bool
is_other mine lock = not (str_eq lock.key mine.key && str_eq lock.token mine.token)

-- No call for the key has succeeded.
abbrev pub AllRefused :
    DistributedLock → List LockCall → List (Fallible CacheError (Unit {0})) → Type 0
AllRefused mine [] results = Unit
AllRefused mine (c ∷ calls) [] = ⊥
AllRefused mine (c ∷ calls) (res ∷ results) =
    ((succeeded res && str_eq (caller c).key mine.key) ≡ false) × AllRefused mine calls results

module _ (r : Redis) (laws : IsLawful r) (mine : DistributedLock) (finish : ℕ) where
  abbrev Owned : ℕ → r.Server → Type 0
  Owned t s = (u : ℕ) → t ≤ u → u < finish → r.get s u mine.key ≡ some mine.token

  module _ (lock : DistributedLock) (different : is_other mine lock ≡ true) (t v : ℕ) (s : r.Server)
      (le : t ≤ v) (lt : v < finish) (held : Owned t s) where
    set_nx-Owned :
        Owned v (r.set_nx v lock.key lock.token lock.expiry s).0
        × (((r.set_nx v lock.key lock.token lock.expiry s).1 && str_eq lock.key mine.key) ≡ false)
    set_nx-Owned = (
      λ u v-le u-lt. ground (
        arith,
        laws.get-set_nx v lock.expiry u lock.key lock.token mine.key s,
        held u,
        held v,
        eq_iff lock.key mine.key,
      ),
      ground (
        arith,
        laws.set_nx_result v lock.expiry lock.key lock.token s,
        held v,
        eq_iff lock.key mine.key,
      ),
    )

    release_script-Owned :
        Owned v (release_script r lock.key lock.token v s).0
        × ((not ((release_script r lock.key lock.token v s).1 == 0) && str_eq lock.key mine.key)
            ≡ false)
    unfolding release_script
    release_script-Owned = (
      λ u v-le u-lt. ground (
        arith,
        laws.get-del v u lock.key mine.key s,
        held u,
        held v,
        eq_iff lock.key mine.key,
        eq_iff lock.token mine.token,
        eq_iff mine.token lock.token,
      ),
      ground (
        arith,
        held v,
        eq_iff lock.key mine.key,
        eq_iff lock.token mine.token,
        eq_iff mine.token lock.token,
      ),
    )

    extend_script-Owned :
        (ms : ℕ)
        → Owned v (extend_script r lock.key lock.token ms v s).0
          × ((not ((extend_script r lock.key lock.token ms v s).1 == 0) && str_eq lock.key mine.key)
              ≡ false)
    unfolding extend_script
    extend_script-Owned ms = (
      λ u v-le u-lt. ground (
        arith,
        laws.get-pexpire v ms u lock.key mine.key s,
        held u,
        held v,
        eq_iff lock.key mine.key,
        eq_iff lock.token mine.token,
        eq_iff mine.token lock.token,
      ),
      ground (
        arith,
        held v,
        eq_iff lock.key mine.key,
        eq_iff lock.token mine.token,
        eq_iff mine.token lock.token,
      ),
    )

  perform-Owned :
      (c : LockCall) (t : ℕ) (s : r.Server)
      → is_other mine (caller c) ≡ true
      → Owned t s
      → Ascends t (times (delivery c))
      → last_time t (times (delivery c)) < finish
      → Owned (last_time t (times (delivery c))) (perform r c s).0
        × ((succeeded (perform r c s).1 && str_eq (caller c).key mine.key) ≡ false)
  unfolding perform acquire release extend
  perform-Owned (acquire_call d lock) t s different held a b =
      let (kept, res) =
        send-keeps (λ v. r.set_nx v lock.key lock.token lock.expiry) finish Owned
          (λ (done : Bool). (done && str_eq lock.key mine.key) ≡ false)
          (λ u v s' le lt owned_by. set_nx-Owned lock different u v s' le lt owned_by) d t s held a
          b in
      (
        kept,
        elim (Fallible-cases (send (λ v. r.set_nx v lock.key lock.token lock.expiry) d s).1) [
          | inl (done, e) ↦ ground arith
          | inr (e', e) ↦ ground arith
        ],
      )
  perform-Owned (release_call d lock) t s different held a b =
      let (kept, res) =
        send-keeps (release_script r lock.key lock.token) finish Owned
          (λ (n : ℕ). (not (n == 0) && str_eq lock.key mine.key) ≡ false)
          (λ u v s' le lt owned_by. release_script-Owned lock different u v s' le lt owned_by) d t s
          held a b in
      (
        kept,
        elim (Fallible-cases (send (release_script r lock.key lock.token) d s).1) [
          | inl (n, e) ↦ ground arith
          | inr (e', e) ↦ ground arith
        ],
      )
  perform-Owned (extend_call d extension lock) t s different held a b =
      let (kept, res) =
        send-keeps (extend_script r lock.key lock.token (extension / 1000000)) finish Owned
          (λ (n : ℕ). (not (n == 0) && str_eq lock.key mine.key) ≡ false)
          (λ u v s' le lt owned_by.
            extend_script-Owned lock different u v s' le lt owned_by (extension / 1000000))
          d t s held a b in
      elim (Fallible-cases
        (send (extend_script r lock.key lock.token (extension / 1000000)) d s).1) [
          | inl (n, e) ↦ ground arith
          | inr (e', e) ↦ ground arith
        ]

  run_calls-Owned :
      (calls : List LockCall) (t : ℕ) (s : r.Server)
      → All (λ c. is_other mine (caller c) ≡ true) calls
      → Owned t s
      → Ascends t (call_times calls)
      → last_time t (call_times calls) < finish
      → Owned (last_time t (call_times calls)) (run_calls r calls s).0
        × AllRefused mine calls (run_calls r calls s).1
  unfolding run_calls
  run_calls-Owned [] t s others held a b = (held, tt)
  run_calls-Owned (c ∷ calls) t s others held a b =
      let first = times (delivery c) in
      let later = call_times calls in
      let (a1, a2) = Ascends-append t first later a in
      let split = last_time-append t first later in
      let after = le-last_time (last_time t first) later a2 in
      let (held', refused) =
        perform-Owned c t s others.0 held a1 (omega (arith, split, after, b)) in
      let (kept, rest) =
        run_calls-Owned calls (last_time t first) (perform r c s).0 others.1 held' a2
          (omega (arith, split, b)) in
      ((λ u le lt. kept u (omega (arith, split, le)) lt), (refused, rest))

  acquired-Owned :
      (lost : List ℕ) (t : ℕ) (s : r.Server)
      → (acquire r (answered lost t) mine s).1 ≡ ok tt
      → (mine.expiry ≡ 0) ⊎ (finish ≤ t + r.millis mine.expiry)
      → Owned t (acquire r (answered lost t) mine s).0
  unfolding acquire send
  acquired-Owned lost t s won lasts u le lt =
      let before = repeat (λ v. r.set_nx v mine.key mine.token mine.expiry) lost s in
      ground (
        arith,
        laws.get-set_nx t mine.expiry u mine.key mine.token mine.key before,
        laws.set_nx_result t mine.expiry mine.key mine.token before,
        laws.not_early (t + r.millis mine.expiry) u,
        eq_iff mine.key mine.key,
      )

-- A lock that `Acquire` has given to `mine` at time t excludes all others until its expiration, for
-- ever if it has none: whatever calls of lock objects with another key or another token follow, at
-- ascending times and with whatever network failures and repetitions, none of those for the same key
-- succeeds, be it `Acquire`, `Release` or `Extend`, and the server holds the token of `mine` until
-- then.
pub exclusive :
    (r : Redis) (laws : IsLawful r) (mine : DistributedLock) (lost : List ℕ) (t finish u : ℕ)
    (s : r.Server) (calls : List LockCall)
    → (acquire r (answered lost t) mine s).1 ≡ ok tt
    → (mine.expiry ≡ 0) ⊎ (finish ≤ t + r.millis mine.expiry)
    → All (λ c. is_other mine (caller c) ≡ true) calls
    → Ascends t (call_times calls)
    → last_time t (call_times calls) ≤ u
    → u < finish
    → AllRefused mine calls (run_calls r calls (acquire r (answered lost t) mine s).0).1
      × (r.get (run_calls r calls (acquire r (answered lost t) mine s).0).0 u mine.key
          ≡ some mine.token)
exclusive r laws mine lost t finish u s calls won lasts others a le lt =
    let (kept, refused) =
      run_calls-Owned r laws mine finish calls t (acquire r (answered lost t) mine s).0 others
        (acquired-Owned r laws mine finish lost t s won lasts) a (omega (arith, le, lt)) in
    (refused, kept u le lt)
