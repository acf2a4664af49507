-- ===== src/Cache/Tests.antt =====
-- The theorems on the cache and its locks at a server that keeps what each key shows at each time.
use huba.Common.{◌≤◌}
use huba.Common.Dict.{lookup}
use huba.Cache.Store.{Dest, load, hand_over, get, set}
use huba.Cache.Example.{main}
use huba.Cache.Session.{session_lem}
use huba.Cache.Advanced.{
  slice_from, lookup_user_from_db, load_user, look_up, cache_aside_example,
  distributed_lock_example,
}
use huba.Cache.Guarded.{lock_example_lem}
use huba.Common.{
  ℕ, ◌+◌, String, ◌≡◌, refl, inr, true, false, Option, none, some, List, [], ◌∷◌, arith, leb, ◌==◌,
  str_eq, if◌then◌else◌, is_some, Fallible, ok, err,
}
use huba.Cache.Redis.{send, Redis, IsLawful, answered, failed, CacheError, other}
use huba.Cache.Store.{typed, Json, decode, cache_aside}
use huba.Cache.Aside.{delivered, cache_aside_twice}
use huba.Cache.Lock.{
  DistributedLock, new_distributed_lock, acquire, extend, release, extend_script, release_script,
}
use huba.Cache.Lock.Calls.{LockCall, acquire_call, release_call, extend_call, perform, run_calls}
use huba.Cache.Lock.Exclusion.{AllRefused, exclusive}
use huba.Cache.Lock.Holdings.{holder, spec_run}
use huba.Cache.Lock.Refinement.{run_calls-refines}

abbrev lasting : ℕ → ℕ → ℕ → String → Option String
lasting t ttl u v = if ttl == 0 then some v else if leb (t + ttl) u then none else some v

abbrev Timeline : Type 0
Timeline = ℕ → String → Option String

abbrev timeline : Redis
timeline = record {
  Server = Timeline;
  expired = leb;
  millis = λ ttl. ttl;
  get = λ s u k. s u k;
  exists = λ s t k. if is_some (s t k) then 1 else 0;
  set = λ t k v ttl s u j. if str_eq k j then lasting t ttl u v else s u j;
  set_nx = λ t k v ttl s.
      if is_some (s t k)
      then (s, false)
      else ((λ u j. if str_eq k j then lasting t ttl u v else s u j), true);
  del = λ t k s. ((λ u j. if str_eq k j then none else s u j), if is_some (s t k) then 1 else 0);
  pexpire = λ t k ms s. (
    (λ u j.
        if str_eq k j
        then if ms == 0 then none else if leb (t + ms) u then none else s t k
        else s u j),
    if is_some (s t k) then 1 else 0,
  );
}

timeline-IsLawful : IsLawful timeline
timeline-IsLawful = record {
  not_early = λ d u h. ground arith;
  gone = λ d u h. ground arith;
  millis_pos = λ ttl h. h;
  exists_result = λ t k s. refl;
  get-set = λ t ttl u k v j s h. ground arith;
  set_nx_result = λ t ttl k v s. ground arith;
  get-set_nx = λ t ttl u k v j s h. ground arith;
  del_result = λ t k s. refl;
  get-del = λ t u k j s h. refl;
  pexpire_result = λ t ms k s. refl;
  get-pexpire = λ t ms u k j s h. ground arith;
}

abbrev nothing : Timeline
nothing u k = none

abbrev ours : DistributedLock
ours = record { key = "lock:job"; token = "A"; expiry = 10 }

abbrev theirs : DistributedLock
theirs = record { key = "lock:job"; token = "B"; expiry = 10 }

new_lock : new_distributed_lock "A" "job" 10 ≡ ours
unfolding new_distributed_lock
new_lock = refl

-- Another lock asks twice, of which the first answer is lost, and tries to release.
abbrev attempts : List LockCall
attempts = acquire_call (answered (6 ∷ []) 7) theirs ∷ release_call (answered [] 8) theirs ∷ []

ours_acquired : (acquire timeline (answered [] 5) ours nothing).1 ≡ ok tt
unfolding acquire send
ours_acquired = refl

exclusive_example :
    AllRefused ours attempts
      (run_calls timeline attempts (acquire timeline (answered [] 5) ours nothing).0).1
    × ((run_calls timeline attempts (acquire timeline (answered [] 5) ours nothing).0).0 9
          "lock:job"
        ≡ some "A")
exclusive_example =
    exclusive timeline timeline-IsLawful ours [] 5 15 9 nothing attempts ours_acquired
      (inr (omega arith)) (refl, (refl, tt)) (omega arith) (omega arith) (omega arith)

abbrev turns : List LockCall
turns =
    acquire_call (answered [] 5) ours
    ∷ extend_call (answered [] 6) 3000000 ours
    ∷ release_call (answered [] 7) ours
    ∷ acquire_call (answered [] 8) theirs
    ∷ []

run_calls-refines_example :
    ((run_calls timeline turns nothing).1 ≡ (spec_run timeline turns (λ j. none)).1)
    × ((run_calls timeline turns nothing).0 9 "lock:job"
        ≡ holder timeline ((spec_run timeline turns (λ j. none)).0 "lock:job") 9)
run_calls-refines_example =
    run_calls-refines timeline timeline-IsLawful turns 0 9 "lock:job" nothing (λ j. none)
      (λ u j h. refl) (omega arith) (omega arith)

turns_succeed : (run_calls timeline turns nothing).1 ≡ ok tt ∷ ok tt ∷ ok tt ∷ ok tt ∷ []
unfolding run_calls perform acquire extend release send extend_script release_script
turns_succeed = refl

-- Extended by less than a millisecond, the lock is gone.
extend_zero :
    (run_calls timeline
      (acquire_call (answered [] 5) ours
        ∷ extend_call (answered [] 6) 999999 ours
        ∷ acquire_call (answered [] 7) theirs
        ∷ [])
      nothing).1
    ≡ ok tt ∷ ok tt ∷ ok tt ∷ []
unfolding run_calls perform acquire extend release send extend_script release_script
extend_zero = refl

abbrev numerals : Json
numerals = record {
  Value = ℕ;
  Target = ℕ;
  marshal = λ n. if n == 3 then ok "3" else err "no numeral";
  unmarshal = λ text dest. (typed (if str_eq text "3" then 3 else 0), none);
}

abbrev loads_three : String → Fallible CacheError ℕ
loads_three key = ok 3

abbrev fails : String → Fallible CacheError ℕ
fails key = err (other "down")

cache_aside_twice_example :
    let first =
      cache_aside timeline numerals
        (answered [] 1)
        (answered [] 2)
        (answered [] 3)
        "k"
        (typed 0)
        10
        loads_three
        nothing in
    ((first.dest, first.error) ≡ delivered timeline numerals 3 "3" (typed 0))
    × (first.loads ≡ "k" ∷ [])
    × (cache_aside timeline numerals
          (answered [] 9)
          (failed [] "x")
          (failed [] "x")
          "k"
          (typed 1)
          5
          fails
          first.server
        ≡ record {
          server = first.server;
          dest = (decode timeline numerals (ok (some "3")) (typed 1)).0;
          error = (decode timeline numerals (ok (some "3")) (typed 1)).1;
          loads = [];
        })
unfolding cache_aside
cache_aside_twice_example =
    let first =
      cache_aside timeline numerals (answered [] 1) (answered [] 2) (answered [] 3) "k" (typed 0) 10
        loads_three nothing in
    cache_aside_twice timeline timeline-IsLawful numerals [] [] [] [] 1 2 3 9 (failed [] "x")
      (failed [] "x") "k" "3" 3 (typed 0) (typed 1) 10 5 loads_three fails nothing first.server
      first refl refl refl refl (omega arith) (omega arith) (inr (omega arith)) refl

abbrev show_three : Dest ℕ ℕ → String
show_three dest = "3"

session_lem_example :
    let outcome =
      main timeline numerals show_three
        (λ config. none)
        (record {
          set_call = answered [] 1;
          get_call = answered [] 2;
          exists_call = answered (3 ∷ []) 4;
          delete_call = answered [] 5;
          exists_again = answered [] 6;
        })
        "7"
        3
        0
        nothing in
    (outcome.1
      ≡ "User cached successfully" ∷ "Retrieved user from cache: 3" ∷ "User exists in cache: true"
        ∷ "User deleted from cache" ∷ "User exists in cache after deletion: false" ∷ [])
    × (outcome.2 ≡ some tt)
    × ((u : ℕ) → 5 ≤ u → outcome.0 u "user:7" ≡ none)
session_lem_example =
    session_lem timeline timeline-IsLawful numerals show_three (λ config. none) [] [] (3 ∷ []) [] []
      1 2 4 5 6 "7" "3" 3 0 (typed 3) nothing refl refl refl (omega arith) (omega arith)
      (omega arith) (omega arith) (omega arith)

lock_example_lem_example :
    let outcome =
      distributed_lock_example timeline
        (answered [] 1)
        (answered [] 2)
        (answered [] 9)
        "A"
        nothing in
    (outcome.1
      ≡ "\n=== Distributed Lock Example ===" ∷ "Lock acquired successfully"
        ∷ "Performing critical section work..." ∷ "Lock extended successfully"
        ∷ "Lock released successfully" ∷ [])
    × (outcome.2 ≡ some tt)
    × ((u : ℕ) → 9 ≤ u → outcome.0 u "lock:user_update" ≡ none)
lock_example_lem_example =
    lock_example_lem timeline timeline-IsLawful 1 2 9 "A" nothing refl (omega arith) (omega arith)
      (omega arith) (omega arith)

-- A loader over a table with one user, and a key that is too short.
loads_user : load_user {V = ℕ} (("user123", 3) ∷ []) "user:user123" ≡ ok 3
unfolding load_user slice_from lookup_user_from_db lookup
loads_user = refl

short_key : load_user {V = ℕ} [] "user" ≡ err (other "slice bounds out of range")
unfolding load_user slice_from
short_key = refl

-- The second lookup does not print that it loads.
two_lookups :
    (cache_aside_example timeline numerals show_three
      (("user123", 3) ∷ [])
      (record { get_call = answered [] 1; set_call = answered [] 2; get_again = answered [] 3 })
      (record { get_call = answered [] 4; set_call = answered [] 5; get_again = answered [] 6 })
      0
      nothing).1
    ≡ "\n=== Cache-Aside Pattern Example ===" ∷ "Cache miss! Loading from database..."
      ∷ "First lookup (cache miss): 3" ∷ "Second lookup (cache hit): 3" ∷ []
unfolding cache_aside_example look_up cache_aside load hand_over get set send load_user slice_from
    lookup_user_from_db lookup
two_lookups = refl
