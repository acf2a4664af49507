-- ===== src/Cache/Guarded.antt =====
-- What the demonstration of the lock prints.
use huba.Common.{
  ap, ◌∙◌, ℕ, ◌+◌, ◌*◌, ◌≤◌, ◌<◌, String, ◌≡◌, Option, none, some, List, [], ◌∷◌, arith, eq_iff, ok,
  err, Fallible,
}
use huba.Common.Script.{◌>>=◌, ◌>>◌, print}
use huba.Cache.Redis.{Redis, IsLawful, answered, send, CacheError}
use huba.Cache.Lock.{
  DistributedLock, new_distributed_lock, acquire, extend, release, release_script, extend_script,
}
use huba.Cache.Client.{second}
use huba.Cache.Advanced.{refuse, hold, distributed_lock_example}

module _ (r : Redis) (t1 t2 t3 : ℕ) (uuid : String) (s held longer free : r.Server) where
  abbrev ours : DistributedLock
  ours = new_distributed_lock uuid "user_update" (10 * second)

  abbrev Outcome : Type 0
  Outcome = r.Server × List String × Option (Unit {0})

  hold_of :
      extend r (answered [] t2) (10 * second) ours held ≡ (ours, longer, ok tt)
      → release r (answered [] t3) ours longer ≡ (free, ok tt)
      → hold r (answered [] t2) (answered [] t3) ours held ≡ (
        free,
        "Lock acquired successfully" ∷ "Performing critical section work..."
            ∷ "Lock extended successfully" ∷ "Lock released successfully" ∷ [],
        some tt,
      )
  unfolding hold
  hold_of e2 e3 = rw (e2, hold) (rw e3)

  -- The program, by what its calls do.
  example_of :
      acquire r (answered [] t1) ours s ≡ (held, ok tt)
      → extend r (answered [] t2) (10 * second) ours held ≡ (ours, longer, ok tt)
      → release r (answered [] t3) ours longer ≡ (free, ok tt)
      → distributed_lock_example r (answered [] t1) (answered [] t2) (answered [] t3) uuid s ≡ (
        free,
        "\n=== Distributed Lock Example ===" ∷ "Lock acquired successfully"
            ∷ "Performing critical section work..." ∷ "Lock extended successfully"
            ∷ "Lock released successfully" ∷ [],
        some tt,
      )
  unfolding distributed_lock_example
  example_of e1 e2 e3 =
      let body : r.Server × Fallible CacheError (Unit {0}) → Outcome = λ o.
        (print "\n=== Distributed Lock Example ==="
            >> ((λ _. let (s', a) = o in (s', [], some a)) >>= λ acquired. elim acquired [
              | err e ↦ refuse r e
              | ok done ↦ hold r (answered [] t2) (answered [] t3) ours
            ]))
          s in
      ap body e1
      ∙ ap (λ (o : Outcome). (o.0, "\n=== Distributed Lock Example ===" ∷ o.1, o.2)) (hold_of e2 e3)

module _ (r : Redis) (laws : IsLawful r) (t1 t2 t3 : ℕ) (uuid : String) (s : r.Server)
    (free : r.get s t1 "lock:user_update" ≡ none) (le2 : t1 ≤ t2) (le3 : t2 ≤ t3)
    (lasts : t2 < t1 + r.millis (10 * second)) (lasts' : t3 < t2 + 10000) where
  abbrev name : String
  name = "lock:user_update"

  abbrev held : r.Server
  held = (r.set_nx t1 name uuid (10 * second) s).0

  abbrev longer : r.Server
  longer = (r.pexpire t2 name 10000 held).0

  acquire_free :
      acquire r (answered [] t1) (new_distributed_lock uuid "user_update" (10 * second)) s
      ≡ (held, ok tt)
  unfolding acquire send new_distributed_lock
  acquire_free = ground (arith, laws.set_nx_result t1 (10 * second) name uuid s)

  held_shows : r.get held t2 name ≡ some uuid
  held_shows = ground (
    arith,
    laws.get-set_nx t1 (10 * second) t2 name uuid name s,
    laws.not_early (t1 + r.millis (10 * second)) t2,
    eq_iff name name,
  )

  extend-held :
      extend r
        (answered [] t2)
        (10 * second)
        (new_distributed_lock uuid "user_update" (10 * second))
        held
      ≡ (new_distributed_lock uuid "user_update" (10 * second), longer, ok tt)
  unfolding extend extend_script send new_distributed_lock
  extend-held = ground (arith, held_shows, laws.pexpire_result t2 10000 name held, eq_iff uuid uuid)

  longer_shows : r.get longer t3 name ≡ some uuid
  longer_shows = ground (
    arith,
    held_shows,
    laws.get-pexpire t2 10000 t3 name name held,
    laws.not_early (t2 + 10000) t3,
    eq_iff name name,
  )

  release-longer :
      release r (answered [] t3) (new_distributed_lock uuid "user_update" (10 * second)) longer
      ≡ ((r.del t3 name longer).0, ok tt)
  unfolding release release_script send new_distributed_lock
  release-longer = ground (arith, longer_shows, laws.del_result t3 name longer, eq_iff uuid uuid)

  -- The demonstration of the lock, where nobody holds the lock and the server executes each command
  -- once, in the order of the program: if it is extended before ten seconds have passed and released
  -- within ten seconds of that, it prints that it acquired, extended and released the lock, whatever
  -- its token, and from then on nobody holds the lock.
  pub lock_example_lem :
      let outcome =
        distributed_lock_example r (answered [] t1) (answered [] t2) (answered [] t3) uuid s in
      (outcome.1
        ≡ "\n=== Distributed Lock Example ===" ∷ "Lock acquired successfully"
          ∷ "Performing critical section work..." ∷ "Lock extended successfully"
          ∷ "Lock released successfully" ∷ [])
      × (outcome.2 ≡ some tt)
      × ((u : ℕ) → t3 ≤ u → r.get outcome.0 u "lock:user_update" ≡ none)
  lock_example_lem =
      let whole =
        example_of r t1 t2 t3 uuid s held longer (r.del t3 name longer).0 acquire_free extend-held
          release-longer in
      (
        ap (λ (o : r.Server × List String × Option (Unit {0})). o.1) whole,
        ap (λ (o : r.Server × List String × Option (Unit {0})). o.2) whole,
        λ u le.
            ap (λ (o : r.Server × List String × Option (Unit {0})). r.get o.0 u name) whole
            ∙ ground (arith, laws.get-del t3 u name name longer, eq_iff name name),
      )
