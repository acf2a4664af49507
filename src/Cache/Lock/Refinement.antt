-- ===== src/Cache/Lock/Refinement.antt =====
-- The server under the calls of lock objects behaves as the table of holdings.
use huba.Common.{
  ℕ, ◌/◌, ◌≤◌, String, ◌≡◌, refl, ap, inl, inr, Bool, true, not, Option, none, some, List, [], ◌∷◌,
  arith, eq_iff, ◌==◌, Fallible-cases,
}
use huba.Cache.Redis.{Redis, IsLawful, times, send}
use huba.Cache.Deliveries.{Ascends, last_time, send-agrees}
use huba.Cache.Lock.{
  DistributedLock, is_text, acquire, release_script, release, extend_script, extend,
}
use huba.Cache.Lock.Calls.{
  LockCall, acquire_call, release_call, extend_call, delivery, call_times, Ascends-append,
  last_time-append, perform, run_calls,
}
use huba.Cache.Lock.Holdings.{Holdings, holder, grant, give_back, prolong, spec_perform, spec_run}

is_text-eq : (o : Option String) (w : String) → is_text o w ≡ true → o ≡ some w
is_text-eq none w h = cc
is_text-eq (some v) w h = ap some ((eq_iff v w).0 h)

-- What the server shows from a time on is what the table says.
abbrev pub Shows : (r : Redis) → ℕ → r.Server → Holdings → Type 0
Shows r t s h = (u : ℕ) (j : String) → t ≤ u → r.get s u j ≡ holder r (h j) u

module _ (r : Redis) (laws : IsLawful r) where
  module _ (lock : DistributedLock) (t v : ℕ) (s : r.Server) (h : Holdings) (le : t ≤ v)
      (shown : Shows r t s h) where
    grant-Shows :
        Shows r v (r.set_nx v lock.key lock.token lock.expiry s).0 (grant r lock v h).0
        × ((r.set_nx v lock.key lock.token lock.expiry s).1 ≡ (grant r lock v h).1)
    unfolding grant
    grant-Shows = (
      λ u j v-le. ground (
        arith,
        laws.get-set_nx v lock.expiry u lock.key lock.token j s,
        shown u j,
        shown v lock.key,
      ),
      ground (arith, laws.set_nx_result v lock.expiry lock.key lock.token s, shown v lock.key),
    )

    give_back-Shows :
        Shows r v (release_script r lock.key lock.token v s).0 (give_back r lock v h).0
        × (not ((release_script r lock.key lock.token v s).1 == 0) ≡ (give_back r lock v h).1)
    unfolding release_script give_back
    give_back-Shows = (
      λ u j v-le. ground (arith, laws.get-del v u lock.key j s, shown u j, shown v lock.key),
      ground (arith, laws.del_result v lock.key s, shown v lock.key),
    )

    prolong-Shows :
        (ms : ℕ)
        → Shows r v (extend_script r lock.key lock.token ms v s).0 (prolong r ms lock v h).0
          × (not ((extend_script r lock.key lock.token ms v s).1 == 0) ≡ (prolong r ms lock v h).1)
    unfolding extend_script prolong
    prolong-Shows ms = (
      λ u j v-le. ground (
        arith,
        laws.get-pexpire v ms u lock.key j s,
        shown u j,
        shown v lock.key,
        is_text-eq (r.get s v lock.key) lock.token,
      ),
      ground (arith, laws.pexpire_result v ms lock.key s, shown v lock.key),
    )

  perform-Shows :
      (c : LockCall) (t : ℕ) (s : r.Server) (h : Holdings)
      → Shows r t s h
      → Ascends t (times (delivery c))
      → Shows r (last_time t (times (delivery c))) (perform r c s).0 (spec_perform r c h).0
        × ((perform r c s).1 ≡ (spec_perform r c h).1)
  unfolding perform acquire release extend spec_perform
  perform-Shows (acquire_call d lock) t s h shown a =
      let (kept, same) =
        send-agrees (λ v. r.set_nx v lock.key lock.token lock.expiry) (grant r lock)
          (λ (done : Bool). done) (Shows r)
          (λ u v s' h' le shown'. grant-Shows lock u v s' h' le shown') d t s h shown a in
      (
        kept,
        elim (Fallible-cases (send (λ v. r.set_nx v lock.key lock.token lock.expiry) d s).1) [
          | inl (done, e) ↦ ground arith
          | inr (e', e) ↦ ground arith
        ],
      )
  perform-Shows (release_call d lock) t s h shown a =
      let (kept, same) =
        send-agrees (release_script r lock.key lock.token) (give_back r lock)
          (λ (n : ℕ). not (n == 0)) (Shows r)
          (λ u v s' h' le shown'. give_back-Shows lock u v s' h' le shown') d t s h shown a in
      (
        kept,
        elim (Fallible-cases (send (release_script r lock.key lock.token) d s).1) [
          | inl (n, e) ↦ ground arith
          | inr (e', e) ↦ ground arith
        ],
      )
  perform-Shows (extend_call d extension lock) t s h shown a =
      let ms = extension / 1000000 in
      let (kept, same) =
        send-agrees (extend_script r lock.key lock.token ms) (prolong r ms lock)
          (λ (n : ℕ). not (n == 0)) (Shows r)
          (λ u v s' h' le shown'. prolong-Shows lock u v s' h' le shown' ms) d t s h shown a in
      elim (Fallible-cases (send (extend_script r lock.key lock.token ms) d s).1) [
        | inl (n, e) ↦ ground arith
        | inr (e', e) ↦ ground arith
      ]

  run_calls-Shows :
      (calls : List LockCall) (t : ℕ) (s : r.Server) (h : Holdings)
      → Shows r t s h
      → Ascends t (call_times calls)
      → Shows r (last_time t (call_times calls)) (run_calls r calls s).0 (spec_run r calls h).0
        × ((run_calls r calls s).1 ≡ (spec_run r calls h).1)
  unfolding run_calls spec_run
  run_calls-Shows [] t s h shown a = (shown, refl)
  run_calls-Shows (c ∷ calls) t s h shown a =
      let first = times (delivery c) in
      let later = call_times calls in
      let (a1, a2) = Ascends-append t first later a in
      let (shown', same) = perform-Shows c t s h shown a1 in
      let (kept, rest) =
        run_calls-Shows calls (last_time t first) (perform r c s).0 (spec_perform r c h).0 shown'
          a2 in
      ((λ u j le. kept u j (omega (arith, last_time-append t first later, le))), cc)

-- The locks refine a table of holdings. If the server shows at time t and later what a table of
-- tokens with deadlines says, then whatever calls of lock objects follow, with whatever keys,
-- tokens, network failures and repetitions: each returns what it returns against the table (where a
-- key that nobody holds is granted, and only the holder gives it back or moves its deadline), and
-- the server shows the final table at every later time.
pub run_calls-refines :
    (r : Redis) (laws : IsLawful r) (calls : List LockCall) (t u : ℕ) (j : String) (s : r.Server)
    (h : Holdings)
    → Shows r t s h
    → Ascends t (call_times calls)
    → last_time t (call_times calls) ≤ u
    → ((run_calls r calls s).1 ≡ (spec_run r calls h).1)
      × (r.get (run_calls r calls s).0 u j ≡ holder r ((spec_run r calls h).0 j) u)
run_calls-refines r laws calls t u j s h shown a le =
    let (kept, same) = run_calls-Shows r laws calls t s h shown a in (same, kept u j le)
