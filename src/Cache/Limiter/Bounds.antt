-- ===== src/Cache/Limiter/Bounds.antt =====
-- How many members the limiter keeps.
use huba.Common.{
  ℕ, suc, ◌*◌, ◌%◌, ◌≤◌, ◌<◌, String, ◌<>◌, ◌≡◌, inl, inr, List, [], ◌∷◌, ◌++◌, arith, Fallible,
  Fallible-cases,
}
use huba.Common.Int.{pos, sub_ℕ}
use huba.Cache.Redis.{Delivery, times}
use huba.Cache.Deliveries.{Ascends, last_time, send-keeps}
use huba.Cache.Lock.Calls.{Ascends-append, last_time-append}
use huba.Cache.Limiter.{SortedSets, IsSortedSets, RateLimiter, member, admit, script, allow}

-- Calls of `Allow` for one key, each with its delivery and the client's clock.
unfoldable pub allow_calls :
    (r : SortedSets) → RateLimiter → String → List (Delivery × ℕ) → r.Server → r.Server
allow_calls r rl key [] s = s
allow_calls r rl key ((d, now) ∷ calls) s = allow_calls r rl key calls (allow r d key now rl s).0

abbrev pub call_times : List (Delivery × ℕ) → List ℕ
call_times [] = []
call_times ((d, now) ∷ calls) = times d ++ call_times calls

module _ (r : SortedSets) (laws : IsSortedSets r) (window m : ℕ) (whole : window % 1000000000 ≡ 0)
    (positive : 0 < window) (key : String) where
  abbrev limiter : RateLimiter
  limiter = record { window = window; max_requests = pos m }

  abbrev Low : String → ℕ → r.Server → Type 0
  Low full t s = (u : ℕ) → t ≤ u → r.card s u full ≤ m

  admit-Low :
      (full : String) (now v : ℕ) (s : r.Server)
      → Low full v s
      → Low full v (admit r limiter full now v s).0
  unfolding admit
  admit-Low full now v s low u le =
      let added = r.zadd v full (now * 1000000000) (member r now) s in
      ground (
        arith,
        low v,
        low u,
        laws.card-expire v u window full added,
        laws.card-zadd v (now * 1000000000) full (member r now) s,
        laws.expire_ok v window full added,
      )

  script-Low :
      (full : String) (now t v : ℕ) (s : r.Server)
      → t ≤ v
      → Low full t s
      → Low full v (script r limiter full now v s).0
  unfolding script
  script-Low full now t v s le low u v-le =
      let max = r.number (sub_ℕ (now * 1000000000) window) in
      let trimmed = (r.zrem_range v full max s).0 in
      let kept : Low full v trimmed = λ u' le'.
        omega (arith, laws.card-zrem_range v u' full max s le', low u' (omega (arith, le, le'))) in
      elim (Fallible-cases (r.zrem_range v full max s).1) [
        | inl (n, e) ↦ ground (arith, admit-Low full now v trimmed kept u v-le)
        | inr (p, e) ↦ ground (arith, kept u v-le)
      ]

  allow-Low :
      (d : Delivery) (now t : ℕ) (s : r.Server)
      → Low ("ratelimit:" <> key) t s
      → Ascends t (times d)
      → Low ("ratelimit:" <> key) (last_time t (times d)) (allow r d key now limiter s).0
  unfolding allow
  allow-Low d now t s low a =
      let full = "ratelimit:" <> key in
      (send-keeps (script r limiter full now) (suc (last_time t (times d))) (Low full)
        (λ (res : Fallible String ℕ). Unit {0})
        (λ u v s' le lt low'. (script-Low full now u v s' le low', tt)) d t s low a (omega arith)).0

  allow_calls-Low :
      (calls : List (Delivery × ℕ)) (t : ℕ) (s : r.Server)
      → Low ("ratelimit:" <> key) t s
      → Ascends t (call_times calls)
      → Low
          ("ratelimit:" <> key)
          (last_time t (call_times calls))
          (allow_calls r limiter key calls s)
  unfolding allow_calls
  allow_calls-Low [] t s low a = low
  allow_calls-Low ((d, now) ∷ calls) t s low a =
      let (a1, a2) = Ascends-append t (times d) (call_times calls) a in
      rw (last_time-append t (times d) (call_times calls)) (
        allow_calls-Low calls (last_time t (times d)) (allow r d key now limiter s).0
          (allow-Low d now t s low a1) a2)

-- The limit bounds what is kept. For a limiter with limit m and a window of whole seconds, on a key
-- that has at most m members: whatever calls of `Allow` for the key follow at ascending server
-- times, with whatever clocks of the clients, network failures and repetitions, it has at most m
-- members at every later time.
pub members_bounded :
    (r : SortedSets) (laws : IsSortedSets r) (window m : ℕ) (key : String)
    (calls : List (Delivery × ℕ)) (t u : ℕ) (s : r.Server)
    → window % 1000000000 ≡ 0
    → 0 < window
    → ((v : ℕ) → t ≤ v → r.card s v ("ratelimit:" <> key) ≤ m)
    → Ascends t (call_times calls)
    → last_time t (call_times calls) ≤ u
    → r.card
        (allow_calls r (record { window = window; max_requests = pos m }) key calls s)
        u
        ("ratelimit:" <> key)
      ≤ m
members_bounded r laws window m key calls t u s whole positive low a le =
    allow_calls-Low r laws window m whole positive key calls t s low a u le
