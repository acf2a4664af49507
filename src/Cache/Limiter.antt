-- ===== src/Cache/Limiter.antt =====
-- The rate limiter of cache/patterns.go. Scores and windows are in nanoseconds, the client's clock in
-- seconds, the server's in milliseconds. A key of the limiter holds nothing but its sorted set.
pub mod Bursts
pub mod Quota
pub mod Bounds
mod Tests
use huba.Common.{
  ℕ, zero, suc, ◌+◌, ◌-◌, ◌*◌, ◌/◌, ◌%◌, ◌^◌, ◌≤◌, ◌<◌, String, ◌<>◌, ◌≡◌, refl, sym, ap, ◌∙◌, ◌≢◌,
  ◌↔◌, ◌⊎◌, inl, inr, Bool, true, false, not, ◌&&◌, ◌||◌, Option, none, some, List, [], ◌∷◌, ◌++◌,
  map, arith, eq_iff, eq_refl, ltb, leb, ◌==◌, str_eq, if◌then◌else◌, ltb→lt, lt→ltb, leb→le,
  ==_iff, tests, Bool-cases, Option-cases, is_some, length, get_elem?, set, erase_idx, take,
  replicate, All, length-append, length-set, length-replicate, length-erase_idx, Fallible, ok, err,
  ◌>>=◌, ◌>>◌, map_err, Fallible-cases,
}
use huba.Common.Int.{ℤ, pos, negsuc, sub_ℕ}
use huba.Cache.Redis.{Delivery, send, CacheError, rate_limit_exceeded, other}

-- Sorted sets of the server: how many members a key has at a time, and the score of each. A command
-- takes a score as a text, which the server reads; `number` is how Lua hands a number over. `random`
-- is what `math.random()` prints first in a script, and `rune_text` is Go's `string(n)`.
pub record SortedSets : Type 1 where
  pub Server : Type 0
  pub card : Server → ℕ → String → ℕ
  pub score : Server → ℕ → String → String → Option ℕ
  pub read : String → Option ℤ
  pub number : ℤ → String
  pub seconds : ℕ → String
  pub random : String
  pub rune_text : ℤ → String
  pub expired : ℕ → ℕ → Bool
  pub zrem_range : ℕ → String → String → Server → Server × Fallible String ℕ
  pub zadd : ℕ → String → ℕ → String → Server → Server
  pub expire : ℕ → String → ℕ → Server → Server × Fallible String ℕ

-- The scores from 0 to the bound go.
abbrev pub above : ℤ → Option ℕ → Option ℕ
above z none = none
above (pos b) (some n) = if leb n b then none else some n
above (negsuc b) (some n) = some n

abbrev pub is_ok : {A : Type 0} → Fallible String A → Bool
is_ok (ok a) = true
is_ok (err e) = false

-- The commands as Redis documents them. A server seeds the generator of random numbers anew, with
-- the same seed, for each execution of a script, so that `random` is one text.
pub record IsSortedSets (r : SortedSets) : Type 0 where
  pub read-number : (z : ℤ) → r.read (r.number z) ≡ some z
  -- U+FFFD, what Go makes of an integer that is no code point, is no number.
  pub read_replacement : r.read "�" ≡ none
  pub rune_text_invalid : (n : ℕ) → 0x10FFFF < n → r.rune_text (pos n) ≡ "�"
  pub zrem_range_unreadable :
      (t : ℕ) (key max : String) (s : r.Server)
      → r.read max ≡ none
      → is_ok (r.zrem_range t key max s).1 ≡ false
  pub zrem_range_ok :
      (t : ℕ) (key max : String) (z : ℤ) (s : r.Server)
      → r.read max ≡ some z
      → is_ok (r.zrem_range t key max s).1 ≡ true
  pub score-zrem_range :
      (t : ℕ) (key max name : String) (z : ℤ) (s : r.Server)
      → r.read max ≡ some z
      → r.score (r.zrem_range t key max s).0 t key name ≡ above z (r.score s t key name)
  pub card-zrem_range :
      (t u : ℕ) (key max : String) (s : r.Server)
      → t ≤ u
      → r.card (r.zrem_range t key max s).0 u key ≤ r.card s u key
  pub score-zadd :
      (t n : ℕ) (key name : String) (s : r.Server)
      → r.score (r.zadd t key n name s) t key name ≡ some n
  pub card-zadd :
      (t n : ℕ) (key name : String) (s : r.Server)
      → r.card (r.zadd t key n name s) t key
        ≡ (if is_some (r.score s t key name) then r.card s t key else r.card s t key + 1)
  -- EXPIRE wants whole seconds; then the key goes with its deadline.
  pub expire_ok :
      (t window : ℕ) (key : String) (s : r.Server)
      → window % 1000000000 ≡ 0
      → is_ok (r.expire t key window s).1 ≡ true
  pub card-expire :
      (t u window : ℕ) (key : String) (s : r.Server)
      → window % 1000000000 ≡ 0
      → 0 < window
      → t ≤ u
      → r.card (r.expire t key window s).0 u key
        ≡ (if r.expired (t + window / 1000000) u then 0 else r.card s t key)
  pub score-expire :
      (t u window : ℕ) (key name : String) (s : r.Server)
      → window % 1000000000 ≡ 0
      → 0 < window
      → t ≤ u
      → r.score (r.expire t key window s).0 u key name
        ≡ (if r.expired (t + window / 1000000) u then none else r.score s t key name)

-- The field `cache` is the server that is passed on.
pub record RateLimiter : Type 0 where
  pub window : ℕ
  pub max_requests : ℤ

unfoldable pub new_rate_limiter : ℕ → ℤ → RateLimiter
new_rate_limiter window max_requests = record { window = window; max_requests = max_requests }

-- `count < max`
abbrev pub below : ℕ → ℤ → Bool
below n (pos m) = ltb n m
below n (negsuc m) = false

module _ (r : SortedSets) where
  -- `now .. ":" .. math.random()`
  abbrev pub member : ℕ → String
  member now = r.seconds now <> ":" <> r.random

  -- The part of the script after the count.
  unfoldable pub admit : RateLimiter → String → ℕ → ℕ → r.Server → r.Server × Fallible String ℕ
  admit rl key now t s =
      if below (r.card s t key) rl.max_requests
      then (let (s', set) =
            r.expire t key rl.window (r.zadd t key (now * 1000000000) (member now) s) in
          elim set [ err e ↦ (s', err e) | ok n ↦ (s', ok 1) ])
      else (s, ok 0)

  -- The Lua script of `Allow`. An error of a command ends it, and what it has done stays.
  unfoldable pub script : RateLimiter → String → ℕ → ℕ → r.Server → r.Server × Fallible String ℕ
  script rl key now t s =
      let (s', removed) = r.zrem_range t key (r.number (sub_ℕ (now * 1000000000) rl.window)) s in
      elim removed [ err e ↦ (s', err e) | ok n ↦ admit rl key now t s' ]

  abbrev pub verdict : Fallible String (Fallible String ℕ) → Bool × Option CacheError
  verdict (err e) = (false, some (other e))
  verdict (ok (err e)) = (false, some (other e))
  verdict (ok (ok n)) = if not (n == 1) then (false, some rate_limit_exceeded) else (true, none)

  unfoldable pub allow :
      Delivery → String → ℕ → RateLimiter → r.Server → r.Server × Bool × Option CacheError
  allow d key now rl s =
      let (s', reply) = send (script rl ("ratelimit:" <> key) now) d s in
      let (allowed, e) = verdict reply in (s', allowed, e)

  -- `maxRequests - count` in an int64, and 0 where that is negative.
  abbrev pub remaining : ℤ → ℕ → ℕ
  remaining (pos m) count = m - count
  remaining (negsuc m) count = if leb (m + 1 + count) (2 ^ 63) then 0 else 2 ^ 64 - (m + 1 + count)

  unfoldable pub remaining_quota :
      Delivery → Delivery → String → ℕ → RateLimiter → r.Server → r.Server × ℕ × Option CacheError
  remaining_quota d_remove d_count key now rl s =
      let (s', removed) =
        send
          (λ t.
            r.zrem_range t ("ratelimit:" <> key) (r.rune_text (sub_ℕ now (rl.window / 1000000000))))
          d_remove s in
      elim removed [
        | err e ↦ (s', 0, some (other e))
        | ok (err e) ↦ (s', 0, some (other e))
        | ok (ok n) ↦
            let (s'', counted) = send (λ t s. (s, r.card s t ("ratelimit:" <> key))) d_count s' in
            elim counted [
              | err e ↦ (s'', 0, some (other e))
              | ok count ↦ (s'', remaining rl.max_requests count, none)
            ]
      ]
