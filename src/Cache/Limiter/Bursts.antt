-- ===== src/Cache/Limiter/Bursts.antt =====
-- Requests within one second.
use huba.Common.{
  ℕ, ◌+◌, ◌*◌, ◌%◌, ◌≤◌, ◌<◌, String, ◌<>◌, ◌≡◌, refl, ◌∙◌, ◌⊎◌, inl, inr, Bool, true, Option, none,
  some, List, [], ◌∷◌, arith, length, replicate, ok, Fallible-cases,
}
use huba.Common.Int.{pos, sub_ℕ}
use huba.Cache.Redis.{answered, send, CacheError}
use huba.Cache.Deliveries.{Ascends}
use huba.Cache.Limiter.{SortedSets, IsSortedSets, RateLimiter, above, member, admit, script, allow}

module _ (r : SortedSets) (laws : IsSortedSets r) (window m : ℕ) (whole : window % 1000000000 ≡ 0)
    (positive : 0 < window) (room : 1 < m) (key : String) (now : ℕ) where
  abbrev limiter : RateLimiter
  limiter = record { window = window; max_requests = pos m }

  -- The set is below the limit, and stays so when the member of this second is written.
  abbrev SpareAt : ℕ → r.Server → Type 0
  SpareAt u s =
      (r.card s u key < m)
      × ((r.score s u key (member r now) ≡ some (now * 1000000000)) ⊎ (r.card s u key + 1 < m))

  abbrev Spare : ℕ → r.Server → Type 0
  Spare t s = (u : ℕ) → t ≤ u → SpareAt u s

  above-now :
      (o : Option ℕ)
      → o ≡ some (now * 1000000000)
      → above (sub_ℕ (now * 1000000000) window) o ≡ some (now * 1000000000)
  above-now none h = cc
  above-now (some n) h = ground (arith, positive)

  zrem_range-SpareAt :
      (v : ℕ) (s : r.Server)
      → SpareAt v s
      → SpareAt v (r.zrem_range v key (r.number (sub_ℕ (now * 1000000000) window)) s).0
  zrem_range-SpareAt v s (low, spare) =
      let bound = sub_ℕ (now * 1000000000) window in
      let fewer = laws.card-zrem_range v v key (r.number bound) s (omega arith) in
      let kept =
        laws.score-zrem_range v key (r.number bound) (member r now) bound s
          (laws.read-number bound) in
      (
        omega (arith, fewer, low),
        elim spare [
          | inl old ↦ inl (kept ∙ above-now (r.score s v key (member r now)) old)
          | inr free ↦ inr (omega (arith, fewer, free))
        ],
      )

  admit-Spare :
      (v : ℕ) (s : r.Server)
      → SpareAt v s
      → Spare v (admit r limiter key now v s).0 × ((admit r limiter key now v s).1 ≡ ok 1)
  unfolding admit
  admit-Spare v s (low, spare) =
      let added = r.zadd v key (now * 1000000000) (member r now) s in
      (
        (λ u le. ground (
          arith,
          room,
          laws.card-expire v u window key added,
          laws.score-expire v u window key (member r now) added,
          laws.card-zadd v (now * 1000000000) key (member r now) s,
          laws.score-zadd v (now * 1000000000) key (member r now) s,
        )),
        ground (arith, laws.expire_ok v window key added),
      )

  script-admit :
      (v : ℕ) (s : r.Server)
      → script r limiter key now v s
        ≡ admit r limiter key now v
            (r.zrem_range v key (r.number (sub_ℕ (now * 1000000000) window)) s).0
  unfolding script
  script-admit v s =
      let bound = sub_ℕ (now * 1000000000) window in
      let done = laws.zrem_range_ok v key (r.number bound) bound s (laws.read-number bound) in
      elim (Fallible-cases (r.zrem_range v key (r.number bound) s).1) [
        | inl (n, e) ↦ ground arith
        | inr (p, e) ↦ absurd (ground arith)
      ]

  script-Spare :
      (t v : ℕ) (s : r.Server)
      → t ≤ v
      → Spare t s
      → Spare v (script r limiter key now v s).0 × ((script r limiter key now v s).1 ≡ ok 1)
  script-Spare t v s le spare =
      let bound = sub_ℕ (now * 1000000000) window in
      let s' = (r.zrem_range v key (r.number bound) s).0 in
      rw (script-admit v s) (admit-Spare v s' (zrem_range-SpareAt v s (spare v le)))

-- Calls of `Allow` for a key in one second, each answered at once at the given server time.
unfoldable pub allow_all :
    (r : SortedSets)
    → RateLimiter
    → String
    → ℕ
    → List ℕ
    → r.Server
    → List (Bool × Option CacheError)
allow_all r rl key now [] s = []
allow_all r rl key now (t ∷ ts) s =
    let (s', allowed, e) = allow r (answered [] t) key now rl s in
    (allowed, e) ∷ allow_all r rl key now ts s'

allow_all-Spare :
    (r : SortedSets) (laws : IsSortedSets r) (window m : ℕ) (whole : window % 1000000000 ≡ 0)
    (positive : 0 < window) (room : 1 < m) (key : String) (now t : ℕ) (s : r.Server) (ts : List ℕ)
    → Ascends t ts
    → Spare r laws window m whole positive room ("ratelimit:" <> key) now t s
    → allow_all r (record { window = window; max_requests = pos m }) key now ts s
      ≡ replicate (length ts) (true, none)
unfolding allow_all allow send
allow_all-Spare r laws window m whole positive room key now t s [] a spare = refl
allow_all-Spare r laws window m whole positive room key now t s (v ∷ ts) a spare =
    let (spare', one) =
      script-Spare r laws window m whole positive room ("ratelimit:" <> key) now t v s a.0 spare in
    let rest =
      allow_all-Spare r laws window m whole positive room key now v
        (script r (record { window = window; max_requests = pos m }) ("ratelimit:" <> key) now v
          s).0
        ts a.1 spare' in
    ground arith

-- The limit does not count within a second. For a limiter with a limit m above 1 and a window of
-- whole seconds: on a key with no requests yet, any number of calls of `Allow` in one and the same
-- second of the client's clock, answered at ascending server times, are all allowed. (A script's
-- first random number is the same in each execution, so that all requests of a second write the
-- same member.)
pub bursts_allowed :
    (r : SortedSets) (laws : IsSortedSets r) (window m : ℕ) (key : String) (now t : ℕ)
    (s : r.Server) (ts : List ℕ)
    → window % 1000000000 ≡ 0
    → 0 < window
    → 1 < m
    → ((u : ℕ) → t ≤ u → r.card s u ("ratelimit:" <> key) ≡ 0)
    → Ascends t ts
    → allow_all r (record { window = window; max_requests = pos m }) key now ts s
      ≡ replicate (length ts) (true, none)
bursts_allowed r laws window m key now t s ts whole positive room empty a =
    allow_all-Spare r laws window m whole positive room key now t s ts a
      (λ u le. (omega (arith, empty u le), inr (omega (arith, empty u le))))
