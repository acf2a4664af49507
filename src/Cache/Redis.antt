-- ===== src/Cache/Redis.antt =====
-- What the package cache uses of Redis and its client library: a server whose keys hold texts that
-- may expire, and calls that the network can lose. Times of the server are in milliseconds.
use huba.Common.{
  ℕ, ◌+◌, ◌≤◌, ◌<◌, String, ◌≡◌, Bool, true, false, not, Option, none, some, List, [], ◌∷◌, ◌++◌,
  ◌==◌, str_eq, if◌then◌else◌, is_some, Fallible, ok, err,
}

-- `get` tells what a key holds at a time if nothing else is done until then. `expired` compares a
-- deadline with the time, and `millis` is how the library sends an expiration.
pub record Redis : Type 1 where
  pub Server : Type 0
  pub expired : ℕ → ℕ → Bool
  pub millis : ℕ → ℕ
  pub get : Server → ℕ → String → Option String
  pub exists : Server → ℕ → String → ℕ
  pub set : ℕ → String → String → ℕ → Server → Server
  pub set_nx : ℕ → String → String → ℕ → Server → Server × Bool
  pub del : ℕ → String → Server → Server × ℕ
  pub pexpire : ℕ → String → ℕ → Server → Server × ℕ

module _ (r : Redis) where
  -- An expiration of 0 is none.
  abbrev pub deadline : ℕ → ℕ → Option ℕ
  deadline t ttl = if ttl == 0 then none else some (t + r.millis ttl)

  abbrev pub is_alive : Option ℕ → ℕ → Bool
  is_alive none u = true
  is_alive (some d) u = not (r.expired d u)

  abbrev pub until : Option ℕ → ℕ → Option String → Option String
  until d u o = if is_alive d u then o else none

-- The commands as Redis documents them, told by what `get` shows at all later times.
pub record IsLawful (r : Redis) : Type 0 where
  pub not_early : (d u : ℕ) → u < d → r.expired d u ≡ false
  pub gone : (d u : ℕ) → d < u → r.expired d u ≡ true
  pub millis_pos : (ttl : ℕ) → 0 < ttl → 0 < r.millis ttl
  pub exists_result :
      (t : ℕ) (k : String) (s : r.Server)
      → r.exists s t k ≡ (if is_some (r.get s t k) then 1 else 0)
  pub get-set :
      (t ttl u : ℕ) (k v j : String) (s : r.Server)
      → t ≤ u
      → r.get (r.set t k v ttl s) u j
        ≡ (if str_eq k j then until r (deadline r t ttl) u (some v) else r.get s u j)
  pub set_nx_result :
      (t ttl : ℕ) (k v : String) (s : r.Server)
      → (r.set_nx t k v ttl s).1 ≡ not (is_some (r.get s t k))
  pub get-set_nx :
      (t ttl u : ℕ) (k v j : String) (s : r.Server)
      → t ≤ u
      → r.get (r.set_nx t k v ttl s).0 u j ≡ (
          if is_some (r.get s t k)
          then r.get s u j
          else if str_eq k j
          then until r (deadline r t ttl) u (some v)
          else r.get s u j)
  pub del_result :
      (t : ℕ) (k : String) (s : r.Server)
      → (r.del t k s).1 ≡ (if is_some (r.get s t k) then 1 else 0)
  pub get-del :
      (t u : ℕ) (k j : String) (s : r.Server)
      → t ≤ u
      → r.get (r.del t k s).0 u j ≡ (if str_eq k j then none else r.get s u j)
  pub pexpire_result :
      (t ms : ℕ) (k : String) (s : r.Server)
      → (r.pexpire t k ms s).1 ≡ (if is_some (r.get s t k) then 1 else 0)
  -- A timeout that is not positive deletes the key.
  pub get-pexpire :
      (t ms u : ℕ) (k j : String) (s : r.Server)
      → t ≤ u
      → r.get (r.pexpire t k ms s).0 u j ≡ (
          if str_eq k j
          then if ms == 0 then none else until r (some (t + ms)) u (r.get s t k)
          else r.get s u j)

-- How a call over the network goes: the server executes it at some times without the answer coming
-- through, upon which the library sends it again, and then it is answered or given up.
pub data Delivery : Type 0 where
  answered : List ℕ → ℕ → Delivery
  failed : List ℕ → String → Delivery

abbrev pub times : Delivery → List ℕ
times (answered lost t) = lost ++ t ∷ []
times (failed lost e) = lost

module _ {S A : Type 0} (step : ℕ → S → S × A) where
  abbrev pub repeat : List ℕ → S → S
  repeat [] s = s
  repeat (t ∷ lost) s = repeat lost (step t s).0

  unfoldable pub send : Delivery → S → S × Fallible String A
  send (answered lost t) s = let (s', a) = step t (repeat lost s) in (s', ok a)
  send (failed lost e) s = (repeat lost s, err e)

-- The errors of the package; `other` are those of the network, of JSON and of loaders.
pub data CacheError : Type 0 where
  key_not_found lock_acquisition_failed lock_release_unauthorized rate_limit_exceeded : CacheError
  other : String → CacheError
