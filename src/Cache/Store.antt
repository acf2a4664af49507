-- ===== src/Cache/Store.antt =====
-- cache/redis.go and the cache-aside pattern of cache/patterns.go. `encoding/json` is a parameter.
use huba.Common.{
  ℕ, String, Bool, true, false, not, Option, none, some, List, [], ◌∷◌, ltb, if◌then◌else◌,
  Fallible, ok, err,
}
use huba.Cache.Redis.{Redis, Delivery, send, CacheError, key_not_found, other}

-- Where a result goes: a pointer to an interface, or to anything else.
pub data Dest (Value Target : Type 0) : Type 0 where
  any : Value → Dest Value Target
  typed : Target → Dest Value Target

-- `Marshal` of a value, and `Unmarshal` into a destination, which it may change although it fails.
pub record Json : Type 1 where
  pub Value : Type 0
  pub Target : Type 0
  pub marshal : Value → Fallible String String
  pub unmarshal : String → Dest Value Target → Dest Value Target × Option String

abbrev pub failure : Fallible String (Unit {0}) → Option CacheError
failure (ok done) = none
failure (err e) = some (other e)

module _ (r : Redis) (json : Json) where
  abbrev pub Into : Type 0
  Into = Dest json.Value json.Target

  -- What `Get` does with the reply.
  abbrev pub decode : Fallible String (Option String) → Into → Into × Option CacheError
  decode (err e) dest = (dest, some (other e))
  decode (ok none) dest = (dest, some key_not_found)
  decode (ok (some text)) dest =
      let (dest', e) = json.unmarshal text dest in
      (dest', elim e [ none ↦ none | some problem ↦ some (other problem) ])

  unfoldable pub get : Delivery → String → Into → r.Server → r.Server × Into × Option CacheError
  get d key dest s =
      let (s', reply) = send (λ t s. (s, r.get s t key)) d s in
      let (dest', e) = decode reply dest in (s', dest', e)

  unfoldable pub set : Delivery → String → json.Value → ℕ → r.Server → r.Server × Option CacheError
  set d key value expiration s = elim (json.marshal value) [
    | err e ↦ (s, some (other e))
    | ok text ↦
        let (s', reply) = send (λ t s. (r.set t key text expiration s, tt)) d s in
        (s', failure reply)
  ]

  -- The error of `Delete`.
  unfoldable pub delete : Delivery → String → r.Server → r.Server × Option CacheError
  delete d key s =
      let (s', reply) = send (λ t. r.del t key) d s in
      (s', elim reply [ ok n ↦ none | err e ↦ some (other e) ])

  unfoldable pub exists : Delivery → String → r.Server → r.Server × Bool × Option CacheError
  exists d key s =
      let (s', reply) = send (λ t s. (s, r.exists s t key)) d s in
      elim reply [ ok n ↦ (s', ltb 0 n, none) | err e ↦ (s', false, some (other e)) ]

  -- `err != ErrKeyNotFound`
  abbrev pub is_key_not_found : CacheError → Bool
  is_key_not_found key_not_found = true
  is_key_not_found e = false

  -- The server, the destination, the error, and the keys that the loader was called with.
  pub record Loaded : Type 0 where
    pub server : r.Server
    pub dest : Into
    pub error : Option CacheError
    pub loads : List String

  -- The end of `CacheAside`, after the data are stored.
  unfoldable pub hand_over : Delivery → String → json.Value → Into → r.Server → Loaded
  hand_over d key value (any old) s = record {
    server = s;
    dest = any value;
    error = none;
    loads = key ∷ [];
  }
  hand_over d key value (typed target) s =
      let (s', dest', e) = get d key (typed target) s in
      record { server = s'; dest = dest'; error = e; loads = key ∷ [] }

  -- `CacheAside` after a miss.
  unfoldable pub load :
      Delivery
      → Delivery
      → String
      → Into
      → ℕ
      → (String → Fallible CacheError json.Value)
      → r.Server
      → Loaded
  load d_set d_again key dest expiry loader s = elim (loader key) [
    | err e ↦ record { server = s; dest = dest; error = some e; loads = key ∷ [] }
    | ok value ↦
        let (s', e) = set d_set key value expiry s in
        elim e [
          | some problem ↦ record {
            server = s';
            dest = dest;
            error = some problem;
            loads = key ∷ [];
          }
          | none ↦ hand_over d_again key value dest s'
        ]
  ]

  unfoldable pub cache_aside :
      Delivery
      → Delivery
      → Delivery
      → String
      → Into
      → ℕ
      → (String → Fallible CacheError json.Value)
      → r.Server
      → Loaded
  cache_aside d_get d_set d_again key dest expiry loader s =
      let (s', dest', e) = get d_get key dest s in
      elim e [
        | none ↦ record { server = s'; dest = dest'; error = none; loads = [] }
        | some problem ↦
            if not (is_key_not_found problem)
            then record { server = s'; dest = dest'; error = some problem; loads = [] }
            else load d_set d_again key dest' expiry loader s'
      ]
