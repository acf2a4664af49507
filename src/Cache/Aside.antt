-- ===== src/Cache/Aside.antt =====
-- What `CacheAside` stores, it finds.
use huba.Common.{
  ℕ, ◌+◌, ◌≤◌, ◌<◌, String, ◌≡◌, refl, sym, ap, ◌∙◌, ◌⊎◌, inl, inr, Option, none, some, List, [],
  ◌∷◌, arith, eq_iff, Option-cases, Fallible, ok,
}
use huba.Cache.Redis.{Redis, IsLawful, Delivery, answered, repeat, send, CacheError}
use huba.Cache.Store.{
  Dest, any, typed, Json, decode, get, set, Loaded, hand_over, load, cache_aside,
}

-- Reading again changes nothing.
pub repeat-read :
    {S A : Type 0} (look : ℕ → S → A) (lost : List ℕ) (s : S)
    → repeat (λ t s. (s, look t s)) lost s ≡ s
repeat-read look [] s = refl
repeat-read look (t ∷ lost) s = repeat-read look lost s

module _ (r : Redis) (json : Json) where
  pub get-answered :
      (lost : List ℕ) (u : ℕ) (key : String) (dest : Dest json.Value json.Target) (s : r.Server)
      → get r json (answered lost u) key dest s
        ≡ (let (dest', e) = decode r json (ok (r.get s u key)) dest in (s, dest', e))
  unfolding get send
  get-answered lost u key dest s = rw (repeat-read (λ t s. r.get s t key) lost s)

  -- What a destination gets from a call that has loaded the value, with the error.
  abbrev pub delivered :
      json.Value
      → String
      → Dest json.Value json.Target
      → Dest json.Value json.Target × Option CacheError
  delivered value text (any old) = (any value, none)
  delivered value text (typed target) = decode r json (ok (some text)) (typed target)

  hand_over-delivered :
      (lost : List ℕ) (u : ℕ) (key text : String) (value : json.Value)
      (dest : Dest json.Value json.Target) (s : r.Server)
      → r.get s u key ≡ some text
      → ((hand_over r json (answered lost u) key value dest s).dest ≡ (delivered value text dest).0)
        × ((hand_over r json (answered lost u) key value dest s).error
            ≡ (delivered value text dest).1)
        × ((hand_over r json (answered lost u) key value dest s).loads ≡ key ∷ [])
        × ((hand_over r json (answered lost u) key value dest s).server ≡ s)
  unfolding hand_over
  hand_over-delivered lost u key text value (any old) s found = (refl, refl, refl, refl)
  hand_over-delivered lost u key text value (typed target) s found =
      ground (arith, get-answered lost u key (typed target) s)

  module _ (laws : IsLawful r) (key text : String) (value : json.Value) (expiry : ℕ)
      (loader : String → Fallible CacheError json.Value) (loaded : loader key ≡ ok value)
      (written : json.marshal value ≡ ok text) where
    pub set-stores :
        (lost : List ℕ) (t u : ℕ) (s : r.Server)
        → t ≤ u
        → (expiry ≡ 0) ⊎ (u < t + r.millis expiry)
        → ((set r json (answered lost t) key value expiry s).1 ≡ none)
          × (r.get (set r json (answered lost t) key value expiry s).0 u key ≡ some text)
    unfolding set send
    set-stores lost t u s le lasts =
        let before = repeat (λ t s. (r.set t key text expiry s, tt)) lost s in
        (
          ground arith,
          ground (
            arith,
            laws.get-set t expiry u key text key before,
            laws.not_early (t + r.millis expiry) u,
            eq_iff key key,
          ),
        )

    load-delivered :
        (lost lost' : List ℕ) (t v u : ℕ) (dest : Dest json.Value json.Target) (s : r.Server)
        → t ≤ v
        → v ≤ u
        → (expiry ≡ 0) ⊎ (u < t + r.millis expiry)
        → record {
          dest_eq :
              (load r json (answered lost t) (answered lost' v) key dest expiry loader s).dest
              ≡ (delivered value text dest).0;
          error_eq :
              (load r json (answered lost t) (answered lost' v) key dest expiry loader s).error
              ≡ (delivered value text dest).1;
          loads_eq :
              (load r json (answered lost t) (answered lost' v) key dest expiry loader s).loads
              ≡ key ∷ [];
          kept :
              r.get
                (load r json (answered lost t) (answered lost' v) key dest expiry loader s).server
                u
                key
              ≡ some text;
        }
    unfolding load
    load-delivered lost lost' t v u dest s le le' lasts =
        let s' = (set r json (answered lost t) key value expiry s).0 in
        let (done, now) = set-stores lost t v s le (ground (arith, lasts)) in
        let (done', later) = set-stores lost t u s (omega (arith, le, le')) lasts in
        let (d, e, l, k) = hand_over-delivered lost' v key text value dest s' now in ground arith

  cache_aside-miss :
      (lost : List ℕ) (t : ℕ) (d d' : Delivery) (key : String) (dest : Dest json.Value json.Target)
      (expiry : ℕ) (loader : String → Fallible CacheError json.Value) (s : r.Server)
      → r.get s t key ≡ none
      → cache_aside r json (answered lost t) d d' key dest expiry loader s
        ≡ load r json d d' key dest expiry loader s
  unfolding cache_aside
  cache_aside-miss lost t d d' key dest expiry loader s absent =
      ground (arith, get-answered lost t key dest s)

  cache_aside-hit :
      (lost : List ℕ) (t : ℕ) (d d' : Delivery) (key text : String)
      (dest : Dest json.Value json.Target) (expiry : ℕ)
      (loader : String → Fallible CacheError json.Value) (s : r.Server)
      → r.get s t key ≡ some text
      → cache_aside r json (answered lost t) d d' key dest expiry loader s ≡ record {
        server = s;
        dest = (decode r json (ok (some text)) dest).0;
        error = (decode r json (ok (some text)) dest).1;
        loads = [];
      }
  unfolding cache_aside
  cache_aside-hit lost t d d' key text dest expiry loader s found =
      elim (Option-cases (json.unmarshal text dest).1) [
        | inl e ↦ ground (arith, get-answered lost t key dest s)
        | inr (problem, e) ↦ ground (arith, get-answered lost t key dest s)
      ]

-- What `CacheAside` has stored, it finds. Where the key is missing, the loader gives a value that
-- marshals to a text, and all commands are answered: the loader is called once, with that key; a
-- destination of type *interface{} gets the loaded value itself and any other the decoded text,
-- with its error. Before the expiration, a second call for the key, with any loader and
-- destination, decodes the same text into its destination, returns the error of that, calls no
-- loader and changes nothing; the server may have changed in between where it still shows the key
-- as the first call left it.
pub cache_aside_twice :
    (r : Redis) (laws : IsLawful r) (json : Json) (lost1 lost2 lost3 lost4 : List ℕ)
    (t1 t2 t3 u : ℕ) (d d' : Delivery) (key text : String) (value : json.Value)
    (dest dest2 : Dest json.Value json.Target) (expiry expiry2 : ℕ)
    (loader loader2 : String → Fallible CacheError json.Value) (s s' : r.Server)
    (first : Loaded r json)
    → cache_aside r json
        (answered lost1 t1)
        (answered lost2 t2)
        (answered lost3 t3)
        key
        dest
        expiry
        loader
        s
      ≡ first
    → r.get s t1 key ≡ none
    → loader key ≡ ok value
    → json.marshal value ≡ ok text
    → t2 ≤ t3
    → t3 ≤ u
    → (expiry ≡ 0) ⊎ (u < t2 + r.millis expiry)
    → r.get s' u key ≡ r.get first.server u key
    → ((first.dest, first.error) ≡ delivered r json value text dest)
      × (first.loads ≡ key ∷ [])
      × (cache_aside r json (answered lost4 u) d d' key dest2 expiry2 loader2 s' ≡ record {
        server = s';
        dest = (decode r json (ok (some text)) dest2).0;
        error = (decode r json (ok (some text)) dest2).1;
        loads = [];
      })
cache_aside_twice r laws json lost1 lost2 lost3 lost4 t1 t2 t3 u d d' key text value dest dest2
      expiry expiry2 loader loader2 s s' first call absent loaded written le le' lasts same =
    let miss =
      cache_aside-miss r json lost1 t1 (answered lost2 t2) (answered lost3 t3) key dest expiry
        loader s absent in
    let parts =
      load-delivered r json laws key text value expiry loader loaded written lost2 lost3 t2 t3 u
        dest s le le' lasts in
    let kept : r.get first.server u key ≡ some text =
      ap (λ (l : Loaded r json). r.get l.server u key) (sym call ∙ miss) ∙ parts.kept in
    (
      ground arith,
      ground arith,
      cache_aside-hit r json lost4 u d d' key text dest2 expiry2 loader2 s' (same ∙ kept),
    )
