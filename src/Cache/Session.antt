-- ===== src/Cache/Session.antt =====
-- What the demonstration of the plain operations prints.
use huba.Common.{
  ap, ◌∙◌, ℕ, ◌+◌, ◌*◌, ◌≤◌, ◌<◌, String, ◌<>◌, ◌≡◌, refl, inr, true, false, Option, none, some,
  List, [], ◌∷◌, arith, eq_iff, ok, ltb,
}
use huba.Cache.Redis.{Redis, IsLawful, answered, repeat, send}
use huba.Cache.Store.{Dest, typed, Json, get, set, delete, exists}
use huba.Cache.Aside.{repeat-read, get-answered, set-stores}
use huba.Cache.Client.{RedisConfig, new_redis_cache, connect, local_config, second}
use huba.Cache.Example.{Deliveries, main}

module _ (r : Redis) (laws : IsLawful r) where
  exists-answered :
      (json : Json) (lost : List ℕ) (u : ℕ) (key : String) (s : r.Server)
      → exists r json (answered lost u) key s ≡ (s, ltb 0 (r.exists s u key), none)
  unfolding exists send
  exists-answered json lost u key s = rw (repeat-read (λ t s. r.exists s t key) lost s) refl

  -- Deleted is deleted, also where the command was executed more than once.
  delete-gone :
      (json : Json) (lost : List ℕ) (t u : ℕ) (key : String) (s : r.Server)
      → t ≤ u
      → r.get (delete r json (answered lost t) key s).0 u key ≡ none
  unfolding delete send
  delete-gone json lost t u key s le =
      ground (arith, laws.get-del t u key key (repeat (λ t. r.del t key) lost s), eq_iff key key)

  delete-succeeds :
      (json : Json) (lost : List ℕ) (t : ℕ) (key : String) (s : r.Server)
      → (delete r json (answered lost t) key s).1 ≡ none
  unfolding delete send
  delete-succeeds json lost t key s = refl

  -- The program, by what its calls do.
  main_of :
      (json : Json) (show : Dest json.Value json.Target → String)
      (ping : RedisConfig → Option String) (d : Deliveries) (id : String) (user : json.Value)
      (blank : json.Target) (back : Dest json.Value json.Target) (s cached left : r.Server)
      → ping local_config ≡ none
      → set r json d.set_call ("user:" <> id) user (3600 * second) s ≡ (cached, none)
      → get r json d.get_call ("user:" <> id) (typed blank) cached ≡ (cached, back, none)
      → exists r json d.exists_call ("user:" <> id) cached ≡ (cached, true, none)
      → delete r json d.delete_call ("user:" <> id) cached ≡ (left, none)
      → exists r json d.exists_again ("user:" <> id) left ≡ (left, false, none)
      → main r json show ping d id user blank s ≡ (
        left,
        "User cached successfully"
            ∷ ("Retrieved user from cache: " <> show back)
            ∷ "User exists in cache: true"
            ∷ "User deleted from cache"
            ∷ "User exists in cache after deletion: false"
            ∷ [],
        some tt,
      )
  unfolding main connect new_redis_cache
  main_of json show ping d id user blank back s cached left up e1 e2 e3 e4 e5 =
      rw (up, main, connect, new_redis_cache) (rw e1 (rw e2 (rw e3 (rw e4 (rw e5)))))

  -- The demonstration, at any state of the server: if the server answers every call, the commands are
  -- executed in the order of the program before the user expires, whatever answers were lost on the
  -- way, and the user's JSON is read back, then it prints that the user was cached, retrieved, as it
  -- was read back, is there, was deleted, and is not there any more; and from then on the key holds
  -- nothing.
  pub session_lem :
      (json : Json) (show : Dest json.Value json.Target → String)
      (ping : RedisConfig → Option String) (lost1 lost2 lost3 lost4 lost5 : List ℕ)
      (t1 t2 t3 t4 t5 : ℕ) (id text : String) (user : json.Value) (blank : json.Target)
      (back : Dest json.Value json.Target) (s : r.Server)
      → ping local_config ≡ none
      → json.marshal user ≡ ok text
      → json.unmarshal text (typed blank) ≡ (back, none)
      → t1 ≤ t2
      → t2 ≤ t3
      → t3 ≤ t4
      → t4 ≤ t5
      → t3 < t1 + r.millis (3600 * second)
      → let d : Deliveries = record {
        set_call = answered lost1 t1;
        get_call = answered lost2 t2;
        exists_call = answered lost3 t3;
        delete_call = answered lost4 t4;
        exists_again = answered lost5 t5;
      } in
        let outcome = main r json show ping d id user blank s in
        (outcome.1
          ≡ "User cached successfully"
            ∷ ("Retrieved user from cache: " <> show back)
            ∷ "User exists in cache: true"
            ∷ "User deleted from cache"
            ∷ "User exists in cache after deletion: false"
            ∷ [])
        × (outcome.2 ≡ some tt)
        × ((u : ℕ) → t4 ≤ u → r.get outcome.0 u ("user:" <> id) ≡ none)
  session_lem json show ping lost1 lost2 lost3 lost4 lost5 t1 t2 t3 t4 t5 id text user blank back s
        up written read le2 le3 le4 le5 lasts =
      let key = "user:" <> id in
      let d : Deliveries = record {
        set_call = answered lost1 t1;
        get_call = answered lost2 t2;
        exists_call = answered lost3 t3;
        delete_call = answered lost4 t4;
        exists_again = answered lost5 t5;
      } in
      let hour = 3600 * second in
      let cached = (set r json (answered lost1 t1) key user hour s).0 in
      let left = (delete r json (answered lost4 t4) key cached).0 in
      let (done, now) =
        set-stores r json laws key text user hour (λ k. ok user) refl written lost1 t1 t2 s le2
          (inr (omega arith)) in
      let (_, later) =
        set-stores r json laws key text user hour (λ k. ok user) refl written lost1 t1 t3 s
          (omega arith) (inr (omega arith)) in
      let e1 : set r json (answered lost1 t1) key user hour s ≡ (cached, none) = ground arith in
      let e2 : get r json (answered lost2 t2) key (typed blank) cached ≡ (cached, back, none) =
        ground (arith, get-answered r json lost2 t2 key (typed blank) cached) in
      let e3 : exists r json (answered lost3 t3) key cached ≡ (cached, true, none) =
        ground
          (arith, exists-answered json lost3 t3 key cached, laws.exists_result t3 key cached) in
      let e4 : delete r json (answered lost4 t4) key cached ≡ (left, none) =
        ground (arith, delete-succeeds json lost4 t4 key cached) in
      let e5 : exists r json (answered lost5 t5) key left ≡ (left, false, none) = ground (
        arith,
        exists-answered json lost5 t5 key left,
        laws.exists_result t5 key left,
        delete-gone json lost4 t4 t5 key cached le5,
      ) in
      let whole = main_of json show ping d id user blank back s cached left up e1 e2 e3 e4 e5 in
      (
        ap (λ (o : r.Server × List String × Option (Unit {0})). o.1) whole,
        ap (λ (o : r.Server × List String × Option (Unit {0})). o.2) whole,
        λ u le.
            ap (λ (o : r.Server × List String × Option (Unit {0})). r.get o.0 u key) whole
            ∙ delete-gone json lost4 t4 u key cached le,
      )
