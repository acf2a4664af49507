-- ===== src/Cache/Example.antt =====
-- cache/example/main.go. The user is a value with its JSON, `show` is `%+v` of a destination, and each
-- call has its delivery. The deferred `Close` only ends the connection.
use huba.Common.{◌*◌, String, ◌<>◌, Option, none, some}
use huba.Common.Script.{Script, ◌>>=◌, ◌>>◌, print, fatal, call, call2, show_bool}
use huba.Cache.Redis.{Redis, Delivery, CacheError, key_not_found}
use huba.Cache.Store.{Dest, typed, Json, get, set, delete, exists}
use huba.Cache.Client.{RedisConfig, connect, second, error_text, must}

-- How the five calls of the program go.
pub record Deliveries : Type 0 where
  pub set_call : Delivery
  pub get_call : Delivery
  pub exists_call : Delivery
  pub delete_call : Delivery
  pub exists_again : Delivery

module _ (r : Redis) (json : Json) (show : Dest json.Value json.Target → String) where
  -- What is printed after `Get`. A missing user is no reason to stop.
  unfoldable pub report_get :
      Dest json.Value json.Target → Option CacheError → Script r.Server (Unit {0})
  report_get dest none = print ("Retrieved user from cache: " <> show dest)
  report_get dest (some key_not_found) = print "User not found in cache"
  report_get dest (some e) = fatal ("Failed to get user from cache: " <> error_text e)

  unfoldable pub main :
      (RedisConfig → Option String)
      → Deliveries
      → String
      → json.Value
      → json.Target
      → Script r.Server (Unit {0})
  unfolding report_get
  main ping d id user blank = do
    client ← connect ping
    let key = "user:" <> id
    e ← call (set r json d.set_call key user (3600 * second))
    must "Failed to cache user" e
    print "User cached successfully"
    (dest, e) ← call2 (get r json d.get_call key (typed blank))
    report_get dest e
    (found, e) ← call2 (exists r json d.exists_call key)
    must "Failed to check if key exists" e
    print ("User exists in cache: " <> show_bool found)
    e ← call (delete r json d.delete_call key)
    must "Failed to delete user from cache" e
    print "User deleted from cache"
    (found, e) ← call2 (exists r json d.exists_again key)
    must "Failed to check if key exists" e
    print ("User exists in cache after deletion: " <> show_bool found)
