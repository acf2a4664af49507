-- ===== src/Oauth/Tests.antt =====
-- The theorems of the login flow and the middleware at concrete data.
use huba.Oauth.Sessions.{new_auth_middleware, get_user_from_context, user_of}
use huba.Oauth.Login.{route_of, logout_route}
use huba.Common.{
  String, ◌≡◌, refl, ◌↔◌, Bool, true, false, ◌||◌, Option, none, some, [], ◌∷◌, arith, ◌==◌, str_eq,
  if◌then◌else◌, Fallible, ok, err,
}
use Prim.Native.Char.{code}
use huba.Common.Int.{pos}
use huba.Common.Dict.{Dict, lookup}
use huba.Oauth.Sessions.{
  UserInfo, AuthMiddleware, unauthorized, next, reject, require_auth, optional_auth, SessionManager,
  Cookie, session_cookie, session_data, save_session,
}
use huba.Oauth.Access.{require_auth-optional_auth, Quoteless, save_session-require_auth}
use huba.Oauth.Login.{
  Handler, http_error, redirect_with_cookie, new_google_oauth, Google, GoogleUserInfo, is_valid,
  callback,
}
use huba.Oauth.Userinfo.{Library, generate_state_token, get_google_user_info, google_of}
use huba.Oauth.Flow.{callback_once, callback_cookie}

abbrev manager : SessionManager
manager = record {
  cookie_name = "session";
  cookie_domain = "localhost";
  cookie_path = "/";
  cookie_max_age = pos 3600;
  secure_cookie = false;
  http_only = true;
}

abbrev handler : Handler
handler = record {
  config = record { client_id = "id"; client_secret = "secret"; redirect_url = "/cb"; scopes = [] };
  session_manager = manager;
  state_store = ("s", 100) ∷ [];
}

abbrev ann : GoogleUserInfo
ann = record { id = "1"; email = "ann@example.org"; name = "Ann" }

abbrev google : Google
google = record {
  Token = String;
  auth_code_url = λ c state. state;
  exchange = λ c auth_code. if str_eq auth_code "good" then ok auth_code else err "bad code";
  get_user_info = λ token. ok ann;
  marshal = λ session. ok "{}";
}

callback_once_example :
    let t = (callback google "s" "bad" 50 handler).0 in
    (callback google "s" "good" 60 t ≡ (t, http_error "Invalid or expired state token" 400))
    × (is_valid google "s" 60 t ≡ false)
unfolding is_valid lookup
callback_once_example = callback_once google "s" "s" "bad" "good" 50 60 handler

abbrev has_quote : String → Bool
has_quote String.[] = false
has_quote (String.◌∷◌ c s) = code c == 34 || has_quote s

abbrev without_quotes : String → String
without_quotes String.[] = ""
without_quotes (String.◌∷◌ c s) =
    if code c == 34 then without_quotes s else String.◌∷◌ c (without_quotes s)

-- A stand-in for the parser: only a text with quotes has keys.
abbrev parse : String → Option (Dict String)
parse value = if has_quote value then some (session_data "1" "ann@example.org" "Ann") else none

without_quotes-Quoteless : (value : String) → Quoteless (without_quotes value)
without_quotes-Quoteless String.[] = tt
without_quotes-Quoteless (String.◌∷◌ c s) = ground (arith, without_quotes-Quoteless s)

Quoteless-has_quote : (value : String) → Quoteless value → has_quote value ≡ false
Quoteless-has_quote String.[] h = refl
Quoteless-has_quote (String.◌∷◌ c s) h = ground (arith, Quoteless-has_quote s h.1)

parse-Quoteless :
    (value : String) (session : Dict String)
    → Quoteless value
    → parse value ≡ some session
    → session ≡ []
parse-Quoteless value session h e = absurd (ground (arith, Quoteless-has_quote value h))

abbrev guard : AuthMiddleware
guard = record { cookie_name = "session"; redirect_url = "" }

abbrev encode : Dict String → Fallible String String
encode session = ok "{\"email\":\"ann@example.org\",\"name\":\"Ann\",\"user_id\":\"1\"}"

abbrev saved : Cookie
saved =
    session_cookie manager "{\"email\":\"ann@example.org\",\"name\":\"Ann\",\"user_id\":\"1\"}"
      (pos 3600)

save_session-require_auth_example :
    require_auth parse guard (some (without_quotes saved.value)) ≡ reject guard
unfolding save_session session_data
save_session-require_auth_example =
    save_session-require_auth encode parse without_quotes manager guard "1" "ann@example.org" "Ann"
      saved without_quotes-Quoteless parse-Quoteless refl

abbrev ann_user : UserInfo
ann_user = record { id = "1"; email = "ann@example.org"; name = "Ann" }

require_auth-optional_auth_example :
    ((require_auth parse guard (some "\"") ≡ next (some ann_user))
      ↔ (optional_auth parse guard (some "\"") ≡ next (some ann_user)))
    × ((optional_auth parse guard (some "\"") ≡ next none)
        ↔ (require_auth parse guard (some "\"") ≡ reject guard))
    × (reject guard ≡ unauthorized)
require_auth-optional_auth_example = require_auth-optional_auth parse guard (some "\"") ann_user

-- A library whose HTTP client gives a body that cannot be read to its end.
abbrev broken_library : Library
broken_library = record {
  Token = String;
  Body = String;
  auth_code_url = λ c state. state;
  exchange = λ c auth_code. ok auth_code;
  client_get = λ token url. ok "half";
  read_all = λ body. err "unexpected EOF";
  marshal = λ session. ok "{}";
  unmarshal = λ bytes. ok ann;
}

broken_body :
    (callback (google_of broken_library) "s" "good" 50 handler).1
    ≡ http_error "Failed to get user info: failed reading response body: unexpected EOF" 500
unfolding callback is_valid lookup google_of get_google_user_info
broken_body = refl

no_randomness : generate_state_token (λ b. "") (err "no entropy") ≡ err "no entropy"
unfolding generate_state_token
no_randomness = refl

callback_cookie_example :
    ((callback google "s" "good" 50 handler).1
      ≡ redirect_with_cookie "/" (session_cookie manager "{}" (pos 3600)))
    ↔ ((is_valid google "s" 50 handler ≡ true)
        × (◌≡◌ {A = String} "/" "/")
        × ((token : google.Token) × (google.exchange (new_google_oauth handler.config) "good"
              ≡ ok token)
            × ((u : GoogleUserInfo) × (google.get_user_info token ≡ ok u)
                × (save_session google.marshal manager u.id u.email u.name
                    ≡ ok (session_cookie manager "{}" (pos 3600))))))
callback_cookie_example =
    callback_cookie google "s" "good" "/" 50 handler (session_cookie manager "{}" (pos 3600))

callback_served :
    (callback google "s" "good" 50 handler).1
    ≡ redirect_with_cookie "/" (session_cookie manager "{}" (pos 3600))
unfolding callback is_valid save_session lookup
callback_served = refl

-- The routes of the handler, and what a handler finds in the context that a middleware made.
routes : route_of "/auth/logout" ≡ some logout_route
unfolding route_of
routes = refl

in_context :
    get_user_from_context (optional_auth parse (new_auth_middleware "session" "") (some "\""))
    ≡ some ann_user
unfolding get_user_from_context optional_auth new_auth_middleware session_data user_of lookup
in_context = refl
