-- ===== src/Oauth/Sessions.antt =====
-- oauth/middleware.go and the session cookie of oauth/handlers.go. The cookie jar of the request
-- and `json.Unmarshal` are parameters: what `r.Cookie` returns, and what a cookie's value parses to.
use huba.Common.{
  String, Bool, not, Option, none, some, [], ◌∷◌, str_eq, if◌then◌else◌, Fallible, ok, ◌>>=◌,
}
use huba.Common.Dict.{Dict, lookup}
use huba.Common.Int.{ℤ, negsuc}

pub record UserInfo : Type 0 where
  pub id : String
  pub email : String
  pub name : String

pub record AuthMiddleware : Type 0 where
  pub cookie_name : String
  pub redirect_url : String

-- What the middleware does with a request: it answers by itself, or it calls the next handler with
-- the user that it has put into the request's context, if any.
pub data Passed : Type 0 where
  redirected : String → Passed
  unauthorized : Passed
  next : Option UserInfo → Passed

-- The user that the fields of a session name, where all three are there.
unfoldable pub user_of : Dict String → Option UserInfo
user_of session = elim (lookup "user_id" session) [
  | none ↦ none
  | some id ↦ elim (lookup "email" session) [
    | none ↦ none
    | some email ↦ elim (lookup "name" session) [
      | none ↦ none
      | some name ↦ some (record { id = id; email = email; name = name })
    ]
  ]
]

-- The answer to a request without a session: a redirect where a URL is set.
unfoldable pub reject : AuthMiddleware → Passed
reject m = if not (str_eq m.redirect_url "") then redirected m.redirect_url else unauthorized

module _ (unmarshal : String → Option (Dict String)) where
  -- `RequireAuth`, given the value of the cookie that the middleware is named for (`none`: there is
  -- no such cookie).
  unfoldable pub require_auth : AuthMiddleware → Option String → Passed
  unfolding reject
  require_auth m none = reject m
  require_auth m (some value) = elim (unmarshal value) [
    | none ↦ reject m
    | some session ↦ elim (user_of session) [ none ↦ reject m | some user ↦ next (some user) ]
  ]

  -- `OptionalAuth`
  unfoldable pub optional_auth : AuthMiddleware → Option String → Passed
  optional_auth m none = next none
  optional_auth m (some value) = elim (unmarshal value) [
    | none ↦ next none
    | some session ↦ elim (user_of session) [ none ↦ next none | some user ↦ next (some user) ]
  ]

-- `DefaultSessionManager`
pub record SessionManager : Type 0 where
  pub cookie_name : String
  pub cookie_domain : String
  pub cookie_path : String
  pub cookie_max_age : ℤ
  pub secure_cookie : Bool
  pub http_only : Bool

pub record Cookie : Type 0 where
  pub name : String
  pub value : String
  pub domain : String
  pub path : String
  pub max_age : ℤ
  pub secure : Bool
  pub http_only : Bool

unfoldable pub session_cookie : SessionManager → String → ℤ → Cookie
session_cookie sm value max_age = record {
  name = sm.cookie_name;
  value = value;
  domain = sm.cookie_domain;
  path = sm.cookie_path;
  max_age = max_age;
  secure = sm.secure_cookie;
  http_only = sm.http_only;
}

unfoldable pub session_data : String → String → String → Dict String
session_data id email name = ("user_id", id) ∷ ("email", email) ∷ ("name", name) ∷ []

-- `SaveSession`; `marshal` is `json.Marshal`.
unfoldable pub save_session :
    (Dict String → Fallible String String)
    → SessionManager
    → String
    → String
    → String
    → Fallible String Cookie
unfolding session_cookie session_data
save_session marshal sm id email name = do
  value ← marshal (session_data id email name)
  ok (session_cookie sm value sm.cookie_max_age)

-- `ClearSession`
unfoldable pub clear_session : SessionManager → Cookie
unfolding session_cookie
clear_session sm = session_cookie sm "" (negsuc 0)

-- The constructors.
unfoldable pub new_auth_middleware : String → String → AuthMiddleware
new_auth_middleware cookie_name redirect_url = record {
  cookie_name = cookie_name;
  redirect_url = redirect_url;
}

unfoldable pub new_default_session_manager :
    String → String → String → ℤ → Bool → Bool → SessionManager
new_default_session_manager cookie_name cookie_domain cookie_path max_age secure http_only =
    record {
      cookie_name = cookie_name;
      cookie_domain = cookie_domain;
      cookie_path = cookie_path;
      cookie_max_age = max_age;
      secure_cookie = secure;
      http_only = http_only;
    }

-- `GetUserFromContext` of the context with which a middleware calls the next handler.
unfoldable pub get_user_from_context : Passed → Option UserInfo
get_user_from_context (next user) = user
get_user_from_context p = none
