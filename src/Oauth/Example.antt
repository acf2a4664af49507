-- ===== src/Oauth/Example.antt =====
-- oauth/example/main.go: the pages behind the middleware. `env` is the process's environment, and
-- `unmarshal` the parser of session cookies; a request brings the value of its session cookie.
use huba.Common.{String, ◌<>◌, Option, none, some, [], ◌∷◌, true}
use huba.Common.Int.{pos}
use huba.Common.Dict.{Dict}
use huba.Oauth.Sessions.{
  UserInfo, AuthMiddleware, Passed, redirected, unauthorized, next, require_auth, optional_auth,
  SessionManager, new_default_session_manager, new_auth_middleware,
}
use huba.Oauth.Login.{GoogleOauthConfig, Handler, new_google_oauth_handler}

-- The answer of a page; `panicked` where the handler panics.
pub data Page : Type 0 where
  body : String → Page
  sent_to : String → Page
  refused panicked : Page

-- What `ExampleSetup` makes of the environment.
unfoldable pub session_manager : (String → String) → SessionManager
unfolding new_default_session_manager
session_manager env =
    new_default_session_manager (env "SESSION_COOKIE_NAME") (env "COOKIE_DOMAIN")
      (env "COOKIE_PATH") (pos 86400) true true

unfoldable pub google_config : (String → String) → GoogleOauthConfig
google_config env = record {
  client_id = env "GOOGLE_CLIENT_ID";
  client_secret = env "GOOGLE_CLIENT_SECRET";
  redirect_url = env "GOOGLE_REDIRECT_URL";
  scopes =
      "https://www.googleapis.com/auth/userinfo.email"
      ∷ "https://www.googleapis.com/auth/userinfo.profile" ∷ [];
}

unfoldable pub google_handler : (String → String) → Handler
unfolding session_manager google_config new_google_oauth_handler
google_handler env = new_google_oauth_handler (google_config env) (session_manager env)

unfoldable pub auth_middleware : (String → String) → AuthMiddleware
unfolding new_auth_middleware
auth_middleware env = new_auth_middleware (env "SESSION_COOKIE_NAME") "/auth/google/login"

-- `publicHandler`, given what `GetUserFromContext` returns.
unfoldable pub public_handler : Option UserInfo → Page
public_handler (some user) = body (
    "Hello, " <> user.name <> "! You are logged in with email " <> user.email
    <> ".<br><a href=\"/dashboard\">Go to Dashboard</a><br><a href=\"/auth/logout\">Logout</a>")
public_handler none =
    body
      "Hello, Guest! You are not logged in.<br><a href=\"/auth/google/login\">Login with Google</a>"

-- `dashboardHandler`, which reads the user whether there is one or not.
unfoldable pub dashboard_handler : Option UserInfo → Page
dashboard_handler (some user) = body (
    "Welcome to your Dashboard, " <> user.name <> "!<br>Your email: " <> user.email
    <> "<br>Your ID: " <> user.id
    <> "<br><a href=\"/\">Go to Home</a><br><a href=\"/auth/logout\">Logout</a>")
dashboard_handler none = panicked

-- What a middleware does with a request, in front of a handler.
unfoldable pub serve : (Option UserInfo → Page) → Passed → Page
serve handler (redirected url) = sent_to url
serve handler unauthorized = refused
serve handler (next user) = handler user

module _ (unmarshal : String → Option (Dict String)) (env : String → String) where
  -- The routes "/" and "/dashboard".
  unfoldable pub home : Option String → Page
  unfolding auth_middleware serve public_handler
  home cookie = serve public_handler (optional_auth unmarshal (auth_middleware env) cookie)

  unfoldable pub dashboard : Option String → Page
  unfolding auth_middleware serve dashboard_handler
  dashboard cookie = serve dashboard_handler (require_auth unmarshal (auth_middleware env) cookie)
