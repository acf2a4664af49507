-- ===== src/Oauth/Login.antt =====
-- oauth/google.go and the handlers of oauth/handlers.go. Parameters: the random token, the clock
-- (nanoseconds), the OAuth2 library and Google's answers.
use huba.Common.{
  Option, str_eq, ℕ, ◌+◌, ◌*◌, String, ◌<>◌, Bool, false, not, none, some, List, [], ◌∷◌, ltb,
  if◌then◌else◌, Fallible, ok, err, map_err,
}
use huba.Common.Dict.{Dict, lookup, insert, erase}
use huba.Oauth.Sessions.{SessionManager, Cookie, save_session, clear_session}

pub record GoogleOauthConfig : Type 0 where
  pub client_id : String
  pub client_secret : String
  pub redirect_url : String
  pub scopes : List String

pub record GoogleUserInfo : Type 0 where
  pub id : String
  pub email : String
  pub name : String

-- `NewGoogleOAuth`, without the endpoint, which is a constant of the library.
unfoldable pub new_google_oauth : GoogleOauthConfig → GoogleOauthConfig
new_google_oauth c = elim c.scopes [
  | [] ↦ record c {
    scopes =
        "https://www.googleapis.com/auth/userinfo.email"
        ∷ "https://www.googleapis.com/auth/userinfo.profile" ∷ [];
  }
  | s ∷ rest ↦ c
]

-- `StateStore` holds the expiry time of each state token.
pub record Handler : Type 0 where
  pub config : GoogleOauthConfig
  pub session_manager : SessionManager
  pub state_store : Dict ℕ

pub data Response : Type 0 where
  http_error : String → ℕ → Response
  redirect : String → Response
  redirect_with_cookie : String → Cookie → Response

abbrev pub minute : ℕ
minute = 60 * 1_000_000_000

abbrev pub lifetime : ℕ
lifetime = 10 * minute

-- What the handlers call: the login URL, the exchange of a code for a token, the user info that a
-- token gives, and `json.Marshal`. An error is its text.
pub record Google : Type 1 where
  pub Token : Type 0
  pub auth_code_url : GoogleOauthConfig → String → String
  pub exchange : GoogleOauthConfig → String → Fallible String Token
  pub get_user_info : Token → Fallible String GoogleUserInfo
  pub marshal : Dict String → Fallible String String

module _ (g : Google) where
  open g use {auth_code_url, exchange, get_user_info, marshal}

  -- `LoginHandler`, given what `GenerateStateToken` returns.
  unfoldable pub login : Fallible String String → ℕ → Handler → Handler × Response
  login (err e) now h = (h, http_error "Failed to generate state token" 500)
  login (ok state) now h = (
    record h { state_store = insert state (now + lifetime) h.state_store },
    redirect (auth_code_url (new_google_oauth h.config) state),
  )

  -- `HandleGoogleCallback`
  unfoldable pub handle_google_callback : GoogleOauthConfig → String → Fallible String g.Token
  handle_google_callback c auth_code =
      map_err (λ e. "code exchange failed: " <> e) (exchange c auth_code)

  save : Handler → Fallible String Cookie → Response
  save h (err e) = http_error ("Failed to save session: " <> e) 500
  save h (ok c) = redirect_with_cookie "/" c

  with_user : Handler → Fallible String GoogleUserInfo → Response
  unfolding save
  with_user h (err e) = http_error ("Failed to get user info: " <> e) 500
  with_user h (ok u) = save h (save_session marshal h.session_manager u.id u.email u.name)

  with_token : Handler → Fallible String g.Token → Response
  unfolding with_user
  with_token h (err e) = http_error ("Failed to exchange token: " <> e) 500
  with_token h (ok token) = with_user h (get_user_info token)

  -- The state token is known and not past its expiry time.
  unfoldable pub is_valid : String → ℕ → Handler → Bool
  is_valid state now h = elim (lookup state h.state_store) [
    | none ↦ false
    | some expiration_time ↦ not (ltb expiration_time now)
  ]

  -- `CallbackHandler`
  unfoldable pub callback : String → String → ℕ → Handler → Handler × Response
  unfolding with_token handle_google_callback
  callback state auth_code now h =
      if not (is_valid state now h)
      then (h, http_error "Invalid or expired state token" 400)
      else let c = new_google_oauth h.config in
        (
          record h { state_store = erase state h.state_store },
          with_token h (handle_google_callback c auth_code),
        )

-- `LogoutHandler` with the default session manager, which never fails.
unfoldable pub logout : Handler → Response
logout h = redirect_with_cookie "/" (clear_session h.session_manager)

unfoldable pub new_google_oauth_handler : GoogleOauthConfig → SessionManager → Handler
new_google_oauth_handler config session_manager = record {
  config = config;
  session_manager = session_manager;
  state_store = [];
}

-- The routes of `RegisterHandlers`.
pub data Route : Type 0 where
  login_route callback_route logout_route : Route

unfoldable pub route_of : String → Option Route
route_of path =
    if str_eq path "/auth/google/login"
    then some login_route
    else if str_eq path "/auth/google/callback"
    then some callback_route
    else if str_eq path "/auth/logout"
    then some logout_route
    else none
