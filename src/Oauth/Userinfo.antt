-- ===== src/Oauth/Userinfo.antt =====
-- The functions of oauth/google.go that the handlers call: the state token, the login URL, and the
-- user info that Google gives for an access token. Parameters: the OAuth2 library, the random
-- generator, base64, the HTTP client with the body that it returns, and `json.Unmarshal`.
use huba.Common.{ℕ, String, ◌<>◌, List, Fallible, ok, err, map_err, ◌>>=◌}
use huba.Common.Dict.{Dict}
use huba.Oauth.Login.{GoogleOauthConfig, GoogleUserInfo, Google}

-- `GenerateStateToken`, given what `rand.Read` does with the 32 bytes.
unfoldable pub generate_state_token :
    (List ℕ → String) → Fallible String (List ℕ) → Fallible String String
generate_state_token base64 (err e) = err e
generate_state_token base64 (ok b) = ok (base64 b)

-- What the functions call. A body is read to its end or fails.
pub record Library : Type 1 where
  pub Token : Type 0
  pub Body : Type 0
  pub auth_code_url : GoogleOauthConfig → String → String
  pub exchange : GoogleOauthConfig → String → Fallible String Token
  pub client_get : Token → String → Fallible String Body
  pub read_all : Body → Fallible String (List ℕ)
  pub marshal : Dict String → Fallible String String
  pub unmarshal : List ℕ → Fallible String GoogleUserInfo

abbrev userinfo_url : String
userinfo_url = "https://www.googleapis.com/oauth2/v2/userinfo"

module _ (l : Library) where
  -- `GetGoogleLoginURL`
  unfoldable pub get_google_login_url : GoogleOauthConfig → String → String
  get_google_login_url c state = l.auth_code_url c state

  -- `GetGoogleUserInfo`
  unfoldable pub get_google_user_info : l.Token → Fallible String GoogleUserInfo
  get_google_user_info token = do
    resp ← map_err (λ e. "failed getting user info: " <> e) (l.client_get token userinfo_url)
    data_read ← map_err (λ e. "failed reading response body: " <> e) (l.read_all resp)
    map_err (λ e. "failed parsing user info: " <> e) (l.unmarshal data_read)

  -- What the handlers call, with the functions of this file.
  unfoldable pub google_of : Google
  unfolding get_google_user_info get_google_login_url
  google_of = record {
    Token = l.Token;
    auth_code_url = get_google_login_url;
    exchange = l.exchange;
    get_user_info = get_google_user_info;
    marshal = l.marshal;
  }
