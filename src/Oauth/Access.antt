-- ===== src/Oauth/Access.antt =====
-- Who the middleware lets through.
use huba.Common.{
  String, ◌≡◌, ◌≢◌, ◌↔◌, inl, inr, Option, none, some, [], arith, str_eq, if◌then◌else◌,
  Option-cases, Fallible, ok,
}
use Prim.Native.Char.{code}
use huba.Common.Dict.{Dict, lookup}
use huba.Oauth.Sessions.{
  UserInfo, AuthMiddleware, redirected, unauthorized, next, reject, user_of, require_auth,
  optional_auth, SessionManager, Cookie, save_session,
}

module _ (unmarshal : String → Option (Dict String)) where
  -- Both middlewares recognise the same users: `RequireAuth` hands a request on with a user exactly
  -- where `OptionalAuth` does, with the same one; where `OptionalAuth` has no user, `RequireAuth`
  -- answers by itself, with a redirect to the configured URL, if there is one, and 401 otherwise.
  pub require_auth-optional_auth :
      (m : AuthMiddleware) (cookie : Option String) (user : UserInfo)
      → ((require_auth unmarshal m cookie ≡ next (some user))
          ↔ (optional_auth unmarshal m cookie ≡ next (some user)))
        × ((optional_auth unmarshal m cookie ≡ next none)
            ↔ (require_auth unmarshal m cookie ≡ reject m))
        × (reject m
            ≡ (if str_eq m.redirect_url "" then unauthorized else redirected m.redirect_url))
  unfolding require_auth optional_auth
  require_auth-optional_auth m none user = ground arith
  require_auth-optional_auth m (some value) user = ground arith

-- The text holds no double quote.
abbrev pub Quoteless : String → Type 0
Quoteless String.[] = Unit
Quoteless (String.◌∷◌ c s) = (code c ≢ 34) × Quoteless s

-- `http.SetCookie` removes the double quotes of a cookie's value, and the parser of a request's
-- cookies takes off those around it; a JSON object without a double quote has no key. Then a
-- session that `SaveSession` has written is never accepted: whatever the user and the settings,
-- `RequireAuth` treats a request that brings the cookie back as one without a session.
pub save_session-require_auth :
    (marshal : Dict String → Fallible String String) (unmarshal : String → Option (Dict String))
    (transported : String → String) (sm : SessionManager) (m : AuthMiddleware)
    (id email name : String) (c : Cookie)
    → ((value : String) → Quoteless (transported value))
    → ((value : String) (session : Dict String)
        → Quoteless value
        → unmarshal value ≡ some session
        → session ≡ [])
    → save_session marshal sm id email name ≡ ok c
    → require_auth unmarshal m (some (transported c.value)) ≡ reject m
unfolding require_auth user_of lookup
save_session-require_auth marshal unmarshal transported sm m id email name c t u e =
    elim (Option-cases (unmarshal (transported c.value))) [
      | inl h ↦ ground arith
      | inr (session, h) ↦ ground (arith, u (transported c.value) session (t c.value) h)
    ]
