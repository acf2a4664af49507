-- ===== src/Oauth/Pages.antt =====
-- What a visitor of the demonstration gets to see.
use huba.Common.{String, ◌≡◌, ◌⊎◌, inl, inr, Option, none, some, arith, eq_iff, Option-cases}
use huba.Common.Dict.{Dict}
use huba.Oauth.Sessions.{UserInfo, require_auth, optional_auth, user_of, reject}
use huba.Oauth.Example.{sent_to, public_handler, dashboard_handler, home, dashboard}

-- Whatever cookie a request brings: either both pages recognise the same user, or the home page
-- greets a guest and the dashboard sends to the login page. The dashboard never panics.
pages_agree :
    (unmarshal : String → Option (Dict String)) (env : String → String) (cookie : Option String)
    → ((u : UserInfo) × (dashboard unmarshal env cookie ≡ dashboard_handler (some u))
        × (home unmarshal env cookie ≡ public_handler (some u)))
      ⊎ ((dashboard unmarshal env cookie ≡ sent_to "/auth/google/login")
          × (home unmarshal env cookie ≡ public_handler none))
unfolding dashboard home require_auth optional_auth reject
pages_agree unmarshal env none = inr (ground (arith, eq_iff "/auth/google/login" ""))
pages_agree unmarshal env (some value) = elim (Option-cases (unmarshal value)) [
  | inl e ↦ inr (ground (arith, eq_iff "/auth/google/login" ""))
  | inr (session, e) ↦ elim (Option-cases (user_of session)) [
    | inl n ↦ inr (ground (arith, eq_iff "/auth/google/login" ""))
    | inr (u, n) ↦ inl (u, ground arith, ground arith)
  ]
]
