-- ===== src/Oauth/Flow.antt =====
-- State tokens: how long they live, and that each is good for one callback.
use huba.Common.{
  ℕ, ◌+◌, String, ◌≡◌, ◌↔◌, inl, inr, true, false, ◌&&◌, arith, eq_iff, leb, str_eq, if◌then◌else◌,
  ok, Fallible-cases,
}
use huba.Common.Dict.{lookup-insert, lookup-erase}
use huba.Oauth.Sessions.{Cookie, save_session}
use huba.Oauth.Login.{
  Handler, http_error, redirect_with_cookie, lifetime, Google, GoogleUserInfo, new_google_oauth,
  login, is_valid, callback,
}

module _ (g : Google) where
  -- After a login with a fresh state token, that token is valid up to and at the end of its ten
  -- minutes and at no time afterwards; every other token is as valid as it was.
  login-is_valid :
      (state other : String) (now later : ℕ) (h : Handler)
      → let t = (login g (ok state) now h).0 in
        is_valid g other later t
        ≡ (if str_eq state other then leb later (now + lifetime) else is_valid g other later h)
  unfolding login is_valid
  login-is_valid state other now later h =
      ground (arith, lookup-insert state other (now + lifetime) h.state_store, eq_iff state other)

  -- A callback consumes the state token that it accepts: whatever becomes of the code exchange, any
  -- later callback with the same token is refused with 400 and changes nothing, while the other
  -- tokens stay as valid as they were. A refused callback changes nothing.
  pub callback_once :
      (state other auth_code later_code : String) (now later : ℕ) (h : Handler)
      → let t = (callback g state auth_code now h).0 in
        (if is_valid g state now h
          then callback g state later_code later t
            ≡ (t, http_error "Invalid or expired state token" 400)
          else callback g state auth_code now h
            ≡ (h, http_error "Invalid or expired state token" 400))
        × (is_valid g other later t ≡ (
            if is_valid g state now h && str_eq state other
            then false
            else is_valid g other later h))
  unfolding callback is_valid
  callback_once state other auth_code later_code now later h = ground (
    arith,
    lookup-erase state other h.state_store,
    lookup-erase state state h.state_store,
    eq_iff state other,
    eq_iff state state,
  )

  callback_with_cookie :
      (state auth_code path : String) (now : ℕ) (h : Handler) (c : Cookie)
      → (callback g state auth_code now h).1 ≡ redirect_with_cookie path c
      → (is_valid g state now h ≡ true)
        × (path ≡ "/")
        × ((token : g.Token) × (g.exchange (new_google_oauth h.config) auth_code ≡ ok token)
            × ((u : GoogleUserInfo) × (g.get_user_info token ≡ ok u)
                × (save_session g.marshal h.session_manager u.id u.email u.name ≡ ok c)))
  unfolding callback
  callback_with_cookie state auth_code path now h c e =
      elim (Fallible-cases (g.exchange (new_google_oauth h.config) auth_code)) [
        | inr (x, n) ↦ absurd (ground arith)
        | inl (token, n) ↦ elim (Fallible-cases (g.get_user_info token)) [
          | inr (x, k) ↦ absurd (ground arith)
          | inl (u, k) ↦ (ground arith, ground arith, (token, n, (u, k, ground arith)))
        ]
      ]

  callback_of_user :
      (state auth_code path : String) (now : ℕ) (h : Handler) (c : Cookie) (token : g.Token)
      (u : GoogleUserInfo)
      → is_valid g state now h ≡ true
      → path ≡ "/"
      → g.exchange (new_google_oauth h.config) auth_code ≡ ok token
      → g.get_user_info token ≡ ok u
      → save_session g.marshal h.session_manager u.id u.email u.name ≡ ok c
      → (callback g state auth_code now h).1 ≡ redirect_with_cookie path c
  unfolding callback
  callback_of_user state auth_code path now h c token u valid home n k saved = ground arith

  -- A callback sets a session cookie exactly where its state token is valid and its code is exchanged
  -- for a token that gives a user; the cookie is then the one that `SaveSession` makes for that user,
  -- and the answer leads to "/".
  pub callback_cookie :
      (state auth_code path : String) (now : ℕ) (h : Handler) (c : Cookie)
      → ((callback g state auth_code now h).1 ≡ redirect_with_cookie path c) ↔ (
          (is_valid g state now h ≡ true)
          × (path ≡ "/")
          × ((token : g.Token) × (g.exchange (new_google_oauth h.config) auth_code ≡ ok token)
              × ((u : GoogleUserInfo) × (g.get_user_info token ≡ ok u)
                  × (save_session g.marshal h.session_manager u.id u.email u.name ≡ ok c))))
  callback_cookie state auth_code path now h c = (
    callback_with_cookie state auth_code path now h c,
    λ (valid, home, (token, n, (u, k, saved))).
        callback_of_user state auth_code path now h c token u valid home n k saved,
  )
