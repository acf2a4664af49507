-- ===== src/Webauthn/Ceremonies.antt =====
-- What the registration and login ceremonies do to the user store.
use huba.Common.{
  ℕ, String, ◌≡◌, refl, ◌⊎◌, inl, inr, Option, none, some, List, [], ◌∷◌, ◌++◌, arith, eq_iff,
  str_eq, if◌then◌else◌, Option-cases, ok, err, Fallible-cases,
}
use huba.Common.Dict.{lookup, insert, lookup-insert, lookup-erase}
use huba.Webauthn.Service.{
  User, Relying, new_user, add_credential, get_user, put_user, delete_user, Users, get_or_create,
  begin_registration_for, complete_registration, finish_registration_for, begin_login_for,
  complete_login, finish_login_for,
}

module _ (lib : Relying) where
  open lib use {
    Credential, Session, Creation, Assertion, Request, begin_registration, finish_registration,
    begin_login, finish_login,
  }

  -- Every user stands in the store under the own name.
  abbrev pub IsKeyed : Users lib → Type 0
  IsKeyed users = (k : String) (u : User Credential Session) → lookup k users ≡ some u → u.name ≡ k

  -- The calls of the service.
  pub data Call : Type 0 where
    begins_registration : Option (List ℕ) → String → String → Call
    finishes_registration : String → Request → Call
    begins_login : String → Call
    finishes_login : String → Request → Call
    deletes : String → Call

  unfoldable pub step : Call → Users lib → Users lib
  step (begins_registration uuid username display_name) users =
      (begin_registration_for lib uuid username display_name users).0
  step (finishes_registration username response) users =
      (finish_registration_for lib username response users).0
  step (begins_login username) users = (begin_login_for lib username users).0
  step (finishes_login username response) users = (finish_login_for lib username response users).0
  step (deletes username) users = delete_user username users

  unfoldable pub run : List Call → Users lib → Users lib
  run [] users = users
  run (c ∷ rest) users = run rest (step c users)

  insert-IsKeyed :
      (name : String) (u : User Credential Session) (users : Users lib)
      → u.name ≡ name
      → IsKeyed users
      → IsKeyed (insert name u users)
  insert-IsKeyed name u users e h k v l =
      ground (arith, lookup-insert name k u users, eq_iff name k, h k v)

  put_user-IsKeyed :
      (u : User Credential Session) (users : Users lib) → IsKeyed users → IsKeyed (put_user u users)
  unfolding put_user
  put_user-IsKeyed u users h = insert-IsKeyed u.name u users refl h

  get_or_create-IsKeyed :
      (uuid : Option (List ℕ)) (username display_name : String) (users : Users lib)
      → IsKeyed users
      → ((get_or_create lib uuid username display_name users).0.name ≡ username)
        × IsKeyed (get_or_create lib uuid username display_name users).1
  unfolding get_or_create get_user new_user
  get_or_create-IsKeyed uuid username display_name users h =
      elim (Option-cases (lookup username users)) [
        | inl n ↦ rw (n, get_or_create, get_user) (refl, put_user-IsKeyed _ users h)
        | inr (u, n) ↦ rw (n, get_or_create, get_user) (h username u n, h)
      ]

  -- The user is written back twice: in place, and by `PutUser` under the user's name.
  write_back-IsKeyed :
      (name : String) (u : User Credential Session) (users : Users lib)
      → u.name ≡ name
      → IsKeyed users
      → IsKeyed (put_user u (insert name u users))
  write_back-IsKeyed name u users e h =
      put_user-IsKeyed u (insert name u users) (insert-IsKeyed name u users e h)

  begin_registration_for-IsKeyed :
      (uuid : Option (List ℕ)) (username display_name : String) (users : Users lib)
      → IsKeyed users
      → IsKeyed (begin_registration_for lib uuid username display_name users).0
  unfolding begin_registration_for
  begin_registration_for-IsKeyed uuid username display_name users h =
      let (n, k) = get_or_create-IsKeyed uuid username display_name users h in
      let u = (get_or_create lib uuid username display_name users).0 in
      elim (Fallible-cases (begin_registration u)) [
        | inl (r, e) ↦ rw (e, begin_registration_for) (insert-IsKeyed username _ _ n k)
        | inr (x, e) ↦ rw (e, begin_registration_for) k
      ]

  found-name :
      (username : String) (u : User Credential Session) (users : Users lib)
      → IsKeyed users
      → get_user username users ≡ ok u
      → u.name ≡ username
  unfolding get_user
  found-name username u users h e = h username u (ground arith)

  complete_registration-IsKeyed :
      (username : String) (response : Request) (u : User Credential Session) (s : Session)
      (users : Users lib)
      → u.name ≡ username
      → IsKeyed users
      → IsKeyed (complete_registration lib username response u s users).0
  unfolding complete_registration add_credential
  complete_registration-IsKeyed username response u s users n h =
      elim (Fallible-cases (finish_registration u s response)) [
        | inr (x, e) ↦ rw (e, complete_registration) h
        | inl (c, e) ↦ rw (e, complete_registration) (write_back-IsKeyed username _ users n h)
      ]

  finish_registration_for-IsKeyed :
      (username : String) (response : Request) (users : Users lib)
      → IsKeyed users
      → IsKeyed (finish_registration_for lib username response users).0
  unfolding finish_registration_for
  finish_registration_for-IsKeyed username response users h =
      elim (Fallible-cases (get_user username users)) [
        | inr (x, e) ↦ rw (e, finish_registration_for) h
        | inl (u, e) ↦ elim (Option-cases u.registration_session_data) [
          | inl n ↦ rw (e, finish_registration_for, n) h
          | inr (s, n) ↦
              rw (e, finish_registration_for, n)
                (complete_registration-IsKeyed username response u s users
                  (found-name username u users h e) h)
        ]
      ]

  begin_login_for-IsKeyed :
      (username : String) (users : Users lib)
      → IsKeyed users
      → IsKeyed (begin_login_for lib username users).0
  unfolding begin_login_for
  begin_login_for-IsKeyed username users h = elim (Fallible-cases (get_user username users)) [
    | inr (x, e) ↦ rw (e, begin_login_for) h
    | inl (u, e) ↦ elim (Fallible-cases (begin_login u)) [
      | inr (x, f) ↦ rw (e, begin_login_for, f) h
      | inl (r, f) ↦
          rw (e, begin_login_for, f)
            (write_back-IsKeyed username _ users (found-name username u users h e) h)
    ]
  ]

  complete_login-IsKeyed :
      (username : String) (response : Request) (u : User Credential Session) (s : Session)
      (users : Users lib)
      → u.name ≡ username
      → IsKeyed users
      → IsKeyed (complete_login lib username response u s users).0
  unfolding complete_login
  complete_login-IsKeyed username response u s users n h =
      elim (Fallible-cases (finish_login u s response)) [
        | inr (x, e) ↦ rw (e, complete_login) h
        | inl (c, e) ↦ rw (e, complete_login) (write_back-IsKeyed username _ users n h)
      ]

  finish_login_for-IsKeyed :
      (username : String) (response : Request) (users : Users lib)
      → IsKeyed users
      → IsKeyed (finish_login_for lib username response users).0
  unfolding finish_login_for
  finish_login_for-IsKeyed username response users h =
      elim (Fallible-cases (get_user username users)) [
        | inr (x, e) ↦ rw (e, finish_login_for) h
        | inl (u, e) ↦ elim (Option-cases u.authentication_session_data) [
          | inl n ↦ rw (e, finish_login_for, n) h
          | inr (s, n) ↦
              rw (e, finish_login_for, n)
                (complete_login-IsKeyed username response u s users
                  (found-name username u users h e) h)
        ]
      ]

  delete_user-IsKeyed :
      (username : String) (users : Users lib) → IsKeyed users → IsKeyed (delete_user username users)
  unfolding delete_user
  delete_user-IsKeyed username users h k v l =
      ground (arith, lookup-erase username k users, eq_iff username k, h k v)

  step-IsKeyed : (c : Call) (users : Users lib) → IsKeyed users → IsKeyed (step c users)
  unfolding step
  step-IsKeyed (begins_registration uuid username display_name) users h =
      begin_registration_for-IsKeyed uuid username display_name users h
  step-IsKeyed (finishes_registration username response) users h =
      finish_registration_for-IsKeyed username response users h
  step-IsKeyed (begins_login username) users h = begin_login_for-IsKeyed username users h
  step-IsKeyed (finishes_login username response) users h =
      finish_login_for-IsKeyed username response users h
  step-IsKeyed (deletes username) users h = delete_user-IsKeyed username users h

  -- After any calls of the service and of `DeleteUser`, every user stands in the store under the
  -- own name, if that was so before.
  pub run-IsKeyed :
      (calls : List Call) (users : Users lib) → IsKeyed users → IsKeyed (run calls users)
  unfolding run
  run-IsKeyed [] users h = h
  run-IsKeyed (c ∷ rest) users h = run-IsKeyed rest (step c users) (step-IsKeyed c users h)

  -- A registration that the library accepts adds the one credential to the user, clears the session
  -- data and touches no other user; finishing again, with any response, is then refused and
  -- changes nothing.
  pub finish_registration_once :
      (username other : String) (response again : Request) (u : User Credential Session)
      (s : Session) (c : Credential) (users : Users lib)
      → u.name ≡ username
      → lookup username users ≡ some u
      → u.registration_session_data ≡ some s
      → finish_registration u s response ≡ ok c
      → let (t, r) = finish_registration_for lib username response users in
        (r ≡ ok tt)
        × (lookup other t ≡ (
            if str_eq username other
            then some (record u {
              credentials = u.credentials ++ c ∷ [];
              registration_session_data = none;
            })
            else lookup other users))
        × (finish_registration_for lib username again t
            ≡ (t, err "no registration session data found"))
  unfolding finish_registration_for complete_registration get_user put_user add_credential
  finish_registration_once username other response again u s c users n l d f =
      let v : User Credential Session = record u {
        credentials = u.credentials ++ c ∷ [];
        registration_session_data = none;
      } in
      ground (
        arith,
        lookup-insert username other v users,
        lookup-insert u.name other v (insert username v users),
        lookup-insert username username v users,
        lookup-insert u.name username v (insert username v users),
        eq_iff username username,
        eq_iff username other,
      )

  -- `FinishRegistration` and `FinishLogin` succeed or leave the store as it was: after an error the
  -- session data are still there, so that the same ceremony can be finished again.
  pub failed_finish_unchanged :
      (username : String) (response : Request) (users : Users lib)
      → let (t, r) = finish_registration_for lib username response users in
        let (v, q) = finish_login_for lib username response users in
        ((r ≡ ok tt) ⊎ (t ≡ users)) × ((q ≡ ok tt) ⊎ (v ≡ users))
  unfolding finish_registration_for finish_login_for complete_registration complete_login
  failed_finish_unchanged username response users = (ground arith, ground arith)
