-- ===== src/Webauthn/Tests.antt =====
-- The theorems of the ceremonies at concrete data.
use huba.Common.{true, str_eq, ℕ, ◌≡◌, refl, ◌⊎◌, none, some, [], ◌∷◌, ◌==◌, if◌then◌else◌, ok, err}
use huba.Common.Dict.{Dict, lookup}
use huba.Webauthn.Service.{User, Relying, finish_registration_for}
use huba.Webauthn.Handlers.{Web, register_begin, register_finish, handle, route}
use huba.Webauthn.Responses.{Leftover, handle_lem}
use huba.Webauthn.Ceremonies.{
  IsKeyed, begins_registration, finishes_registration, run, run-IsKeyed, finish_registration_once,
}

-- A library that accepts the response that equals the session number.
abbrev library : Relying
library = record {
  Credential = ℕ;
  Session = ℕ;
  Creation = ℕ;
  Assertion = ℕ;
  Request = ℕ;
  begin_registration = λ u. ok (1, 7);
  finish_registration = λ u s r. if r == s then ok r else err "no match";
  begin_login = λ u. ok (2, 8);
  finish_login = λ u s r. if r == s then ok r else err "no match";
}

abbrev bob : User ℕ ℕ
bob = record {
  id = [];
  name = "bob";
  display_name = "Bob";
  credentials = [];
  registration_session_data = some 7;
  authentication_session_data = none;
}

abbrev users : Dict (User ℕ ℕ)
users = ("bob", bob) ∷ []

nobody : IsKeyed library []
unfolding lookup
nobody k u l = cc

run-IsKeyed_example :
    IsKeyed library
      (run library (begins_registration none "bob" "Bob" ∷ finishes_registration "bob" 7 ∷ []) [])
run-IsKeyed_example =
    run-IsKeyed library (begins_registration none "bob" "Bob" ∷ finishes_registration "bob" 7 ∷ [])
      [] nobody

finish_registration_once_example :
    let (t, r) = finish_registration_for library "bob" 7 users in
    (r ≡ ok tt)
    × (lookup "bob" t
        ≡ some (record bob { credentials = 7 ∷ []; registration_session_data = none }))
    × (finish_registration_for library "bob" 7 t ≡ (t, err "no registration session data found"))
unfolding lookup
finish_registration_once_example =
    finish_registration_once library "bob" "bob" 7 7 bob 7 7 users refl refl refl refl

-- A library that refuses to begin, behind requests that are all the same.
abbrev refusing : Relying
refusing = record library { begin_registration = λ u. err "refused" }

abbrev web : Web refusing
web = record {
  method = λ r. "POST";
  query_username = λ r. "bob";
  decode_registration = λ r. ok ("bob", "Bob");
  decode_login = λ r. ok "bob";
  encode_creation = λ options. "{}";
  encode_assertion = λ options. "{}";
}

handle_lem_example :
    ((str_eq "POST" "POST" ≡ true)
      ⊎ (((handle refusing web register_begin none 6 []).1.status ≡ 405)
          × ((handle refusing web register_begin none 6 []).0 ≡ [])))
    × (((handle refusing web register_begin none 6 []).1.status ≡ 200)
        ⊎ ((handle refusing web register_begin none 6 []).0 ≡ [])
        ⊎ ((register_begin ≡ register_begin)
            × Leftover refusing web none [] (handle refusing web register_begin none 6 []).0))
handle_lem_example = handle_lem refusing web register_begin none 6 []

routes : route "/webauthn/register/finish" ≡ some register_finish
unfolding route
routes = refl
