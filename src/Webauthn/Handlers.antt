-- ===== src/Webauthn/Handlers.antt =====
-- webauthn/handlers.go. What net/http and encoding/json read from a request and write to a response
-- is a parameter; a handler returns the store and the response.
use huba.Common.{
  ℕ, String, ◌<>◌, not, Option, none, some, List, str_eq, if◌then◌else◌, Fallible, ok, err,
}
use huba.Webauthn.Service.{
  Relying, Users, begin_registration_for, finish_registration_for, begin_login_for,
  finish_login_for,
}

pub record Reply : Type 0 where
  pub status : ℕ
  pub body : String

-- `http.Error`, which ends the text with a line break.
abbrev pub http_error : String → ℕ → Reply
http_error text status = record { status = status; body = text <> "\n" }

-- The method and the query of a request, its JSON body as the handlers decode it, and how options
-- are encoded; the handlers drop the error of the encoder.
pub record Web (lib : Relying) : Type 0 where
  pub method : lib.Request → String
  pub query_username : lib.Request → String
  pub decode_registration : lib.Request → Fallible String (String × String)
  pub decode_login : lib.Request → Fallible String String
  pub encode_creation : lib.Creation → String
  pub encode_assertion : lib.Assertion → String

module _ (lib : Relying) (web : Web lib) where
  unfoldable pub begin_registration_handler :
      Option (List ℕ) → lib.Request → Users lib → Users lib × Reply
  begin_registration_handler uuid r users =
      if not (str_eq (web.method r) "POST")
      then (users, http_error "Method not allowed" 405)
      else elim (web.decode_registration r) [
        | err e ↦ (users, http_error "Invalid request" 400)
        | ok (username, display_name) ↦
            let (users', res) = begin_registration_for lib uuid username display_name users in
            elim res [
              | err e ↦ (users', http_error e 500)
              | ok (options, user) ↦
                  (users', record { status = 200; body = web.encode_creation options })
            ]
      ]

  unfoldable pub finish_registration_handler : lib.Request → Users lib → Users lib × Reply
  finish_registration_handler r users =
      if not (str_eq (web.method r) "POST")
      then (users, http_error "Method not allowed" 405)
      else if str_eq (web.query_username r) ""
      then (users, http_error "Username is required" 400)
      else (let (users', res) = finish_registration_for lib (web.query_username r) r users in
          elim res [
            | err e ↦ (users', http_error e 500)
            | ok done ↦ (users', record { status = 200; body = "{\"status\":\"ok\"}" })
          ])

  unfoldable pub begin_login_handler : lib.Request → Users lib → Users lib × Reply
  begin_login_handler r users =
      if not (str_eq (web.method r) "POST")
      then (users, http_error "Method not allowed" 405)
      else elim (web.decode_login r) [
        | err e ↦ (users, http_error "Invalid request" 400)
        | ok username ↦
            let (users', res) = begin_login_for lib username users in
            elim res [
              | err e ↦ (users', http_error e 500)
              | ok options ↦ (users', record { status = 200; body = web.encode_assertion options })
            ]
      ]

  unfoldable pub finish_login_handler : lib.Request → Users lib → Users lib × Reply
  finish_login_handler r users =
      if not (str_eq (web.method r) "POST")
      then (users, http_error "Method not allowed" 405)
      else if str_eq (web.query_username r) ""
      then (users, http_error "Username is required" 400)
      else (let (users', res) = finish_login_for lib (web.query_username r) r users in
          elim res [
            | err e ↦ (users', http_error e 500)
            | ok done ↦ (users', record { status = 200; body = "{\"status\":\"ok\"}" })
          ])

-- The routes of `RegisterHandlers`.
pub data Route : Type 0 where
  register_begin register_finish login_begin login_finish : Route

unfoldable pub route : String → Option Route
route path =
    if str_eq path "/webauthn/register/begin"
    then some register_begin
    else if str_eq path "/webauthn/register/finish"
    then some register_finish
    else if str_eq path "/webauthn/login/begin"
    then some login_begin
    else if str_eq path "/webauthn/login/finish"
    then some login_finish
    else none

module _ (lib : Relying) (web : Web lib) where
  unfoldable pub handle : Route → Option (List ℕ) → lib.Request → Users lib → Users lib × Reply
  handle register_begin uuid r users = begin_registration_handler lib web uuid r users
  handle register_finish uuid r users = finish_registration_handler lib web r users
  handle login_begin uuid r users = begin_login_handler lib web r users
  handle login_finish uuid r users = finish_login_handler lib web r users
