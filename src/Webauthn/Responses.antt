-- ===== src/Webauthn/Responses.antt =====
-- What the responses of the handlers say about the store.
use huba.Common.{
  ℕ, String, ◌≡◌, refl, ◌∙◌, ◌⊎◌, inl, inr, true, Option, none, List, arith, str_eq, Bool-cases,
  Option-cases, err, Fallible-cases,
}
use huba.Common.Dict.{lookup}
use huba.Webauthn.Service.{
  Relying, Users, new_user, get_user, put_user, get_or_create, begin_registration_for,
  begin_login_for,
}
use huba.Webauthn.Ceremonies.{failed_finish_unchanged}
use huba.Webauthn.Handlers.{
  Web, begin_registration_handler, finish_registration_handler, begin_login_handler,
  finish_login_handler, Route, register_begin, register_finish, login_begin, login_finish, handle,
}

module _ (lib : Relying) (web : Web lib) where
  -- A failed begin of a registration leaves the store, or a new user in it.
  abbrev pub Leftover : Option (List ℕ) → Users lib → Users lib → Type 0
  Leftover uuid users t =
      (name : String) × (display_name : String) × (lookup name users ≡ none)
      × (t ≡ put_user (new_user uuid name display_name) users)

  begin_registration_for-Leftover :
      (uuid : Option (List ℕ)) (name display_name : String) (users : Users lib) {e : String}
      → (begin_registration_for lib uuid name display_name users).1 ≡ err e
      → ((begin_registration_for lib uuid name display_name users).0 ≡ users)
        ⊎ Leftover uuid users (begin_registration_for lib uuid name display_name users).0
  unfolding begin_registration_for get_or_create get_user
  begin_registration_for-Leftover uuid name display_name users failed =
      elim (Option-cases (lookup name users)) [
        | inl absent ↦
            elim (Fallible-cases (lib.begin_registration (new_user uuid name display_name))) [
              | inl (both, q) ↦ absurd (ground arith)
              | inr (p, q) ↦ inr (name, display_name, absent, ground arith)
            ]
        | inr (u, found) ↦ elim (Fallible-cases (lib.begin_registration u)) [
          | inl (both, q) ↦ absurd (ground arith)
          | inr (p, q) ↦ inl (ground arith)
        ]
      ]

  begin_login_for-eq :
      (name : String) (users : Users lib) {e : String}
      → (begin_login_for lib name users).1 ≡ err e
      → (begin_login_for lib name users).0 ≡ users
  unfolding begin_login_for get_user
  begin_login_for-eq name users failed = ground arith

  -- A request to any of the four routes that is not a POST is answered by 405 and changes nothing.
  -- A response other than 200 means that the store is as it was, with one exception: a begin of a
  -- registration that fails for a name without a user leaves a new user under that name.
  pub handle_lem :
      (at : Route) (uuid : Option (List ℕ)) (r : lib.Request) (users : Users lib)
      → ((str_eq (web.method r) "POST" ≡ true)
          ⊎ (((handle lib web at uuid r users).1.status ≡ 405)
              × ((handle lib web at uuid r users).0 ≡ users)))
        × (((handle lib web at uuid r users).1.status ≡ 200)
            ⊎ ((handle lib web at uuid r users).0 ≡ users)
            ⊎ ((at ≡ register_begin) × Leftover uuid users (handle lib web at uuid r users).0))
  unfolding handle begin_registration_handler finish_registration_handler begin_login_handler
      finish_login_handler
  handle_lem register_begin uuid r users = (
    ground arith,
    elim (Bool-cases (str_eq (web.method r) "POST")) [
      | inr e ↦ inr (inl (ground arith))
      | inl e ↦ elim (Fallible-cases (web.decode_registration r)) [
        | inr (p, q) ↦ inr (inl (ground arith))
        | inl ((name, display_name), q) ↦
            elim (Fallible-cases (begin_registration_for lib uuid name display_name users).1) [
              | inl (both, res) ↦ inl (ground arith)
              | inr (p, res) ↦
                  let same : (begin_registration_handler lib web uuid r users).0
                      ≡ (begin_registration_for lib uuid name display_name users).0 =
                    ground arith in
                  elim (begin_registration_for-Leftover uuid name display_name users res) [
                    | inl kept ↦ inr (inl (same ∙ kept))
                    | inr (n, d, absent, left) ↦ inr (inr (refl, (n, d, absent, same ∙ left)))
                  ]
            ]
      ]
    ],
  )
  handle_lem register_finish uuid r users =
      ground (arith, failed_finish_unchanged lib (web.query_username r) r users)
  handle_lem login_begin uuid r users = (
    ground arith,
    elim (Bool-cases (str_eq (web.method r) "POST")) [
      | inr e ↦ inr (inl (ground arith))
      | inl e ↦ elim (Fallible-cases (web.decode_login r)) [
        | inr (p, q) ↦ inr (inl (ground arith))
        | inl (name, q) ↦ elim (Fallible-cases (begin_login_for lib name users).1) [
          | inl (both, res) ↦ inl (ground arith)
          | inr (p, res) ↦ inr (inl (ground (arith, begin_login_for-eq name users res)))
        ]
      ]
    ],
  )
  handle_lem login_finish uuid r users =
      ground (arith, failed_finish_unchanged lib (web.query_username r) r users)
