-- ===== src/Webauthn/Service.antt =====
-- webauthn/user.go, store.go and service.go. The store maps names to pointers: a change of a user
-- in place is a write to the entry through which the pointer was found. The go-webauthn library,
-- the random ids and the client's requests are parameters.
use huba.Common.{ℕ, String, Option, none, some, List, [], ◌∷◌, ◌++◌, take, Fallible, ok, err}
use huba.Common.Dict.{Dict, lookup, insert, erase}

pub record User (Credential Session : Type 0) : Type 0 where
  pub id : List ℕ
  pub name : String
  pub display_name : String
  pub credentials : List Credential
  pub registration_session_data : Option Session
  pub authentication_session_data : Option Session

-- The relying-party library: options and session data of a ceremony that begins, and the credential
-- or the error of one that ends.
pub record Relying : Type 1 where
  pub Credential : Type 0
  pub Session : Type 0
  pub Creation : Type 0
  pub Assertion : Type 0
  pub Request : Type 0
  pub begin_registration : User Credential Session → Fallible String (Creation × Session)
  pub finish_registration : User Credential Session → Session → Request → Fallible String Credential
  pub begin_login : User Credential Session → Fallible String (Assertion × Session)
  pub finish_login : User Credential Session → Session → Request → Fallible String Credential

-- The first eight bytes of a random UUID, or the big-endian 1 where there is none.
unfoldable pub user_id : Option (List ℕ) → List ℕ
user_id none = 0 ∷ 0 ∷ 0 ∷ 0 ∷ 0 ∷ 0 ∷ 0 ∷ 1 ∷ []
user_id (some uid) = take 8 uid

module _ {Credential Session : Type 0} where
  unfoldable pub new_user : Option (List ℕ) → String → String → User Credential Session
  unfolding user_id
  new_user uuid name display_name = record {
    id = user_id uuid;
    name = name;
    display_name = display_name;
    credentials = [];
    registration_session_data = none;
    authentication_session_data = none;
  }

  unfoldable pub add_credential : Credential → User Credential Session → User Credential Session
  add_credential c u = record u { credentials = u.credentials ++ c ∷ [] }

  unfoldable pub get_user :
      String → Dict (User Credential Session) → Fallible String (User Credential Session)
  get_user username users = elim (lookup username users) [
    | none ↦ err "user not found"
    | some u ↦ ok u
  ]

  unfoldable pub put_user :
      User Credential Session → Dict (User Credential Session) → Dict (User Credential Session)
  put_user u users = insert u.name u users

  unfoldable pub delete_user :
      String → Dict (User Credential Session) → Dict (User Credential Session)
  delete_user username users = erase username users

module _ (lib : Relying) where
  open lib use {
    Credential, Session, Creation, Assertion, Request, begin_registration, finish_registration,
    begin_login, finish_login,
  }

  abbrev pub Users : Type 0
  Users = Dict (User Credential Session)

  -- The user to register, and the store that holds it.
  unfoldable pub get_or_create :
      Option (List ℕ) → String → String → Users → User Credential Session × Users
  get_or_create uuid username display_name users = elim (get_user username users) [
    | ok u ↦ (u, users)
    | err e ↦
        let u : User Credential Session = new_user uuid username display_name in
        (u, put_user u users)
  ]

  unfoldable pub begin_registration_for :
      Option (List ℕ)
      → String
      → String
      → Users
      → Users × Fallible String (Creation × User Credential Session)
  begin_registration_for uuid username display_name users =
      let (user, stored) = get_or_create uuid username display_name users in
      elim (begin_registration user) [
        | err e ↦ (stored, err e)
        | ok (options, session_data) ↦
            let marked : User Credential Session = record user {
              registration_session_data = some session_data;
            } in
            (insert username marked stored, ok (options, marked))
      ]

  -- `FinishRegistration` for a user with session data.
  unfoldable pub complete_registration :
      String
      → Request
      → User Credential Session
      → Session
      → Users
      → Users × Fallible String (Unit {0})
  complete_registration username response user session_data users =
      elim (finish_registration user session_data response) [
        | err e ↦ (users, err e)
        | ok credential ↦
            let registered : User Credential Session = record (add_credential credential user) {
              registration_session_data = none;
            } in
            (put_user registered (insert username registered users), ok tt)
      ]

  unfoldable pub finish_registration_for :
      String → Request → Users → Users × Fallible String (Unit {0})
  finish_registration_for username response users = elim (get_user username users) [
    | err e ↦ (users, err e)
    | ok user ↦ elim user.registration_session_data [
      | none ↦ (users, err "no registration session data found")
      | some session_data ↦ complete_registration username response user session_data users
    ]
  ]

  unfoldable pub begin_login_for : String → Users → Users × Fallible String Assertion
  begin_login_for username users = elim (get_user username users) [
    | err e ↦ (users, err e)
    | ok user ↦ elim (begin_login user) [
      | err e ↦ (users, err e)
      | ok (options, session_data) ↦
          let marked : User Credential Session = record user {
            authentication_session_data = some session_data;
          } in
          (put_user marked (insert username marked users), ok options)
    ]
  ]

  unfoldable pub complete_login :
      String
      → Request
      → User Credential Session
      → Session
      → Users
      → Users × Fallible String (Unit {0})
  complete_login username response user session_data users =
      elim (finish_login user session_data response) [
        | err e ↦ (users, err e)
        | ok credential ↦
            let cleared : User Credential Session = record user {
              authentication_session_data = none;
            } in
            (put_user cleared (insert username cleared users), ok tt)
      ]

  unfoldable pub finish_login_for : String → Request → Users → Users × Fallible String (Unit {0})
  finish_login_for username response users = elim (get_user username users) [
    | err e ↦ (users, err e)
    | ok user ↦ elim user.authentication_session_data [
      | none ↦ (users, err "no authentication session data found")
      | some session_data ↦ complete_login username response user session_data users
    ]
  ]
