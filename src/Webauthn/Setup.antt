-- ===== src/Webauthn/Setup.antt =====
-- webauthn/service.go, store.go and user.go: `NewService` and `NewUserStore`, and the methods by which
-- the go-webauthn library reads a user. `make` is `webauthn.New`.
use huba.Common.{ℕ, String, List, [], ◌∷◌, Fallible, ok, err}
use huba.Common.Dict.{Dict}
use huba.Webauthn.Service.{User}

pub record RelyingConfig : Type 0 where
  pub rp_display_name : String
  pub rp_id : String
  pub rp_origins : List String

-- The library's object and the store.
pub record Service (Library Credential Session : Type 0) : Type 0 where
  pub web_authn : Library
  pub user_store : Dict (User Credential Session)

module _ {Credential Session : Type 0} where
  unfoldable pub new_user_store : Dict (User Credential Session)
  new_user_store = []

  unfoldable pub new_service :
      {Library : Type 0}
      → (RelyingConfig → Fallible String Library)
      → String
      → String
      → String
      → Fallible String (Service Library Credential Session)
  unfolding new_user_store
  new_service make rp_id rp_origin rp_display_name =
      elim (make (record {
        rp_display_name = rp_display_name;
        rp_id = rp_id;
        rp_origins = rp_origin ∷ [];
      })) [
        | err e ↦ err e
        | ok web_authn ↦ ok (record { web_authn = web_authn; user_store = new_user_store })
      ]

  unfoldable pub web_authn_id : User Credential Session → List ℕ
  web_authn_id u = u.id

  unfoldable pub web_authn_name : User Credential Session → String
  web_authn_name u = u.name

  unfoldable pub web_authn_display_name : User Credential Session → String
  web_authn_display_name u = u.display_name

  unfoldable pub web_authn_icon : User Credential Session → String
  web_authn_icon u = ""

  unfoldable pub web_authn_credentials : User Credential Session → List Credential
  web_authn_credentials u = u.credentials
