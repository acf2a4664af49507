-- ===== src/UserService.antt =====
-- unittest/userservice/user_service.go. The database and the clock are parameters; the log is the
-- list of the lines written, oldest first.
pub mod Laws
mod Tests
use huba.Common.{
  ℕ, zero, suc, ◌+◌, ◌-◌, ◌*◌, ◌/◌, ◌%◌, ◌^◌, ◌≤◌, ◌<◌, String, ◌<>◌, ◌≡◌, refl, sym, ap, ◌∙◌, ◌≢◌,
  ◌↔◌, ◌⊎◌, inl, inr, Bool, true, false, not, ◌&&◌, ◌||◌, Option, none, some, List, [], ◌∷◌, ◌++◌,
  map, arith, eq_iff, eq_refl, ltb, leb, ◌==◌, str_eq, if◌then◌else◌, ltb→lt, lt→ltb, leb→le,
  ==_iff, tests, Bool-cases, Option-cases, is_some, length, get_elem?, set, erase_idx, take,
  replicate, All, length-append, length-set, length-replicate, length-erase_idx, Fallible, ok, err,
  ◌>>=◌, ◌>>◌, map_err, Fallible-cases,
}

pub record User : Type 0 where
  pub id : String
  pub name : String
  pub email : String
  pub created_at : ℕ
  pub updated_at : ℕ

-- The errors of the package, and any other. An error of the database is returned as it is, so that it
-- may be one of the package too.
pub data ServiceError : Type 0 where
  user_not_found invalid_user database_error : ServiceError
  other : String → ServiceError

pub data Level : Type 0 where
  info failure : Level

-- The `Database` interface: what each call answers, and the state that it leaves.
pub record Database : Type 1 where
  pub State : Type 0
  pub query_user : String → State → Fallible ServiceError User
  pub insert_user : User → State → State × Option ServiceError
  pub update_user : User → State → State × Option ServiceError
  pub delete_user : String → State → State × Option ServiceError

-- The outcome of an operation: the state of the database, the error (`none` is nil) and the log.
pub record Outcome (S : Type 0) : Type 0 where
  pub state : S
  pub error : Option ServiceError
  pub log : List (Level × String)

module _ (db : Database) where
  -- The end that the three writing operations share: the error of the database is logged and
  -- returned, or the success is logged.
  unfoldable pub finish :
      String → String → String → db.State × Option ServiceError → Outcome db.State
  finish begin failed done (s, none) = record {
    state = s;
    error = none;
    log = (info, begin) ∷ (info, done) ∷ [];
  }
  finish begin failed done (s, some e) = record {
    state = s;
    error = some e;
    log = (info, begin) ∷ (failure, failed) ∷ [];
  }

  unfoldable pub reject : String → String → db.State → Outcome db.State
  reject begin message s = record {
    state = s;
    error = some invalid_user;
    log = (info, begin) ∷ (failure, message) ∷ [];
  }

  unfoldable pub get_user : String → db.State → Fallible ServiceError User × List (Level × String)
  get_user id s =
      if str_eq id ""
      then (err invalid_user, (info, "Getting user") ∷ (failure, "Invalid user ID provided") ∷ [])
      else elim (db.query_user id s) [
        | err e ↦ (err e, (info, "Getting user") ∷ (failure, "Failed to get user") ∷ [])
        | ok u ↦ (ok u, (info, "Getting user") ∷ (info, "User retrieved successfully") ∷ [])
      ]

  -- `none` is a nil pointer.
  unfoldable pub create_user : Option User → ℕ → db.State → Outcome db.State
  create_user none now s = reject "Creating user" "Invalid user data provided" s
  create_user (some u) now s =
      if str_eq u.name "" || str_eq u.email ""
      then reject "Creating user" "Invalid user data provided" s
      else finish "Creating user" "Failed to create user" "User created successfully"
          (db.insert_user (record u { created_at = now; updated_at = now }) s)

  unfoldable pub update_user : Option User → ℕ → db.State → Outcome db.State
  update_user none now s = reject "Updating user" "Invalid user data provided" s
  update_user (some u) now s =
      if str_eq u.id ""
      then reject "Updating user" "Invalid user data provided" s
      else finish "Updating user" "Failed to update user" "User updated successfully"
          (db.update_user (record u { updated_at = now }) s)

  unfoldable pub delete_user : String → db.State → Outcome db.State
  delete_user id s =
      if str_eq id ""
      then reject "Deleting user" "Invalid user ID provided" s
      else finish "Deleting user" "Failed to delete user" "User deleted successfully"
          (db.delete_user id s)
