-- ===== src/UserService/Laws.antt =====
-- Validation, writing and logging of the service.
use huba.Common.{
  ℕ, String, ◌≡◌, ◌≢◌, ◌↔◌, ◌⊎◌, Option, none, some, [], ◌∷◌, map, arith, eq_iff, length,
}
use huba.UserService.{
  User, ServiceError, invalid_user, info, failure, Database, Outcome, finish, reject, create_user,
  update_user, delete_user,
}

-- Two lines are logged, the second one as an error exactly if an error is returned.
abbrev pub IsLogged : {S : Type 0} → Outcome S → Type 0
IsLogged o =
    (length o.log ≡ 2)
    × ((map (λ line. line.0) o.log ≡ info ∷ info ∷ []) ↔ (o.error ≡ none))
    × ((map (λ line. line.0) o.log ≡ info ∷ failure ∷ []) ↔ (o.error ≢ none))

-- `ErrInvalidUser` is returned, and the database is as it was in state `s`.
abbrev pub IsRejected : {S : Type 0} → S → Outcome S → Type 0
IsRejected s o = (o.error ≡ some invalid_user) × (o.state ≡ s)

abbrev pub IsRefused : {S : Type 0} → S → Outcome S → Type 0
IsRefused s o = IsLogged o × IsRejected s o

-- The outcome is what a call of the database gave.
abbrev pub IsPassedOn : {S : Type 0} → S × Option ServiceError → Outcome S → Type 0
IsPassedOn answer o = (o.state ≡ answer.0) × (o.error ≡ answer.1)

-- An input is rejected where it is invalid, and only there; otherwise the call decides.
abbrev pub IsReported : {S : Type 0} → Type 0 → S → S × Option ServiceError → Outcome S → Type 0
IsReported Invalid s answer o =
    IsLogged o × ((Invalid × IsRejected s o) ⊎ ((¬ Invalid) × IsPassedOn answer o))

module _ (db : Database) where
  create_user-IsReported :
      (u : User) (now : ℕ) (s : db.State)
      → IsReported
          ((u.name ≡ "") ⊎ (u.email ≡ ""))
          s
          (db.insert_user (record u { created_at = now; updated_at = now }) s)
          (create_user db (some u) now s)
  unfolding create_user finish reject
  create_user-IsReported u now s = ground (arith, eq_iff u.name "", eq_iff u.email "")

  update_user-IsReported :
      (u : User) (now : ℕ) (s : db.State)
      → IsReported
          (u.id ≡ "")
          s
          (db.update_user (record u { updated_at = now }) s)
          (update_user db (some u) now s)
  unfolding update_user finish reject
  update_user-IsReported u now s = ground (arith, eq_iff u.id "")

  delete_user-IsReported :
      (id : String) (s : db.State)
      → IsReported (id ≡ "") s (db.delete_user id s) (delete_user db id s)
  unfolding delete_user finish reject
  delete_user-IsReported id s = ground (arith, eq_iff id "")

  nil-IsRefused :
      (now : ℕ) (s : db.State)
      → IsRefused s (create_user db none now s) × IsRefused s (update_user db none now s)
  unfolding create_user update_user reject
  nil-IsRefused now s = (ground arith, ground arith)

  -- Each of `CreateUser`, `UpdateUser` and `DeleteUser`, on every input, state and answer of the
  -- database, logs two lines, of which the second is an error line exactly if an error is returned. A
  -- nil user, a new one without a name or an email address, and an update or a deletion without an id
  -- are refused with `ErrInvalidUser`, and the database is left alone. Any other input is written: a
  -- new user with both timestamps set to the current time, an update with the update time set and the
  -- rest as given; the database is then as its call left it, and its error is returned unchanged.
  pub operations-IsReported :
      (u : User) (id : String) (now : ℕ) (s : db.State)
      → IsReported
          ((u.name ≡ "") ⊎ (u.email ≡ ""))
          s
          (db.insert_user (record u { created_at = now; updated_at = now }) s)
          (create_user db (some u) now s)
        × IsReported
            (u.id ≡ "")
            s
            (db.update_user (record u { updated_at = now }) s)
            (update_user db (some u) now s)
        × IsReported (id ≡ "") s (db.delete_user id s) (delete_user db id s)
        × IsRefused s (create_user db none now s)
        × IsRefused s (update_user db none now s)
  operations-IsReported u id now s =
      let (created, updated) = nil-IsRefused now s in
      (
        create_user-IsReported u now s,
        update_user-IsReported u now s,
        delete_user-IsReported id s,
        created,
        updated,
      )
