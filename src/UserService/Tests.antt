-- ===== src/UserService/Tests.antt =====
-- The theorems over a database that is a list of users, and that refuses updates with an error of the
-- package.
use huba.Common.{String, ◌≡◌, ◌⊎◌, none, some, List, [], ◌∷◌, err}
use huba.UserService.{
  User, Database, user_not_found, invalid_user, create_user, update_user, delete_user,
}
use huba.UserService.Laws.{IsReported, IsRefused, operations-IsReported}

abbrev memory : Database
memory = record {
  State = List User;
  query_user = λ id s. err user_not_found;
  insert_user = λ u s. (u ∷ s, none);
  update_user = λ u s. (s, some invalid_user);
  delete_user = λ id s. ([], none);
}

abbrev ann : User
ann = record { id = "1"; name = "Ann"; email = "ann@example.org"; created_at = 0; updated_at = 0 }

operations-IsReported_example :
    IsReported
      ((ann.name ≡ "") ⊎ (ann.email ≡ ""))
      []
      (memory.insert_user (record ann { created_at = 5; updated_at = 5 }) [])
      (create_user memory (some ann) 5 [])
    × IsReported
        (ann.id ≡ "")
        []
        (memory.update_user (record ann { updated_at = 5 }) [])
        (update_user memory (some ann) 5 [])
    × IsReported (◌≡◌ {A = String} "" "") [] (memory.delete_user "" []) (delete_user memory "" [])
    × IsRefused [] (create_user memory none 5 [])
    × IsRefused [] (update_user memory none 5 [])
operations-IsReported_example = operations-IsReported memory ann "" 5 []
