-- ===== src/Gorm/Users.antt =====
-- internal/infrastructure/persistence/gormrepo/user_repo.go.
pub mod Reads
use backend_golang_task.Prelude.{ℕ, String, str_eq, ◌==◌, Option, some, none}
use backend_golang_task.Errs.{new, not_found}
use backend_golang_task.Action.{Action, pure, raise, ◌>>=◌}
use backend_golang_task.User.{User, reconstitute_user, assign_id}
use backend_golang_task.Gorm.Models.{UserModel, users}
use backend_golang_task.Gorm.Engine.{Gorm}

-- `userToModel` leaves `CreatedAt` zero, also where the row is written again.
abbrev pub user_to_model : User → UserModel
user_to_model u = record {
  id = u.id;
  email = u.email;
  password_hash = u.password_hash;
  full_name = u.full_name;
  role = u.role;
  created_at = 0;
}

abbrev pub user_to_domain : UserModel → User
user_to_domain m = reconstitute_user m.id m.email m.password_hash m.full_name m.role m.created_at

module _ (g : Gorm) where
  open g use {World, create, save, first}

  -- The user with the id that it has got.
  unfoldable pub create_user : User → Action World User
  create_user u = do id ← create users (user_to_model u); pure (assign_id id u)

  unfoldable pub update_user : User → Action World (Unit {0})
  update_user u = save users (user_to_model u)

  abbrev found_user : Option UserModel → Action World User
  found_user none = raise (new not_found "user.not_found" "user not found")
  found_user (some m) = pure (user_to_domain m)

  unfoldable pub find_user : ℕ → Action World User
  find_user id = first users (λ m. m.id == id) >>= found_user

  unfoldable pub find_by_email : String → Action World User
  find_by_email email = first users (λ m. str_eq m.email email) >>= found_user
