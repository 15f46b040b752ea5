-- ===== src/Gorm/Users/Reads.antt =====
-- What the lookups of internal/infrastructure/persistence/gormrepo/user_repo.go answer.
use backend_golang_task.Prelude.{ℕ, ◌≡◌, String, str_eq, ◌==◌, some, find?, arith}
use backend_golang_task.Errs.{ok}
use backend_golang_task.User.{User}
use backend_golang_task.Gorm.Models.{UserModel, users, get}
use backend_golang_task.Gorm.Engine.{Gorm, IsGorm}
use backend_golang_task.Gorm.Users.{user_to_domain, find_user, find_by_email}

module _ (g : Gorm) (laws : IsGorm g) where
  find_user-tables : (id : ℕ) (w : g.World) → g.tables (find_user g id w).1 ≡ g.tables w
  unfolding find_user
  find_user-tables id w = ground (arith, laws.first_law users (λ (m : UserModel). m.id == id) w)

  pub find_by_email-tables :
      (email : String) (w : g.World) → g.tables (find_by_email g email w).1 ≡ g.tables w
  unfolding find_by_email
  find_by_email-tables email w =
      ground (arith, laws.first_law users (λ (m : UserModel). str_eq m.email email) w)

  -- A lookup that succeeds has read the first row with the e-mail.
  pub find_by_email-row :
      (email : String) (w : g.World) {u : User} {w' : g.World}
      → find_by_email g email w ≡ (ok u, w')
      → (m : UserModel) × (find? (λ r. str_eq r.email email) (get users (g.tables w)) ≡ some m)
        × (u ≡ user_to_domain m)
  unfolding find_by_email
  find_by_email-row email w h =
      grind (arith, laws.first_law users (λ (m : UserModel). str_eq m.email email) w)

  find_user-row :
      (id : ℕ) (w : g.World) {u : User} {w' : g.World}
      → find_user g id w ≡ (ok u, w')
      → (m : UserModel) × (find? (λ r. r.id == id) (get users (g.tables w)) ≡ some m)
        × (u ≡ user_to_domain m)
  unfolding find_user
  find_user-row id w h = grind (arith, laws.first_law users (λ (m : UserModel). m.id == id) w)
