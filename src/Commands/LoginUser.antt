-- ===== src/Commands/LoginUser.antt =====
-- internal/application/command/login_user.go.
pub mod Credentials
use backend_golang_task.Prelude.{String, Bool, true, false, if◌then◌else◌}
use backend_golang_task.Errs.{
  Result, ok, err, Failure, new, kind_of, is_panic, Kind, not_found, unauthorized,
}
use backend_golang_task.User.{User}
use backend_golang_task.Ports.{PasswordHasher, TokenIssuer}
use backend_golang_task.Gorm.Engine.{Gorm}
use backend_golang_task.Gorm.Users.{find_by_email}

abbrev pub invalid_credentials : Failure
invalid_credentials = new unauthorized "auth.invalid_credentials" "invalid email or password"

abbrev is_not_found : Kind → Bool
is_not_found not_found = true
is_not_found _ = false

module _ (g : Gorm) (h : PasswordHasher) (t : TokenIssuer) where
  open g use {World}

  abbrev pub issued : User → Result String → Result (String × User)
  issued u (ok token) = ok (token, u)
  issued u (err e) = err e

  -- After the comparison of the passwords.
  abbrev pub compared : User → Result (Unit {0}) → Result (String × User)
  compared u (err e) = err invalid_credentials
  compared u (ok _) = issued u (t.issue u.id u.role)

  -- After the lookup.
  abbrev pub login_found : String → Result User → Result (String × User)
  login_found password (err e) = if is_not_found (kind_of e) then err invalid_credentials else err e
  login_found password (ok u) = compared u (h.compare u.password_hash password)

  unfoldable pub handle : String → String → World → Result (String × User) × World
  handle email password w =
      let (found, w') = find_by_email g email w in (login_found password found, w')
