-- ===== src/User.antt =====
-- internal/domain/user/user.go: an account.
use Prim.Native.String.{find, len}
use backend_golang_task.Prelude.{
  ℕ, String, Bool, not, ◌||◌, ◌==◌, str_eq, leb, is_empty, if◌then◌else◌, [], ◌∷◌,
}
use backend_golang_task.Errs.{Result, ok, new, validation, ◌>>◌, fail_if}
use backend_golang_task.Shared.Event.{
  user_event, user_registered, AggregateRoot, no_events, record_events,
}

-- `type Role string`
abbrev role_customer : String
role_customer = "customer"

abbrev role_admin : String
role_admin = "admin"

abbrev is_valid_role : String → Bool
is_valid_role r = str_eq r role_customer || str_eq r role_admin

-- `strings.Contains`: `find` answers with a position past the end where there is none.
abbrev contains : String → String → Bool
contains s part = leb (find s part) (len s)

pub record User : Type 0 where
  pub root : AggregateRoot
  pub id : ℕ
  pub email : String
  pub password_hash : String
  pub full_name : String
  pub role : String
  pub created_at : ℕ

-- The assignment of `role` in the `if` chain of `NewUser`.
abbrev pub role_or_customer : String → String
role_or_customer role = if is_empty role then role_customer else role

-- The source leaves `createdAt` the zero time.
unfoldable pub new_user : String → String → String → String → Result User
new_user email password_hash full_name role = do
  fail_if (is_empty email) (new validation "user.email_required" "email is required")
  fail_if (not (contains email "@")) (new validation "user.email_invalid" "email must contain @")
  fail_if (is_empty password_hash)
      (new validation "user.password_required" "password hash is required")
  fail_if (not (is_empty role || is_valid_role role))
      (new validation "user.role_invalid" "role is not valid")
  ok (record {
    root = record_events (user_event (user_registered 0 email) ∷ []) no_events;
    id = 0;
    email = email;
    password_hash = password_hash;
    full_name = full_name;
    role = role_or_customer role;
    created_at = 0;
  })

abbrev pub reconstitute_user : ℕ → String → String → String → String → ℕ → User
reconstitute_user id email password_hash full_name role created_at = record {
  root = no_events;
  id = id;
  email = email;
  password_hash = password_hash;
  full_name = full_name;
  role = role;
  created_at = created_at;
}

abbrev pub update_profile : String → User → User
update_profile full_name u = record u { full_name = full_name }

abbrev is_admin : User → Bool
is_admin u = str_eq u.role role_admin

unfoldable pub assign_id : ℕ → User → User
assign_id id u = if u.id == 0 then record u { id = id } else u
