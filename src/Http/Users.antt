-- ===== src/Http/Users.antt =====
-- internal/interfaces/http/handler/auth_handler.go and user_handler.go, with
-- internal/interfaces/http/dto/user_dto.go.
use backend_golang_task.Prelude.{ℕ, String, ◌==◌, if◌then◌else◌, Option, some, none}
use backend_golang_task.Errs.{Result, ok, err, new, validation, text}
use backend_golang_task.User.{User, role_or_customer}
use backend_golang_task.Ports.{PasswordHasher, TokenIssuer}
use backend_golang_task.Gorm.Engine.{Gorm}
use backend_golang_task.Queries.{get_user}
use backend_golang_task.Commands.RegisterUser.{RegisterUserInput}
use backend_golang_task.Commands.RegisterUser
use backend_golang_task.Commands.LoginUser
use backend_golang_task.Commands.UpdateUser
use backend_golang_task.Httpx.{
  Response, UserResponse, user_body, login_body, failure_response, ok_response, created_response,
  recovered, answer_with, at_id, with_body,
}

-- `LoginRequest` and `UpdateUserRequest`. The other two requests have the fields of the use case's
-- input.
pub record LoginRequest : Type 0 where
  pub email : String
  pub password : String

pub record UpdateUserRequest : Type 0 where
  pub full_name : String

abbrev pub new_user_response : User → UserResponse
new_user_response u = record { id = u.id; email = u.email; full_name = u.full_name; role = u.role }

-- `parseID`, of what `strconv.ParseUint` read.
unfoldable pub parse_id : Option ℕ → Result ℕ
parse_id none = err (new validation "request.invalid_id" "invalid resource id")
parse_id (some id) =
    if id == 0 then err (new validation "request.invalid_id" "invalid resource id") else ok id

-- A nil user would be dereferenced.
abbrev pub updated_user_response : Option User → Response
updated_user_response none = recovered
updated_user_response (some u) = ok_response (user_body (new_user_response u))

module _ (g : Gorm) where
  open g use {World}

  module _ (h : PasswordHasher) where
    abbrev pub registered : RegisterUserInput → World × h.State → Response × World × h.State
    registered inp (w, s) =
        let (r, w', s') = RegisterUser.handle g h inp (w, s) in
        elim r [
          | err e ↦ (failure_response e, w', s')
          | ok u ↦ (created_response (user_body (new_user_response u)), w', s')
        ]

    -- `Auth.Register`: the role is the customer's where the request has none.
    unfoldable pub register :
        Result RegisterUserInput → World × h.State → Response × World × h.State
    register (err e) (w, s) = (failure_response (new validation "request.invalid" (text e)), w, s)
    register (ok req) (w, s) = registered (record req { role = role_or_customer (req.role) }) (w, s)

    -- `User.Create`
    unfoldable pub create : Result RegisterUserInput → World × h.State → Response × World × h.State
    create (err e) (w, s) = (failure_response (new validation "request.invalid" (text e)), w, s)
    create (ok req) (w, s) = registered req (w, s)

    unfoldable pub login : TokenIssuer → Result LoginRequest → World → Response × World
    login t bound = with_body "request.invalid" bound λ req w.
        answer_with (λ (token, u). ok_response (login_body token (new_user_response u)))
          (LoginUser.handle g h t req.email req.password w)

  unfoldable pub get : Option ℕ → World → Response × World
  get param =
      at_id (parse_id param)
        λ id w. answer_with (λ u. ok_response (user_body (new_user_response u))) (get_user g id w)

  unfoldable pub update : Option ℕ → Result UpdateUserRequest → World → Response × World
  update param bound = at_id (parse_id param) λ id.
      with_body "request.invalid" bound
        λ req w. answer_with updated_user_response (UpdateUser.handle g id req.full_name w)
