-- ===== src/Commands/Examples/Accounts.antt =====
-- The use cases of products and accounts on the sample database, with a hasher that counts its calls.
use backend_golang_task.Prelude.{ℕ, suc, ◌≡◌, refl, str_eq, eq_iff, if◌then◌else◌, [], ◌∷◌, arith}
use backend_golang_task.Prelude.Int.{pos}
use backend_golang_task.Errs.{ok, err, new, unauthorized}
use backend_golang_task.User.{User, new_user, assign_id}
use backend_golang_task.Ports.{PasswordHasher, TokenIssuer, IsHasher}
use backend_golang_task.Gorm.Models.{Tables, UserModel, stamp, users}
use backend_golang_task.Gorm.InMemory.{in_memory, in_memory-IsGorm}
use backend_golang_task.Gorm.Users.{user_to_domain, user_to_model, create_user}
use backend_golang_task.Gorm.Examples.{sample}
use backend_golang_task.Commands.CreateProduct.{CreateProductInput}
use backend_golang_task.Commands.CreateProduct
use backend_golang_task.Commands.CreateProduct.Atomic.{Creates, handle-Creates}
use backend_golang_task.Commands.RegisterUser.{RegisterUserInput, registering}
use backend_golang_task.Commands.RegisterUser
use backend_golang_task.Commands.RegisterUser.Unique.{Registers, handle-Registers}
use backend_golang_task.Commands.LoginUser.{invalid_credentials, issued}
use backend_golang_task.Commands.LoginUser
use backend_golang_task.Commands.LoginUser.Credentials.{LetsIn, handle-LetsIn, login-register}

abbrev ruler : CreateProductInput
ruler = record {
  sku = "B";
  name = "ruler";
  description = "";
  price_amount = pos 90;
  currency = "USD";
  initial_stock = pos 4;
  reorder_level = pos 1;
}

handle-Creates_example :
    Creates in_memory ruler 100 sample (CreateProduct.handle in_memory ruler 100 sample)
handle-Creates_example = handle-Creates in_memory in_memory-IsGorm ruler 100 sample

abbrev pub counting : PasswordHasher
counting = record {
  State = ℕ;
  hash = λ password n. (ok password, suc n);
  compare = λ hash password.
      if str_eq hash password then ok tt else err (new unauthorized "invalid_credentials" "");
}

counting-IsHasher : IsHasher counting
counting-IsHasher = record {
  accepts = λ password s {hash} {s'} e. grind (arith, eq_iff hash password);
}

abbrev pub roles : TokenIssuer
roles = record { issue = λ id role. ok role }

abbrev ann : RegisterUserInput
ann = record { email = "ann@example.org"; password = "secret"; full_name = "Ann"; role = "" }

handle-Registers_example :
    Registers in_memory counting ann 0 sample
      (RegisterUser.handle in_memory counting ann (sample, 0))
handle-Registers_example = handle-Registers in_memory counting in_memory-IsGorm ann sample 0

handle-LetsIn_example :
    LetsIn in_memory counting roles "ann@example.org" "guess" sample
      (LoginUser.handle in_memory counting roles "ann@example.org" "guess" sample)
handle-LetsIn_example =
    handle-LetsIn in_memory counting roles in_memory-IsGorm "ann@example.org" "guess" sample

abbrev stored_ann : UserModel
stored_ann = record {
  id = 1;
  email = "ann@example.org";
  password_hash = "secret";
  full_name = "Ann";
  role = "customer";
  created_at = 100;
}

abbrev with_ann : Tables
with_ann = record sample { users_rows = stored_ann ∷ [] }

ann_registers :
    (u : User) × (RegisterUser.handle in_memory counting ann (sample, 0) ≡ (ok u, with_ann, 1))
unfolding RegisterUser.handle new_user registering create_user assign_id
ann_registers = (_, refl)

login-register_example :
    (at : ℕ) × (LoginUser.handle in_memory counting roles "ann@example.org" "secret" with_ann ≡ (
      issued in_memory counting roles
          (user_to_domain (stamp users at (user_to_model ann_registers.0)))
          (roles.issue ann_registers.0.id ann_registers.0.role),
      with_ann,
    ))
login-register_example =
    login-register in_memory in_memory-IsGorm counting counting-IsHasher roles ann sample 0
      ann_registers.1 refl
