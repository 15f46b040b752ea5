-- ===== src/Http/Router/Examples.antt =====
-- Requests to a router over the sample database, of which one token verifies.
use backend_golang_task.Prelude.{str_eq, if◌then◌else◌, true, some}
use backend_golang_task.Prelude.Int.{pos}
use backend_golang_task.Errs.{ok, err, new, unauthorized}
use backend_golang_task.Ports.{TokenVerifier}
use backend_golang_task.MockGateway.{mock_gateway}
use backend_golang_task.MockGateway.Examples.{draws, idle}
use backend_golang_task.Gorm.InMemory.{in_memory}
use backend_golang_task.Gorm.Examples.{sample}
use backend_golang_task.Commands.Examples.Accounts.{counting, roles}
use backend_golang_task.Http.Router.{
  Dependencies, Store, Route, admin_route, put_admin_order_status, serve,
}
use backend_golang_task.Http.Router.Guarded.{Guards, serve-Guards}

abbrev one_token : TokenVerifier
one_token = record {
  verify = λ token.
      if str_eq token "t"
      then ok (record { user_id = 7; role = "customer" })
      else err (new unauthorized "invalid_token" "invalid or expired token");
}

abbrev parts : Dependencies
parts = record {
  gorm = in_memory;
  gateway = mock_gateway draws;
  hasher = counting;
  issuer = roles;
  verifier = one_token;
  attempts = pos 3;
  now = 100;
  fresh = "key";
  accepts = true;
}

abbrev store : Store parts
store = record { world = sample; hashes = 0; charges = idle }

abbrev set_paid : Route
set_paid = admin_route (put_admin_order_status (some 4) (ok "paid"))

serve-Guards_example :
    Guards parts "Bearer t" set_paid store (serve parts "Bearer t" set_paid store)
serve-Guards_example = serve-Guards parts "Bearer t" set_paid store
