-- ===== src/Config/Examples.antt =====
-- A configuration for production, and the default one.
use backend_golang_task.Prelude.{
  ℕ, ◌*◌, ◌/◌, ◌^◌, ◌≡◌, refl, ltb, str_eq, if◌then◌else◌, some, none,
}
use backend_golang_task.Prelude.Int.{pos}
use backend_golang_task.Prelude.Parse.{read}
use backend_golang_task.Errs.{ok, err, foreign}
use backend_golang_task.Config.{Numbers, Env, is_production, from_env, load}
use backend_golang_task.Config.Safe.{IsSafe, load-IsSafe}

-- Numbers by tenths, of which no text is read.
abbrev pub tenths : Numbers
tenths = record {
  Float = ℕ;
  parse_float = λ s. none;
  literal = λ n k. n * 10 / 10 ^ k;
  less = ltb;
  parse_duration = λ s. none;
}

abbrev pub production : Env
production key =
    if str_eq key "APP_ENV"
    then some "Production"
    else if str_eq key "JWT_SECRET"
    then some "0123456789abcdef0123456789abcdef"
    else if str_eq key "HTTP_PORT"
    then some "x8080"
    else if str_eq key "ORDER_WORKERS"
    then some "+12"
    else none

pub loads_production : load tenths production none ≡ ok (from_env tenths production)
unfolding load is_production read
loads_production = refl

load-IsSafe_example : IsSafe tenths production none (from_env tenths production)
load-IsSafe_example = load-IsSafe tenths production none loads_production

no_secret :
    load tenths (λ key. none) none
    ≡ err (foreign "JWT_SECRET is required (provide it via the environment)")
unfolding load is_production
no_secret = refl

order_workers : (from_env tenths production).worker.order_workers ≡ pos 12
unfolding read
order_workers = refl
