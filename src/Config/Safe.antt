-- ===== src/Config/Safe.antt =====
-- What is sure of a configuration that internal/platform/config/config.go has loaded.
use backend_golang_task.Prelude.{
  ℕ, ◌≤◌, ◌≡◌, refl, sym, String, is_empty, Bool, true, false, not, ◌&&◌, if◌then◌else◌, subst,
  Option, some, none, List, arith,
}
use backend_golang_task.Prelude.Int.{pos, ◌≤ℤ◌}
use backend_golang_task.Prelude.Parse.{byte_len}
use backend_golang_task.Errs.{Result, ok, err}
use backend_golang_task.Config.{
  Numbers, Config, Env, is_production, get_string, from_env, random_secret, with_secret, validate,
  checked, load,
}

module _ (n : Numbers) (env : Env) (random : Option (List ℕ)) where
  open n use {literal, less}

  pub record IsSafe (c : Config n) : Type 0 where
    pub secret_set : is_empty c.jwt.secret ≡ false
    pub in_production :
        is_production c.app ≡ true
        → (env "JWT_SECRET" ≡ some (c.jwt.secret)) × (32 ≤ byte_len c.jwt.secret)
    pub kept : is_empty (get_string env "JWT_SECRET" "") ≡ false → c ≡ from_env n env
    pub drawn :
        is_empty (get_string env "JWT_SECRET" "") ≡ true → c.jwt.secret ≡ random_secret random
    pub rate_above : less c.payment.failure_rate (literal 0 0) ≡ false
    pub rate_below : less (literal 1 0) c.payment.failure_rate ≡ false
    pub has_workers : pos 1 ≤ℤ c.worker.order_workers
    -- All but the secret is what the environment says.
    pub as_given :
        record c { jwt = record (c.jwt) { secret = (from_env n env).jwt.secret } } ≡ from_env n env

  checked_ok :
      (c : Config n) (r : Result (Unit {0})) {c' : Config n}
      → checked n c r ≡ ok c'
      → (c' ≡ c) × (r ≡ ok tt)
  checked_ok c (ok a) e = (cc, refl)
  checked_ok c (err x) e = cc

  -- The secret of a variable that is set.
  given :
      (v : Option String)
      → is_empty (get_string (λ _. v) "" "") ≡ false
      → v ≡ some (get_string (λ _. v) "" "")
  given none e = cc
  given (some s) e = ground (arith)

  validated :
      (c : Config n)
      → validate n c ≡ ok tt
      → (is_empty c.jwt.secret ≡ false)
        × (is_production c.app ≡ true → 32 ≤ byte_len c.jwt.secret)
        × (less c.payment.failure_rate (literal 0 0) ≡ false)
        × (less (literal 1 0) c.payment.failure_rate ≡ false)
        × (pos 1 ≤ℤ c.worker.order_workers)
  unfolding validate
  validated c e = (
    ground (arith, e),
    λ p. ground (arith, e, p),
    ground (arith, e),
    ground (arith, e),
    ground (arith, e),
  )

  made : Config n
  made = record (from_env n env) {
    jwt = record ((from_env n env).jwt) { secret = random_secret random };
  }

  of_choice :
      (b : Bool)
      → (is_empty (get_string env "JWT_SECRET" "") && not (is_production (from_env n env).app)) ≡ b
      → validate n (if b then made else from_env n env) ≡ ok tt
      → IsSafe (if b then made else from_env n env)
  unfolding made
  of_choice true e valid =
      let (set, long, above, below, workers) = validated made valid in
      record {
        secret_set = set;
        in_production = λ p. absurd (ground (arith, e, p));
        kept = λ given. absurd (ground (arith, e, given));
        drawn = λ missing. refl;
        rate_above = above;
        rate_below = below;
        has_workers = workers;
        as_given = refl;
      }
  of_choice false e valid =
      let (set, long, above, below, workers) = validated (from_env n env) valid in
      record {
        secret_set = set;
        in_production = λ p. (given (env "JWT_SECRET") set, long p);
        kept = λ given. refl;
        drawn = λ missing. absurd (ground (arith, set, missing));
        rate_above = above;
        rate_below = below;
        has_workers = workers;
        as_given = refl;
      }

  -- A configuration that loads has a secret, at least one worker for the orders, and a failure rate that
  -- is not below 0 and not above 1. In production the secret is the variable JWT_SECRET, of at least 32
  -- bytes; elsewhere it is that or, where that is empty or missing, the random one. All but the secret,
  -- the rest of the settings of the tokens included, is what the environment says.
  pub load-IsSafe : {c : Config n} → load n env random ≡ ok c → IsSafe c
  unfolding load made
  load-IsSafe {c} e =
      let (same, valid) = checked_ok (with_secret n random (from_env n env)) _ e in
      subst IsSafe (sym same) (of_choice _ refl valid)
