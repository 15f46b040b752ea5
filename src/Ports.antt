-- ===== src/Ports.antt =====
-- internal/application/ports: what the use cases call that is not the database. First gateway.go, the
-- payment provider.
use backend_golang_task.Prelude.{ℕ, String, ◌≡◌}
use backend_golang_task.Errs.{Result, ok}
use backend_golang_task.Action.{Action}
use backend_golang_task.Shared.Money.{Money}

pub record ChargeRequest : Type 0 where
  pub idempotency_key : String
  pub amount : Money

pub record ChargeResult : Type 0 where
  pub provider : String
  pub provider_ref : String

pub record PaymentGateway : Type 1 where
  pub State : Type 0
  pub charge : ChargeRequest → Action State ChargeResult

-- internal/application/ports/security.go. A hash is salted: two calls may answer differently.
pub record PasswordHasher : Type 1 where
  pub State : Type 0
  pub hash : String → Action State String
  pub compare : String → String → Result (Unit {0})

pub record TokenClaims : Type 0 where
  pub user_id : ℕ
  pub role : String

-- The clock that an issuer and a verifier read is not an argument: each is the one of the moment of
-- the call.
pub record TokenIssuer : Type 0 where
  pub issue : ℕ → String → Result String

pub record TokenVerifier : Type 0 where
  pub verify : String → Result TokenClaims

-- What a use case expects of a hasher: a hash that it made accepts the password.
pub record IsHasher (h : PasswordHasher) : Type 0 where
  pub accepts :
      (password : String) (s : h.State) {hash : String} {s' : h.State}
      → h.hash password s ≡ (ok hash, s')
      → h.compare hash password ≡ ok tt
