-- ===== src/MockGateway.antt =====
-- internal/infrastructure/payment/mock_gateway.go: the simulated payment provider. What the clock, the
-- random numbers and the uuid library answer in a call is its `Draw`, from a stream of them.
pub mod Idempotent
pub mod Examples
use backend_golang_task.Prelude.{
  ℕ, ◌+◌, String, Bool, str_eq, if◌then◌else◌, Option, some, none, List, [], ◌∷◌,
}
use backend_golang_task.Errs.{Result, ok, err, new, foreign, payment_failed}
use backend_golang_task.Ports.{PaymentGateway, ChargeRequest, ChargeResult}

-- Whether the context ends before the latency has passed, whether the random number is below the
-- failure rate, and the new uuid.
pub record Draw : Type 0 where
  pub cancelled : Bool
  pub declined : Bool
  pub uuid : String

abbrev pub Results : Type 0
Results = List (String × ChargeResult)

unfoldable pub existing : String → Results → Option ChargeResult
existing key [] = none
existing key ((k, r) ∷ rs) = if str_eq k key then some r else existing key rs

-- The second locked part of `Charge`: the result of an earlier charge of the key, or this one.
unfoldable pub keep_first : String → ChargeResult → Results → ChargeResult × Results
keep_first key result rs = elim (existing key rs) [
  | some r ↦ (r, rs)
  | none ↦ (result, (key, result) ∷ rs)
]

-- The part of `Charge` between the two locks.
abbrev pub attempt : Draw → Result ChargeResult
attempt d =
    if d.cancelled
    then err (foreign "context canceled")
    else if d.declined
    then err (new payment_failed "payment.declined" "payment was declined by the gateway")
    else ok (record { provider = "mock"; provider_ref = d.uuid })

-- The results, and the number of draws used.
pub record MockGateway : Type 0 where
  pub results : Results
  pub drawn : ℕ

abbrev kept : ChargeResult × Results → MockGateway → Result ChargeResult × MockGateway
kept (r, rs) g = (ok r, record g { results = rs })

-- `Charge`, with no other charge running.
unfoldable pub charge : (ℕ → Draw) → ChargeRequest → MockGateway → Result ChargeResult × MockGateway
charge draw req g = elim (existing req.idempotency_key g.results) [
  | some r ↦ (ok r, g)
  | none ↦
      let g' : MockGateway = record g { drawn = g.drawn + 1 } in
      elim (attempt (draw g.drawn)) [
        | err e ↦ (err e, g')
        | ok result ↦ kept (keep_first req.idempotency_key result g'.results) g'
      ]
]

abbrev pub mock_gateway : (ℕ → Draw) → PaymentGateway
mock_gateway draw = record { State = MockGateway; charge = charge draw }
