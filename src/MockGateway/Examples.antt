-- ===== src/MockGateway/Examples.antt =====
-- A gateway whose second charge is declined.
use backend_golang_task.Prelude.{ℕ, String, false, ◌≡◌, refl, List, [], ◌∷◌, some, ◌==◌}
use backend_golang_task.Prelude.Int.{pos}
use backend_golang_task.Errs.{ok}
use backend_golang_task.Ports.{ChargeRequest, ChargeResult}
use backend_golang_task.MockGateway.{Draw, existing, keep_first, MockGateway, charge}

abbrev pub draws : ℕ → Draw
draws n = record { cancelled = false; declined = n == 1; uuid = "ref" }

abbrev request : ChargeRequest
request = record { idempotency_key = "key"; amount = record { amount = pos 500; currency = "USD" } }

abbrev larger : ChargeRequest
larger = record { idempotency_key = "key"; amount = record { amount = pos 900; currency = "USD" } }

abbrev paid : ChargeResult
paid = record { provider = "mock"; provider_ref = "ref" }

abbrev late : ChargeResult
late = record { provider = "mock"; provider_ref = "late" }

abbrev pub idle : MockGateway
idle = record { results = []; drawn = 0 }

abbrev charged : MockGateway
charged = record { results = ("key", paid) ∷ []; drawn = 1 }

charge-idle : charge draws request idle ≡ (ok paid, charged)
unfolding charge keep_first existing
charge-idle = refl

existing-charged : existing "key" charged.results ≡ some paid
unfolding existing
existing-charged = refl

abbrev racing : List (String × ChargeResult)
racing = ("key", late) ∷ ("other", late) ∷ ("key", late) ∷ []
