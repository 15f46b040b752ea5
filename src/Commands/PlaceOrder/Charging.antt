-- ===== src/Commands/PlaceOrder/Charging.antt =====
-- The loop over the payment attempts in internal/application/command/place_order.go.
use backend_golang_task.Prelude.{ℕ, zero, suc, ◌+◌, ◌≤◌, ◌≡◌, refl, ap, ◌∙◌, ◌⊎◌, inl, inr, arith}
use backend_golang_task.Prelude.Int.{ℤ, pos, ◌+ℤ◌, int64, int64_count}
use backend_golang_task.Errs.{Result, ok, err, Failure}
use backend_golang_task.Payment.{Payment, record_attempt}
use backend_golang_task.Ports.{PaymentGateway, ChargeRequest, ChargeResult}
use backend_golang_task.Commands.PlaceOrder.{charge_loop, attempted}

module _ (gw : PaymentGateway) (req : ChargeRequest) where
  -- `n` charges of one request from a state: all but the last failed, and the last had this result.
  pub data Charges : ℕ → gw.State → Result ChargeResult → gw.State → Type 0 where
    last :
        {s s' : gw.State} {r : Result ChargeResult} → gw.charge req s ≡ (r, s') → Charges 1 s r s'
    failed :
        {n : ℕ} {s s₁ s' : gw.State} {r : Result ChargeResult} (e : Failure)
        → gw.charge req s ≡ (err e, s₁)
        → Charges n s₁ r s'
        → Charges (suc n) s r s'

  -- A payment after `n` more attempts: only the number of the attempts, an int, and the provider change.
  abbrev pub counting : ℕ → Payment → Payment
  counting n p = record p { attempts = int64 (p.attempts +ℤ pos n); provider = "mock" }

  abbrev IsOk : Result ChargeResult → Type 0
  IsOk (ok _) = Unit
  IsOk (err _) = ⊥

  abbrev pub Charged : ℕ → Payment → gw.State → Result ChargeResult × Payment × gw.State → Type 0
  Charged n pay s (r, pay', s') =
      (tries : ℕ) × Charges tries s r s'
      × (tries ≤ n + 1)
      × (IsOk r ⊎ (tries ≡ n + 1))
      × (pay' ≡ counting tries pay)

  charge_step :
      (n : ℕ) (pay : Payment) (s : gw.State) (x : Result ChargeResult × gw.State)
      → gw.charge req s ≡ x
      → Charged n (attempted pay) x.1 (charge_loop gw req n (attempted pay) x.1)
      → Charged (suc n) pay s (elim x.0 [
        | ok res ↦ (ok res, attempted pay, x.1)
        | err _ ↦ charge_loop gw req n (attempted pay) x.1
      ])
  unfolding record_attempt
  charge_step n pay s (ok res, s₁) e ih = (1, last e, omega arith, inl tt, refl)
  charge_step n pay s (err x, s₁) e (tries, charges, few, end, counted) = (
    suc tries,
    failed x e charges,
    omega arith,
    later _ end,
    counted
        ∙ ap (λ (k : ℤ). record pay { attempts = k; provider = "mock" })
            (int64_count pay.attempts tries),
  )
    where
      later :
          (r : Result ChargeResult) → IsOk r ⊎ (tries ≡ n + 1) → IsOk r ⊎ (suc tries ≡ suc n + 1)
      later r (inl fine) = inl fine
      later r (inr all) = inr (omega arith)

  -- The loop makes at least one and at most `n + 1` charges, all of the same request: it stops at the
  -- first that succeeds, returns an error only after all `n + 1` failed, and adds their number to the
  -- attempts of the payment, an int, of which it sets the provider and changes nothing else.
  pub charge_loop-Charged :
      (n : ℕ) (pay : Payment) (s : gw.State) → Charged n pay s (charge_loop gw req n pay s)
  unfolding charge_loop record_attempt
  charge_loop-Charged zero pay s = (1, last refl, omega arith, inr (omega arith), refl)
  charge_loop-Charged (suc n) pay s =
      charge_step n pay s (gw.charge req s) refl
        (charge_loop-Charged n (attempted pay) (gw.charge req s).1)
