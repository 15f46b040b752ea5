-- ===== src/MockGateway/Idempotent.antt =====
-- No key is charged twice by the gateway of internal/infrastructure/payment/mock_gateway.go.
use backend_golang_task.Prelude.{
  ℕ, ◌≡◌, ◌≢◌, ◌⊎◌, inl, inr, Bool-cases, str_eq, refl, String, eq_iff, some, List, [], ◌∷◌, arith,
}
use backend_golang_task.Errs.{ok}
use backend_golang_task.Ports.{ChargeRequest, ChargeResult}
use backend_golang_task.MockGateway.{Draw, Results, existing, keep_first, MockGateway, charge}

-- Of any number of charges that run at once and have all found no earlier result, each enters its
-- second locked part in some order: the results of all of them, and what is kept.
unfoldable pub race :
    List (String × ChargeResult) → Results → List (String × ChargeResult) × Results
race [] rs = ([], rs)
race ((key, result) ∷ others) rs =
    let (r, rs') = keep_first key result rs in
    let (answers, end) = race others rs' in ((key, r) ∷ answers, end)

-- Every answer under `key` is `r`.
abbrev AllAnswer : String → ChargeResult → List (String × ChargeResult) → Type 0
AllAnswer key r [] = Unit
AllAnswer key r ((k, r') ∷ answers) = ((k ≢ key) ⊎ (r' ≡ r)) × AllAnswer key r answers

keep_first-existing :
    (key k : String) (r result : ChargeResult) (rs : Results)
    → existing key rs ≡ some r
    → existing key (keep_first k result rs).1 ≡ some r
unfolding keep_first existing
keep_first-existing key k r result rs h = ground (arith, eq_iff k key)

keep_first-same :
    (key k : String) (r result : ChargeResult) (rs : Results)
    → existing key rs ≡ some r
    → k ≡ key
    → (keep_first k result rs).0 ≡ r
unfolding keep_first
keep_first-same key k r result rs h e = ground arith

keep_first-answer :
    (key k : String) (r result : ChargeResult) (rs : Results)
    → existing key rs ≡ some r
    → (k ≢ key) ⊎ ((keep_first k result rs).0 ≡ r)
keep_first-answer key k r result rs h = elim (Bool-cases (str_eq k key)) [
  | inl same ↦ inr (keep_first-same key k r result rs h (ground (arith, eq_iff k key)))
  | inr differs ↦ inl (λ e. ground (arith, eq_iff k key))
]

-- Once a key has a result, charges of it that run at once all get that result, whatever order they
-- finish in and whatever else is charged meanwhile, and it stays.
race-AllAnswer :
    (key : String) (r : ChargeResult) (charges : List (String × ChargeResult)) (rs : Results)
    → existing key rs ≡ some r
    → AllAnswer key r (race charges rs).0 × (existing key (race charges rs).1 ≡ some r)
unfolding race
race-AllAnswer key r [] rs h = (tt, h)
race-AllAnswer key r ((k, result) ∷ others) rs h =
    let kept = keep_first-existing key k r result rs h in
    let (same, stays) = race-AllAnswer key r others (keep_first k result rs).1 kept in
    ((keep_first-answer key k r result rs h, same), stays)

charge-existing :
    (draw : ℕ → Draw) (req : ChargeRequest) (g : MockGateway) {r : ChargeResult} {g' : MockGateway}
    → charge draw req g ≡ (ok r, g')
    → existing req.idempotency_key g'.results ≡ some r
unfolding charge keep_first existing
charge-existing draw req g h = ground (arith, eq_iff req.idempotency_key req.idempotency_key)

-- A charge that succeeded under a key is the answer to every later charge of that key, which draws
-- nothing and changes nothing.
charge_again :
    (draw : ℕ → Draw) (req later : ChargeRequest) (g : MockGateway) {r : ChargeResult}
    {g' : MockGateway}
    → charge draw req g ≡ (ok r, g')
    → later.idempotency_key ≡ req.idempotency_key
    → charge draw later g' ≡ (ok r, g')
unfolding charge
charge_again draw req later g h same = rw (same, charge) (rw (charge-existing draw req g h) refl)
