-- ===== src/Http/Middleware/Examples.antt =====
-- Two clients, each with one request in its bucket.
use backend_golang_task.Prelude.{
  ℕ, zero, suc, eq_iff, String, Bool, true, false, ◌≡◌, ◌≢◌, refl, List, [], ◌∷◌, arith,
}
use backend_golang_task.Http.Middleware.{Limiter, RateEntry, Rates, rate_limit}
use backend_golang_task.Http.Middleware.Isolated.{asked, rate_limit-asked}

abbrev take_one : ℕ → ℕ → Bool × ℕ
take_one now zero = (false, zero)
take_one now (suc n) = (true, n)

abbrev bucket : Limiter
bucket = record { State = ℕ; fresh = 1; allow = take_one }

abbrev seen : RateEntry bucket
seen = record { limiter = 1; last_seen = 100 }

abbrev rates : Rates bucket
rates = record { entries = ("a", seen) ∷ []; last_evict = 0 }

abbrev others : List (ℕ × String)
others = (110, "b") ∷ (120, "b") ∷ []

ne : ◌≢◌ {A = String} "b" "a"
ne e = ground (arith, eq_iff "b" "a")

rate_limit-asked_example :
    (rate_limit bucket 60 130 "a" (asked bucket 60 others rates)).0
    ≡ (rate_limit bucket 60 130 "a" rates).0
rate_limit-asked_example =
    rate_limit-asked bucket 60 130 "a" others rates seen refl (omega arith)
      ((omega arith, ne), ((omega arith, ne), tt))
