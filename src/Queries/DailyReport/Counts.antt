-- ===== src/Queries/DailyReport/Counts.antt =====
-- The counts of internal/application/query/daily_report.go.
use backend_golang_task.Prelude.{
  ℕ, suc, ◌+◌, ◌≡◌, refl, String, str_eq, eq_iff, if◌then◌else◌, List, [], ◌∷◌, length, select,
  arith,
}
use backend_golang_task.Order.{Order, status_text}
use backend_golang_task.Queries.DailyReport.{count_one, count_all, report}

-- What the map says of a status, and the sum of what it says.
abbrev pub count_of : String → List (String × ℕ) → ℕ
count_of status [] = 0
count_of status ((key, n) ∷ counts) =
    let rest = count_of status counts in if str_eq key status then n else rest

abbrev pub sum_counts : List (String × ℕ) → ℕ
sum_counts [] = 0
sum_counts ((key, n) ∷ counts) = n + sum_counts counts

-- The orders in a status.
abbrev pub in_status : String → List Order → List Order
in_status status os = select (λ (o : Order). str_eq (status_text o.status) status) os

count_of-count_one :
    (s status : String) (counts : List (String × ℕ))
    → count_of s (count_one status counts)
      ≡ (if str_eq status s then suc (count_of s counts) else count_of s counts)
unfolding count_one
count_of-count_one s status [] = ground arith
count_of-count_one s status ((key, n) ∷ counts) =
    grind
      (arith, eq_iff key status, eq_iff key s, eq_iff status s, count_of-count_one s status counts)

sum_counts-count_one :
    (status : String) (counts : List (String × ℕ))
    → sum_counts (count_one status counts) ≡ suc (sum_counts counts)
unfolding count_one
sum_counts-count_one status [] = refl
sum_counts-count_one status ((key, n) ∷ counts) = ground (arith, sum_counts-count_one status counts)

count_of-count_all :
    (s : String) (counts : List (String × ℕ)) (os : List Order)
    → count_of s (count_all counts os) ≡ count_of s counts + length (in_status s os)
unfolding count_all
count_of-count_all s counts [] = omega arith
count_of-count_all s counts (o ∷ os) = grind (
  arith,
  count_of-count_all s (count_one (status_text o.status) counts) os,
  count_of-count_one s (status_text o.status) counts,
)

sum_counts-count_all :
    (counts : List (String × ℕ)) (os : List Order)
    → sum_counts (count_all counts os) ≡ sum_counts counts + length os
unfolding count_all
sum_counts-count_all counts [] = omega arith
sum_counts-count_all counts (o ∷ os) = omega (
  arith,
  sum_counts-count_all (count_one (status_text o.status) counts) os,
  sum_counts-count_one (status_text o.status) counts,
)

-- The report counts every order once, under its status: the number under a status is that of the orders
-- in it, and the numbers add up to the total.
pub report_counts :
    (date status : String) (os : List Order)
    → (count_of status (report date os).by_status ≡ length (in_status status os))
      × (sum_counts (report date os).by_status ≡ (report date os).total_orders)
unfolding report
report_counts date status os =
    (omega (arith, count_of-count_all status [] os), omega (arith, sum_counts-count_all [] os))
