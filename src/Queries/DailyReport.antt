-- ===== src/Queries/DailyReport.antt =====
-- internal/application/query/daily_report.go.
pub mod Pages
pub mod Counts
mod Examples
use backend_golang_task.Prelude.{
  ℕ, zero, suc, ◌+◌, String, str_eq, ltb, leb, Bool, true, false, ◌||◌, if◌then◌else◌, List, [],
  ◌∷◌, ◌++◌, length,
}
use backend_golang_task.Prelude.Int.{ℤ, pos, ◌+ℤ◌, int64}
use backend_golang_task.Errs.{panic}
use backend_golang_task.Action.{Action, pure, raise, ◌>>=◌}
use backend_golang_task.Shared.Money.{default_currency}
use backend_golang_task.Order.{Order, status_text}
use backend_golang_task.Gorm.Engine.{Gorm}
use backend_golang_task.Gorm.Orders.{list_all}

pub record DailyReportResult : Type 0 where
  pub date : String
  pub total_orders : ℕ
  pub total_revenue : ℤ
  pub currency : String
  pub by_status : List (String × ℕ)

-- The fields that `NewDailyReport` sets.
abbrev pub page_size : ℕ
page_size = 200

abbrev pub max_orders : ℕ
max_orders = 2000

-- The two conditions of the `break`, after the append.
abbrev pub is_last : List Order → ℕ → List Order → Bool
is_last batch total collected = ltb (length batch) page_size || leb total (length collected)

module _ (g : Gorm) where
  open g use {World}

  -- The loop from a page on. Each round but the last adds a full page, so 10 rounds are enough; out of
  -- fuel is a failure.
  unfoldable pub collect_from : ℕ → ℕ → List Order → Action World (List Order)
  collect_from zero page collected =
      if ltb (length collected) max_orders then raise (panic "out of fuel") else pure collected
  collect_from (suc fuel) page collected =
      let rest = collect_from fuel (suc page) in
      if ltb (length collected) max_orders
      then (list_all g (record { number = pos page; size = pos page_size }) >>= λ (batch, total).
          let more = collected ++ batch in
          if is_last batch total more then pure more else rest more)
      else pure collected

  unfoldable pub collect : Action World (List Order)
  unfolding collect_from
  collect = collect_from 10 1 []

-- `sum += o.Total().Amount()`, over an int64.
unfoldable revenue : ℤ → List Order → ℤ
revenue sum [] = sum
revenue sum (o ∷ os) = revenue (int64 (sum +ℤ o.total.amount)) os

-- `counts[status]++`, where a missing key counts zero.
unfoldable pub count_one : String → List (String × ℕ) → List (String × ℕ)
count_one status [] = (status, 1) ∷ []
count_one status ((key, n) ∷ counts) =
    let rest = count_one status counts in
    if str_eq key status then (key, suc n) ∷ counts else (key, n) ∷ rest

unfoldable pub count_all : List (String × ℕ) → List Order → List (String × ℕ)
unfolding count_one
count_all counts [] = counts
count_all counts (o ∷ os) = count_all (count_one (status_text o.status) counts) os

abbrev report_currency : List Order → String
report_currency [] = default_currency
report_currency (o ∷ os) = o.total.currency

-- The three goroutines of the group write a variable each.
unfoldable pub report : String → List Order → DailyReportResult
unfolding revenue count_all
report date os = record {
  date = date;
  total_orders = length os;
  total_revenue = revenue (pos 0) os;
  currency = report_currency os;
  by_status = count_all [] os;
}

unfoldable pub handle : (g : Gorm) → String → Action (g.World) DailyReportResult
unfolding collect report
handle g date = do os ← collect g; pure (report date os)
