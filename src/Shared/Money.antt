-- ===== src/Shared/Money.antt =====
-- internal/domain/shared/money.go: an int64 number of cents and a currency code.
use Prim.Native.String.{len}
use backend_golang_task.Prelude.{
  String, Bool, not, ◌&&◌, ◌==◌, str_eq, if◌then◌else◌, Option, some, none,
}
use backend_golang_task.Prelude.Int.{ℤ, pos, ◌+ℤ◌, ◌*ℤ◌, ltb_ℤ, eqb_ℤ, int64}
use backend_golang_task.Errs.{Result, ok, err, new, validation, ◌>>◌, fail_if}

abbrev pub default_currency : String
default_currency = "USD"

pub record Money : Type 0 where
  pub amount : ℤ
  pub currency : String

-- The message of the second error quotes the currency by `%q`; the model keeps its fixed part.
unfoldable pub new_money : ℤ → String → Result Money
new_money amount currency = do
  fail_if (ltb_ℤ amount (pos 0)) (new validation "money.negative" "amount cannot be negative")
  fail_if (not (len currency == 3)) (new validation "money.currency" "invalid currency")
  ok (record { amount = amount; currency = currency })

-- `none` is a panic.
unfoldable pub must_money : ℤ → String → Option Money
unfolding new_money
must_money amount currency = elim (new_money amount currency) [ ok m ↦ some m | err _ ↦ none ]

abbrev pub zero_money : String → Money
zero_money currency = record { amount = pos 0; currency = currency }

abbrev pub is_zero : Money → Bool
is_zero m = eqb_ℤ m.amount (pos 0)

unfoldable pub add : Money → Money → Result Money
add m other =
    if str_eq m.currency other.currency
    then ok (record { amount = int64 (m.amount +ℤ other.amount); currency = m.currency })
    else err (new validation "money.currency_mismatch" "cannot add different currencies")

unfoldable pub mul : Money → ℤ → Money
mul m quantity = record { amount = int64 (m.amount *ℤ quantity); currency = m.currency }

abbrev equal : Money → Money → Bool
equal m other = eqb_ℤ m.amount other.amount && str_eq m.currency other.currency

abbrev greater_than : Money → Money → Bool
greater_than m other = str_eq m.currency other.currency && ltb_ℤ other.amount m.amount
