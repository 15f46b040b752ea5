-- ===== src/Commands/UpdateProduct.antt =====
-- internal/application/command/update_product.go.
use backend_golang_task.Prelude.{ℕ, String, Bool, true, false, Option, some, none}
use backend_golang_task.Prelude.Int.{ℤ}
use backend_golang_task.Errs.{Result, ok, err, ◌>>=◌}
use backend_golang_task.Action.{Action, pure, lift}
use backend_golang_task.Action
use backend_golang_task.Shared.Money.{new_money}
use backend_golang_task.Product.{Product, rename, reprice, activate, deactivate}
use backend_golang_task.Gorm.Engine.{Gorm}
use backend_golang_task.Gorm.Products.{find_product, update_product}

-- A field is `none` where the request leaves it out.
pub record UpdateProductInput : Type 0 where
  pub name : Option String
  pub description : Option String
  pub price_amount : Option ℤ
  pub currency : Option String
  pub active : Option Bool

-- The three `if`s of the closure.
abbrev renamed : Option String → Product → Result Product
renamed none p = ok p
renamed (some name) p = rename name p

abbrev currency_or : String → Option String → String
currency_or default none = default
currency_or default (some currency) = currency

abbrev pub repriced : Option ℤ → Option String → Product → Result Product
repriced none currency p = ok p
repriced (some amount) currency p =
    new_money amount (currency_or p.price.currency currency) >>= λ price. ok (reprice price p)

abbrev switched : Option Bool → Product → Product
switched none p = p
switched (some true) p = activate p
switched (some false) p = deactivate p

unfoldable pub edited : UpdateProductInput → Product → Result Product
edited inp p = renamed inp.name p >>= λ p₁.
    repriced inp.price_amount inp.currency p₁ >>= λ p₂. ok (switched inp.active p₂)

module _ (g : Gorm) where
  open g use {World, transaction}

  -- The closure, whose variable is the result: nil at first.
  unfoldable pub editing : ℕ → UpdateProductInput → Action (Option Product × World) (Unit {0})
  editing id inp (v, w) =
      let (r, w') =
        Action.◌>>=◌ (find_product g id)
          (λ p.
            Action.◌>>=◌ (lift (edited inp p))
              λ p'. Action.◌>>=◌ (update_product g p') λ _. pure p')
          w in
      elim r [ ok p' ↦ (ok tt, (some p', w')) | err e ↦ (err e, (v, w')) ]

  -- The answer is nil only where the closure did not run to its end, which is an error.
  abbrev edited_with :
      Result (Unit {0}) × (Option Product × World) → Result (Option Product) × World
  edited_with (err e, (_, w)) = (err e, w)
  edited_with (ok _, (result, w)) = (ok result, w)

  unfoldable pub handle : ℕ → UpdateProductInput → World → Result (Option Product) × World
  handle id inp w = edited_with (transaction (editing id inp) (none, w))
