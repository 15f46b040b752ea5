-- ===== src/Commands/PlaceOrder/Steps.antt =====
-- What the steps of the two transactions of `process` (internal/application/command/place_order.go) do to
-- the stock and to the payments.
use backend_golang_task.Prelude.{ℕ, ◌≡◌, refl, sym, ap, ◌∙◌, List, [], ◌∷◌, ◌++◌, arith}
use backend_golang_task.Errs.{Result, ok, err}
use backend_golang_task.Action.{◌>>=◌, pure}
use backend_golang_task.Order.{
  Order, Item, fail, mark_paid, mark_fulfilled, mark_reserved, assign_id,
}
use backend_golang_task.Payment.{Payment, mark_failed, mark_succeeded}
use backend_golang_task.Payment
use backend_golang_task.Gorm.Models.{
  Tables, InventoryModel, PaymentModel, get, put, inventories, orders, payments, stamp, with_id,
}
use backend_golang_task.Gorm.Engine.{Gorm, IsGorm, Created}
use backend_golang_task.Gorm.Orders.{create_order, order_to_model}
use backend_golang_task.Gorm.Payments.{create_payment, payment_to_model}
use backend_golang_task.Commands.Memory.{store}
use backend_golang_task.Commands.PlaceOrder.{on_payment, on_order}
use backend_golang_task.Commands.PlaceOrder.Stock.{
  stock, paid, each_line, reserved_line, Runs, Does, Keeps, Lines,
}

module _ (g : Gorm) where
  -- The row of the payment was added to the payments, and every line of the order moved the stock.
  abbrev pub Settles :
      (Item → List InventoryModel → List InventoryModel)
      → Tables
      → (Order × Payment) × g.World
      → Type 0
  Settles step d ((o', p'), w') =
      (id : ℕ) × (now : ℕ) × (paid g w'
        ≡ get payments d ++ stamp payments now (with_id payments id (payment_to_model p')) ∷ [])
      × (stock g w' ≡ each_line step o'.items (get inventories d))

  -- Every line of the order was reserved in the stock, and the payments are as they were.
  abbrev pub Reserves : Tables → Order × g.World → Type 0
  Reserves d (o', w') =
      (stock g w' ≡ each_line reserved_line o'.items (get inventories d))
      × (paid g w' ≡ get payments d)

  -- They hold of any tables like these.
  pub Settles-like :
      (step : Item → List InventoryModel → List InventoryModel) (d d' : Tables) (o : Order)
      (p : Payment) {w w' : g.World}
      → d ≡ d'
      → g.tables w' ≡ g.tables w
      → Settles step d ((o, p), w)
      → Settles step d' ((o, p), w')
  Settles-like step d d' o p begins kept (id, now, add, moved) = (
    id,
    now,
    ap (get payments) kept
        ∙ add
        ∙ ap
            (λ (t : Tables).
              get payments t ++ stamp payments now (with_id payments id (payment_to_model p)) ∷ [])
            begins,
    ap (get inventories) kept
        ∙ moved
        ∙ ap (λ (t : Tables). each_line step o.items (get inventories t)) begins,
  )

  pub Reserves-like :
      (d d' : Tables) (o : Order) {w w' : g.World}
      → d ≡ d'
      → g.tables w' ≡ g.tables w
      → Reserves d (o, w)
      → Reserves d' (o, w')
  Reserves-like d d' o begins kept (moved, same) = (
    ap (get inventories) kept
        ∙ moved
        ∙ ap (λ (t : Tables). each_line reserved_line o.items (get inventories t)) begins,
    ap (get payments) kept ∙ same ∙ ap (get payments) begins,
  )

module _ (g : Gorm) (laws : IsGorm g) where
  abbrev pub Vars : Type 0
  Vars = Order × Payment

  abbrev pub SameOrder : Vars → Vars → Type 0
  SameOrder (o, _) (o', _) = o' ≡ o

  abbrev pub SamePayment : Vars → Vars → Type 0
  SamePayment (o, p) (o', p') = (o'.items ≡ o.items) × (p' ≡ p)

  abbrev pub Unchanged : {A : Type 0} → A → A → Type 0
  Unchanged v v' = v' ≡ v

  abbrev pub SameItems : Order → Order → Type 0
  SameItems o o' = o'.items ≡ o.items

  pub on_payment-SameOrder :
      (f : Payment → Result Payment) (v v' : Vars) → on_payment f v ≡ ok v' → SameOrder v v'
  on_payment-SameOrder f (o, p) (o', p') h = go (f p) h
    where
      go : (r : Result Payment) → on_payment (λ (_ : Payment). r) (o, p) ≡ ok (o', p') → o' ≡ o
      go (ok q) e = ground arith
      go (err x) e = cc

  pub on_order-SamePayment :
      (f : Order → Result Order)
      → ((o o' : Order) → f o ≡ ok o' → SameItems o o')
      → (v v' : Vars) → on_order f v ≡ ok v'
      → SamePayment v v'
  on_order-SamePayment f keeps (o, p) (o', p') h = go (f o) (keeps o) h
    where
      go :
          (r : Result Order)
          → ((o₁ : Order) → r ≡ ok o₁ → SameItems o o₁)
          → on_order (λ (_ : Order). r) (o, p) ≡ ok (o', p')
          → SamePayment (o, p) (o', p')
      go (ok q) same e = let e' : (ok q ≡ ok o') × (p' ≡ p) = ground arith in (same o' e'.0, e'.1)
      go (err x) same e = cc

  pub fail-SameItems : (reason : _) (o o' : Order) → fail reason o ≡ ok o' → SameItems o o'
  unfolding fail
  fail-SameItems reason o o' h = ground arith

  pub mark_paid-SameItems : (o o' : Order) → mark_paid o ≡ ok o' → SameItems o o'
  unfolding mark_paid
  mark_paid-SameItems o o' h = ground arith

  pub mark_fulfilled-SameItems : (o o' : Order) → mark_fulfilled o ≡ ok o' → SameItems o o'
  unfolding mark_fulfilled
  mark_fulfilled-SameItems o o' h = ground arith

  pub mark_reserved-SameItems : (o o' : Order) → mark_reserved o ≡ ok o' → SameItems o o'
  unfolding mark_reserved
  mark_reserved-SameItems o o' h = ground arith

  -- The payment got its row.
  abbrev pub Adds : Vars × g.World → Vars × g.World → Type 0
  Adds ((o, p), w) ((o', p'), w') =
      (o' ≡ o)
      × (stock g w' ≡ stock g w)
      × (id : ℕ) × (now : ℕ) × (paid g w'
          ≡ paid g w ++ stamp payments now (with_id payments id (payment_to_model p')) ∷ [])

  same_row :
      (id : ℕ) (p : Payment)
      → with_id payments id (payment_to_model p)
        ≡ with_id payments id (payment_to_model (Payment.assign_id id p))
  unfolding Payment.assign_id
  same_row id p = ground arith

  added :
      (o : Order) (p : Payment) (w w' : g.World) (id now : ℕ)
      → g.tables w'
        ≡ put payments
            (paid g w ++ stamp payments now (with_id payments id (payment_to_model p)) ∷ [])
            (g.tables w)
      → Adds ((o, p), w) ((o, Payment.assign_id id p), w')
  added o p w w' id now e = (
    refl,
    ap (get inventories) e,
    id,
    now,
    ap (get payments) e
        ∙ ap (λ (m : PaymentModel). paid g w ++ stamp payments now m ∷ []) (same_row id p),
  )

  pub create_payment-Adds : Does Adds (store (λ v. create_payment g v.1 >>= λ p. pure (v.0, p)))
  unfolding create_payment
  create_payment-Adds = record {
    does = λ ((o, p), w).
        go o p w (g.create payments (payment_to_model p) w)
          (laws.create_law payments (payment_to_model p) w);
  }
    where
      go :
          (o : Order) (p : Payment) (w : g.World) (r : Result ℕ × g.World)
          → Created g payments (payment_to_model p) (g.tables w) r
          → Runs Adds
              ((o, p), w)
              (store
                (λ (v : Vars).
                  ((λ (_ : g.World). r) >>= λ (id : ℕ). pure (Payment.assign_id id v.1))
                  >>= λ (q : Payment). pure (v.0, q))
                ((o, p), w))
      go o p w (ok id, w') (_, _, _, now, e) = added o p w w' id now e
      go o p w (err x, w') same = tt

  pub create_order-Keeps : Does (Keeps g laws SameItems) (store (create_order g))
  unfolding create_order assign_id
  create_order-Keeps = record {
    does = λ (o, w). ground (arith, laws.create_law orders (order_to_model o) w);
  }

  -- The row of the payment, then the lines, with the order's own changes between.
  pub Adds-Lines :
      (step : Item → List InventoryModel → List InventoryModel) (s₁ s₂ s₃ s₄ : Vars × g.World)
      → Adds s₁ s₂
      → Keeps g laws SamePayment s₂ s₃
      → Lines g laws step (λ (v : Vars). v.0) s₃ s₄
      → Settles g step (g.tables s₁.1) s₄
  Adds-Lines step (v₁, w₁) (v₂, w₂) (v₃, w₃) (v₄, w₄) (_, same, id, now, add)
        ((items, pay), stays, rest) (vars, moved, kept) =
      (
        id,
        now,
        kept
            ∙ rest
            ∙ add
            ∙ ap
                (λ (q : Payment).
                  paid g w₁ ++ stamp payments now (with_id payments id (payment_to_model q)) ∷ [])
                (sym (ap (λ (v : Vars). v.1) vars ∙ pay)),
        moved
            ∙ ap (each_line step v₃.0.items) (stays ∙ same)
            ∙ ap (λ (v : Vars). each_line step v.0.items (stock g w₁)) (sym vars),
      )

  -- What comes after them.
  pub Settles-later :
      (step : Item → List InventoryModel → List InventoryModel) (w : g.World)
      (s s' : Vars × g.World)
      → Settles g step (g.tables w) s
      → Keeps g laws SamePayment s s'
      → Settles g step (g.tables w) s'
  Settles-later step w ((o, p), w₁) ((o', p'), w') (id, now, add, moved)
        ((items, pay), stays, rest) =
      (
        id,
        now,
        rest
            ∙ add
            ∙ ap
                (λ (q : Payment).
                  paid g w ++ stamp payments now (with_id payments id (payment_to_model q)) ∷ [])
                (sym pay),
        stays ∙ moved ∙ ap (λ (is : List Item). each_line step is (stock g w)) (sym items),
      )

  -- What comes before them.
  pub Settles-earlier :
      (step : Item → List InventoryModel → List InventoryModel) (s s₁ s' : Vars × g.World)
      → Keeps g laws SameOrder s s₁
      → Settles g step (g.tables s₁.1) s'
      → Settles g step (g.tables s.1) s'
  Settles-earlier step (v, w) (v₁, w₁) ((o', p'), w') (_, stays, rest) (id, now, add, moved) = (
    id,
    now,
    add
        ∙ ap
            (λ (ms : List PaymentModel).
              ms ++ stamp payments now (with_id payments id (payment_to_model p')) ∷ [])
            rest,
    moved ∙ ap (each_line step o'.items) stays,
  )

  pub still-SamePayment :
      (s s' : Vars × g.World) → Keeps g laws Unchanged s s' → Keeps g laws SamePayment s s'
  still-SamePayment ((o, p), w) ((o', p'), w') (same, stays, rest) =
      ((ap (λ (v : Vars). v.0.items) same, ap (λ (v : Vars). v.1) same), stays, rest)
