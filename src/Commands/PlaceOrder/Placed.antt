-- ===== src/Commands/PlaceOrder/Placed.antt =====
-- What the first transaction of `process` (internal/application/command/place_order.go) leaves of the
-- orders.
use backend_golang_task.Prelude.{ℕ, ◌≡◌, refl, sym, ap, ◌∙◌, [], ◌∷◌, ◌++◌, ◌==◌, arith}
use backend_golang_task.Errs.{Result, ok, err}
use backend_golang_task.Action.{◌>>=◌, pure}
use backend_golang_task.Order.{Order, Item, mark_reserved, assign_id}
use backend_golang_task.Gorm.Models.{Tables, OrderModel, get, orders, inventories, stamp, with_id}
use backend_golang_task.Gorm.Engine.{Gorm, IsGorm, Created, rewrite, same_id}
use backend_golang_task.Gorm.Inventories.{reserve, can_reserve, reserved_row}
use backend_golang_task.Gorm.Orders.{create_order, update_order, order_to_model, updated_row}
use backend_golang_task.Commands.Memory.{stored, update, store, reading, for_items}
use backend_golang_task.Commands.PlaceOrder.{reserving, reserve_line}
use backend_golang_task.Commands.PlaceOrder.Rows.{rows, for_items-rows}
use backend_golang_task.Commands.PlaceOrder.Stock.{Runs, Does, Then, sequence-Does, Does-ok}

module _ (g : Gorm) where
  -- One row was added to the orders, that of the new order under the id that the order has got, and then
  -- written as the order is.
  abbrev pub Places : Order → Tables → Order × g.World → Type 0
  Places ord d (o', w') =
      (id : ℕ) × (now : ℕ) × (o'.id ≡ (assign_id id ord).id)
      × (get orders (g.tables w')
          ≡ rewrite (same_id orders o'.id) (updated_row o')
              (get orders d ++ stamp orders now (with_id orders id (order_to_model ord)) ∷ []))

  pub Places-like :
      (ord : Order) (d d' : Tables) (o : Order) {w w' : g.World}
      → d ≡ d'
      → g.tables w' ≡ g.tables w
      → Places ord d (o, w)
      → Places ord d' (o, w')
  Places-like ord d d' o begins kept (id, now, named, add) = (
    id,
    now,
    named,
    ap (get orders) kept
        ∙ add
        ∙ ap
            (λ (t : Tables).
              rewrite (same_id orders o.id) (updated_row o)
                (get orders t ++ stamp orders now (with_id orders id (order_to_model ord)) ∷ []))
            begins,
  )

module _ (g : Gorm) (laws : IsGorm g) where
  abbrev Vars : Type 0
  Vars = Order × g.World

  abbrev Adds : Vars → Vars → Type 0
  Adds (o, w) (o', w') =
      (id : ℕ) × (now : ℕ) × (o' ≡ assign_id id o)
      × (rows g laws w'
          ≡ rows g laws w ++ stamp orders now (with_id orders id (order_to_model o)) ∷ [])

  abbrev SameRows : Vars → Vars → Type 0
  SameRows (o, w) (o', w') = (o'.id ≡ o.id) × (rows g laws w' ≡ rows g laws w)

  abbrev WritesRow : Vars → Vars → Type 0
  WritesRow (o, w) (o', w') =
      (o' ≡ o) × (rows g laws w' ≡ rewrite (same_id orders o.id) (updated_row o) (rows g laws w))

  create_order-Adds : Does Adds (store (create_order g))
  unfolding create_order
  create_order-Adds = record {
    does = λ (o, w).
        go o w (g.create orders (order_to_model o) w) (laws.create_law orders (order_to_model o) w);
  }
    where
      go :
          (o : Order) (w : g.World) (r : Result ℕ × g.World)
          → Created g orders (order_to_model o) (g.tables w) r
          → Runs Adds
              (o, w)
              (store
                (λ (o : Order). (λ (_ : g.World). r) >>= λ (id : ℕ). pure (assign_id id o))
                (o, w))
      go o w (ok id, w') (_, _, _, now, e) = (id, now, refl, ap (get orders) e)
      go o w (err x, w') same = tt

  reserve_line-rows : (i : Item) (w : g.World) → rows g laws (reserve_line g i w).1 ≡ rows g laws w
  unfolding reserve
  reserve_line-rows i w = ground (
    arith,
    laws.updates_law inventories (can_reserve i.product_id i.quantity) (reserved_row i.quantity) w,
  )

  lines-SameRows :
      Does SameRows (reading (λ (o : Order). stored (for_items (reserve_line g) o.items)))
  lines-SameRows = record {
    does = λ (o, w).
        go o w (for_items (reserve_line g) o.items w)
          (for_items-rows g laws (reserve_line g) reserve_line-rows o.items w);
  }
    where
      go :
          (o : Order) (w : g.World) (x : Result (Unit {0}) × g.World)
          → rows g laws x.1 ≡ rows g laws w
          → Runs SameRows (o, w) (stored (λ (_ : g.World). x) (o, w))
      go o w (ok _, w') same = (refl, same)
      go o w (err _, w') same = tt

  mark_reserved-SameRows : Does SameRows (update mark_reserved)
  unfolding mark_reserved
  mark_reserved-SameRows = record { does = λ (o, w). ground arith }

  update_order-WritesRow : Does WritesRow (reading (λ (o : Order). stored (update_order g o)))
  unfolding update_order
  update_order-WritesRow = record {
    does = λ (o, w).
        ground
          (arith, laws.updates_law orders (λ (m : OrderModel). m.id == o.id) (updated_row o) w);
  }

  reserving-Does : Does (Then Adds (Then SameRows (Then SameRows WritesRow))) (reserving g)
  unfolding reserving
  reserving-Does =
      sequence-Does create_order-Adds
        (sequence-Does lines-SameRows (sequence-Does mark_reserved-SameRows update_order-WritesRow))

  through :
      (s s₁ s₂ s₃ s' : Vars)
      → Adds s s₁
      → SameRows s₁ s₂
      → SameRows s₂ s₃
      → WritesRow s₃ s'
      → Places g s.0 (g.tables s.1) s'
  through (o, w) (o₁, w₁) (o₂, w₂) (o₃, w₃) (o', w') (id, now, named, add) (id₂, same₂) (id₃, same₃)
        (same, written) =
      (
        id,
        now,
        ap (λ (o : Order). o.id) same ∙ id₃ ∙ id₂ ∙ ap (λ (o : Order). o.id) named,
        written
            ∙ ap (rewrite (same_id orders o₃.id) (updated_row o₃)) (same₃ ∙ same₂ ∙ add)
            ∙ ap
                (λ (o₄ : Order).
                  rewrite (same_id orders o₄.id) (updated_row o₄)
                    (rows g laws w ++ stamp orders now (with_id orders id (order_to_model o)) ∷ []))
                (sym same),
      )

  pub reserving-Places :
      (o : Order) (w : g.World) {a : Unit {0}} {s' : Order × g.World}
      → reserving g (o, w) ≡ (ok a, s')
      → Places g o (g.tables w) s'
  reserving-Places o w {a} {s'} h =
      let (s₁, adds, (s₂, lines, (s₃, marks, writes))) = Does-ok (o, w) reserving-Does h in
      through (o, w) s₁ s₂ s₃ s' adds lines marks writes
