-- ===== src/Commands/CreateProduct/Atomic.antt =====
-- What internal/application/command/create_product.go has written when it answers.
use backend_golang_task.Prelude.{true, ℕ, ◌≡◌, ◌≢◌, refl, sym, ap, ◌∙◌, [], ◌∷◌, ◌++◌, arith}
use backend_golang_task.Prelude.Int.{pos}
use backend_golang_task.Errs.{Result, ok, err}
use backend_golang_task.Action.{>>=-eq-ok}
use backend_golang_task.Shared.Money.{Money, new_money}
use backend_golang_task.Product.{Product, new_product, assign_id}
use backend_golang_task.Inventory.{new_inventory}
use backend_golang_task.Gorm.Models.{
  Tables, InventoryModel, ProductModel, get, put, with_id, stamp, products, inventories,
}
use backend_golang_task.Gorm.Engine.{Gorm, IsGorm, Transacted}
use backend_golang_task.Gorm.Products.{create_product, product_to_model}
use backend_golang_task.Gorm.Inventories.{save_inventory}
use backend_golang_task.Commands.Memory.{stored, store, reading, store-eq-ok, stored-eq-ok}
use backend_golang_task.Commands.CreateProduct.{
  CreateProductInput, stocking, creating, created_with, create_made, create_priced, handle,
}

-- The first stock of a product.
abbrev first_stock : ℕ → ℕ → CreateProductInput → InventoryModel
first_stock id product_id inp = record {
  id = id;
  product_id = product_id;
  available = inp.initial_stock;
  reserved = pos 0;
  reorder_level = inp.reorder_level;
  version = pos 0;
}

module _ (g : Gorm) (laws : IsGorm g) where
  create_product-row :
      (p : Product) (w : g.World) {p' : Product} {w' : g.World}
      → create_product g p w ≡ (ok p', w')
      → (id : ℕ) × (now : ℕ) × (id ≢ 0)
        × (p' ≡ assign_id id p)
        × (g.tables w'
            ≡ put products
                (get products (g.tables w)
                  ++ stamp products now (with_id products id (product_to_model p)) ∷ [])
                (g.tables w))
  unfolding create_product
  create_product-row p w h = grind (arith, laws.create_law products (product_to_model p) w)

  stocking-row :
      (inp : CreateProductInput) (p : Product) (w : g.World) {a : Unit {0}} {w' : g.World}
      → stocking g inp p w ≡ (ok a, w')
      → (id : ℕ) × (g.tables w'
          ≡ put inventories
              (get inventories (g.tables w) ++ first_stock id p.id inp ∷ [])
              (g.tables w))
  unfolding stocking save_inventory new_inventory
  stocking-row inp p w h =
      grind (arith, laws.save_new_law inventories (first_stock 0 p.id inp) w refl)

-- The row of a product as the request describes it.
abbrev catalogued : ℕ → ℕ → CreateProductInput → ProductModel
catalogued id now inp = record {
  id = id;
  sku = inp.sku;
  name = inp.name;
  description = inp.description;
  price_amount = inp.price_amount;
  currency = inp.currency;
  active = true;
  created_at = now;
}

-- The tables with a new product and its stock.
abbrev with_product : ℕ → ℕ → ℕ → ℕ → CreateProductInput → Tables → Tables
with_product id stock_id now stamped_at inp d =
    put inventories (get inventories d ++ first_stock stock_id id inp ∷ [])
      (put products (get products d ++ stamp products stamped_at (catalogued id now inp) ∷ []) d)

made :
    (inp : CreateProductInput) (now : ℕ) (price : Money) (p : Product)
    → new_money inp.price_amount inp.currency ≡ ok price
    → new_product inp.sku inp.name inp.description price now ≡ ok p
    → product_to_model p ≡ catalogued 0 now inp
unfolding new_money new_product
made inp now price p priced h = grind arith

assigned :
    (id : ℕ) (p : Product)
    → p.id ≡ 0
    → product_to_model (assign_id id p) ≡ with_id products id (product_to_model p)
unfolding assign_id
assigned id p h = grind arith

assembled :
    (inp : CreateProductInput) (now id stock_id stamped_at : ℕ) (p : Product) (d d₁ d' : Tables)
    → product_to_model p ≡ catalogued id now inp
    → d₁ ≡ put products (get products d ++ stamp products stamped_at (catalogued id now inp) ∷ []) d
    → d' ≡ put inventories (get inventories d₁ ++ first_stock stock_id p.id inp ∷ []) d₁
    → (p.id ≡ id)
      × (product_to_model p ≡ catalogued p.id now inp)
      × (d' ≡ with_product p.id stock_id now stamped_at inp d)
assembled inp now id stock_id stamped_at p d d₁ d' plain rows₁ rows₂ = grind arith

module _ (g : Gorm) where
  -- How a call ends that began with the tables `d`.
  abbrev pub Creates : CreateProductInput → ℕ → Tables → Result Product × g.World → Type 0
  Creates inp now d (err _, w') = g.tables w' ≡ d
  Creates inp now d (ok p, w') =
      (stock_id : ℕ) × (stamped_at : ℕ) × (p.id ≢ 0)
      × (product_to_model p ≡ catalogued p.id now inp)
      × (g.tables w' ≡ with_product p.id stock_id now stamped_at inp d)

  module _ (laws : IsGorm g) where
    creating-rows :
        (inp : CreateProductInput) (now : ℕ) (p : Product) (w : g.World) {a : Unit {0}}
        {p' : Product} {w' : g.World}
        → product_to_model p ≡ catalogued 0 now inp
        → creating g inp (p, w) ≡ (ok a, (p', w'))
        → Creates inp now (g.tables w) (ok p', w')
    unfolding creating
    creating-rows inp now p w {a} {p'} {w'} plain h =
        let (_, (p₁, w₁), stored_at, rest) =
          >>=-eq-ok (store (create_product g)) (λ _. reading λ q. stored (stocking g inp q)) (p, w)
            h in
        let (id, stamped_at, id≢0, is, rows₁) =
          create_product-row g laws p w (store-eq-ok (create_product g) p w stored_at) in
        let (same, stocked) = stored-eq-ok (stocking g inp p₁) p₁ w₁ rest in
        let (stock_id, rows₂) = stocking-row g laws inp p₁ w₁ stocked in
        let row =
          ap product_to_model same
          ∙ ap product_to_model is
          ∙ assigned id p (ap (λ (m : ProductModel). m.id) plain)
          ∙ ap (with_id products id) plain in
        let (same_id, whole, rows) =
          assembled inp now id stock_id stamped_at p' (g.tables w) (g.tables w₁) (g.tables w') row
            (rows₁
              ∙ ap
                  (λ (m : ProductModel).
                    put products
                      (get products (g.tables w)
                        ++ stamp products stamped_at (with_id products id m) ∷ [])
                      (g.tables w))
                  plain)
            (rows₂
              ∙ ap
                  (λ (q : Product).
                    put inventories
                      (get inventories (g.tables w₁) ++ first_stock stock_id q.id inp ∷ [])
                      (g.tables w₁))
                  (sym same)) in
        (stock_id, stamped_at, (λ e. id≢0 (sym same_id ∙ e)), whole, rows)

    created_with-Creates :
        (inp : CreateProductInput) (now : ℕ) (p : Product) (w : g.World)
        (t : Result (Unit {0}) × (Product × g.World))
        → product_to_model p ≡ catalogued 0 now inp
        → Transacted g (creating g inp) p (g.tables w) t
        → Creates inp now (g.tables w) (created_with g t)
    created_with-Creates inp now p w (err e, (p', w')) plain same = same
    created_with-Creates inp now p w (ok _, (p', w')) plain (begun, done, begins, ran, kept) =
        let (stock_id, stamped_at, id≢0, whole, rows) = creating-rows inp now p begun plain ran in
        (
          stock_id,
          stamped_at,
          id≢0,
          whole,
          kept ∙ rows ∙ ap (with_product p'.id stock_id now stamped_at inp) begins,
        )

    create_made-Creates :
        (inp : CreateProductInput) (now : ℕ) (price : Money) (w : g.World)
        (made_as : Result Product)
        → new_money inp.price_amount inp.currency ≡ ok price
        → new_product inp.sku inp.name inp.description price now ≡ made_as
        → Creates inp now (g.tables w) (create_made g inp made_as w)
    create_made-Creates inp now price w (err e) priced is = refl
    create_made-Creates inp now price w (ok p) priced is =
        created_with-Creates inp now p w _ (made inp now price p priced is)
          (laws.transaction_law (creating g inp) p w)

    create_priced-Creates :
        (inp : CreateProductInput) (now : ℕ) (w : g.World) (priced : Result Money)
        → new_money inp.price_amount inp.currency ≡ priced
        → Creates inp now (g.tables w) (create_priced g inp now priced w)
    create_priced-Creates inp now w (err e) is = refl
    create_priced-Creates inp now w (ok price) is = create_made-Creates inp now price w _ is refl

    -- A product is created together with its first stock: a call that fails, at whatever step, leaves
    -- every table as it was, and one that succeeds has added exactly two rows, that of the product, as
    -- the request describes it and as the answer is, and that of its stock, with the requested number of
    -- units, none of them reserved, under the id that the product has got, which is not 0.
    pub handle-Creates :
        (inp : CreateProductInput) (now : ℕ) (w : g.World)
        → Creates inp now (g.tables w) (handle g inp now w)
    unfolding handle
    handle-Creates inp now w = create_priced-Creates inp now w _ refl
