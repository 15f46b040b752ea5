-- ===== src/Seed/Rows.antt =====
-- The rows that a step of cmd/seed/main.go adds.
use backend_golang_task.Prelude.{ℕ, ◌≡◌, refl, sym, ap, ◌∙◌, subst, String, [], ◌∷◌, ◌++◌, arith}
use backend_golang_task.Errs.{Result, ok, err}
use backend_golang_task.Action.{pure, lift, ◌>>=◌}
use backend_golang_task.Gorm.Models.{
  Tables, UserModel, ProductModel, get, stamp, with_id, users, products, inventories,
}
use backend_golang_task.Gorm.Engine.{Gorm, IsGorm, Created}
use backend_golang_task.Gorm.Orders.{money_or_panic}
use backend_golang_task.Gorm.Users.{create_user, user_to_model}
use backend_golang_task.Gorm.Products.{create_product, product_to_model}
use backend_golang_task.Gorm.Inventories.{save_inventory}
use backend_golang_task.Shared.Money.{Money}
use backend_golang_task.User.{User, new_user}
use backend_golang_task.User
use backend_golang_task.Product.{Product, new_product, assign_id}
use backend_golang_task.Inventory.{new_inventory}
use backend_golang_task.Seed.{UserSeed, ProductSeed, make_user, make_product, stock_made}
use backend_golang_task.Seed.Growth.{
  stock_row, HasUser, HasProduct, Grows, Grows-refl, added_product, added_user, added-HasUser,
  new_user-email, added-HasProduct, new_product-sku,
}

module _ (g : Gorm) where
  -- What a row's creation has done to the tables `d`.
  abbrev pub Adds : Product → Tables → Result Product × g.World → Type 0
  Adds prod d (err _, w') = g.tables w' ≡ d
  Adds prod d (ok _, w') =
      (m : ProductModel) × (m.sku ≡ prod.sku)
      × (get users (g.tables w') ≡ get users d)
      × (get products (g.tables w') ≡ get products d ++ m ∷ [])

  abbrev AddsUser : String → Tables → Result (Unit {0}) × g.World → Type 0
  AddsUser email d (err _, w') = g.tables w' ≡ d
  AddsUser email d (ok _, w') =
      (m : UserModel) × (m.email ≡ email)
      × (get products (g.tables w') ≡ get products d)
      × (get users (g.tables w') ≡ get users d ++ m ∷ [])

  -- A step that only adds rows, and makes `P` true where it succeeds.
  abbrev pub Seeds : {A : Type 0} → (Tables → Type 0) → Tables → Result A × g.World → Type 0
  Seeds P d (err _, w') = Grows d (g.tables w')
  Seeds P d (ok _, w') = Grows d (g.tables w') × P (g.tables w')

  module _ (laws : IsGorm g) where
    create_product-Adds :
        (prod : Product) (w : g.World) → Adds prod (g.tables w) (create_product g prod w)
    unfolding create_product
    create_product-Adds prod w =
        go (g.create products (product_to_model prod) w)
          (laws.create_law products (product_to_model prod) w)
      where
        go :
            (x : Result ℕ × g.World)
            → Created g products (product_to_model prod) (g.tables w) x
            → Adds prod (g.tables w) (◌>>=◌ (λ (_ : g.World). x) (λ id. pure (assign_id id prod)) w)
        go (ok id, w') (_, _, _, now, e) = (
          stamp products now (with_id products id (product_to_model prod)),
          refl,
          ap (get users) e,
          ap (get products) e,
        )
        go (err x, w') e = e

    stock_same :
        (p : ProductSeed) (made : Product) (w : g.World) (r : Result (Unit {0})) (w' : g.World)
        → stock_made g p made w ≡ (r, w')
        → (get users (g.tables w') ≡ get users (g.tables w))
          × (get products (g.tables w') ≡ get products (g.tables w))
    unfolding stock_made new_inventory save_inventory
    stock_same p made w r w' e =
        grind (arith, laws.save_new_law inventories (stock_row p made.id) w refl)

    pub stocked :
        (p : ProductSeed) (m : ProductModel) (d : Tables) (made : Product) (w : g.World)
        → m.sku ≡ p.sku
        → get users (g.tables w) ≡ get users d
        → get products (g.tables w) ≡ get products d ++ m ∷ []
        → Seeds (λ d'. HasProduct d' p) d (stock_made g p made w)
    stocked p m d made w sku us ps = go (stock_made g p made w) refl
      where
        go :
            (x : Result (Unit {0}) × g.World)
            → stock_made g p made w ≡ x
            → Seeds (λ d'. HasProduct d' p) d x
        go (err e, w') is =
            let (us', ps') = stock_same p made w (err e) w' is in
            added_product d (g.tables w') m (us' ∙ us) (ps' ∙ ps)
        go (ok a, w') is =
            let (us', ps') = stock_same p made w (ok a) w' is in
            (
              added_product d (g.tables w') m (us' ∙ us) (ps' ∙ ps),
              added-HasProduct d (g.tables w') p m sku (ps' ∙ ps),
            )

    pub make_product-Seeds :
        (now : ℕ) (p : ProductSeed) (w : g.World)
        → Seeds (λ d'. HasProduct d' p) (g.tables w) (make_product g now p w)
    unfolding make_product
    make_product-Seeds now p w = priced (money_or_panic p.price "USD")
      where
        created :
            (prod : Product) (x : Result Product × g.World)
            → prod.sku ≡ p.sku
            → Adds prod (g.tables w) x
            → Seeds
                (λ d'. HasProduct d' p)
                (g.tables w)
                (◌>>=◌ (λ (_ : g.World). x) (stock_made g p) w)
        created prod (err e, w') sku same =
            subst (Grows (g.tables w)) (sym same) (Grows-refl (g.tables w))
        created prod (ok made, w') sku (m, same, us, ps) =
            stocked p m (g.tables w) made w' (same ∙ sku) us ps

        named :
            (price : Money) (x : Result Product)
            → new_product p.sku p.name p.desc price now ≡ x
            → Seeds
                (λ d'. HasProduct d' p)
                (g.tables w)
                ((lift x >>= λ prod. create_product g prod >>= stock_made g p) w)
        named price (err e) is = Grows-refl (g.tables w)
        named price (ok prod) is =
            created prod (create_product g prod w) (new_product-sku now p price is)
              (create_product-Adds prod w)

        priced :
            (x : Result Money)
            → Seeds
                (λ d'. HasProduct d' p)
                (g.tables w)
                ((lift x >>= λ price. lift (new_product p.sku p.name p.desc price now) >>= λ prod.
                    create_product g prod >>= stock_made g p)
                  w)
        priced (err e) = Grows-refl (g.tables w)
        priced (ok price) = named price _ refl

    create_user-AddsUser :
        (entity : User) (w : g.World)
        → AddsUser entity.email (g.tables w) ((do _ ← create_user g entity; pure tt) w)
    unfolding create_user
    create_user-AddsUser entity w =
        go (g.create users (user_to_model entity) w)
          (laws.create_law users (user_to_model entity) w)
      where
        go :
            (x : Result ℕ × g.World)
            → Created g users (user_to_model entity) (g.tables w) x
            → AddsUser entity.email (g.tables w) (
                ◌>>=◌
                  (◌>>=◌ (λ (_ : g.World). x) (λ id. pure (User.assign_id id entity)))
                  (λ _. pure tt)
                  w)
        go (ok id, w') (_, _, _, now, e) = (
          stamp users now (with_id users id (user_to_model entity)),
          refl,
          ap (get products) e,
          ap (get users) e,
        )
        go (err x, w') e = e

    pub make_user-Seeds :
        (u : UserSeed) (hashed : Result String) (w : g.World)
        → Seeds (λ d'. HasUser d' u) (g.tables w) (make_user g u hashed w)
    unfolding make_user
    make_user-Seeds u (err e) w = Grows-refl (g.tables w)
    make_user-Seeds u (ok hash) w = named (new_user u.email hash u.name u.role) refl
      where
        created :
            (entity : User) (x : Result (Unit {0}) × g.World)
            → entity.email ≡ u.email
            → AddsUser entity.email (g.tables w) x
            → Seeds (λ d'. HasUser d' u) (g.tables w) x
        created entity (err e, w') email same =
            subst (Grows (g.tables w)) (sym same) (Grows-refl (g.tables w))
        created entity (ok made, w') email (m, same, ps, us) = (
          added_user (g.tables w) (g.tables w') m us ps,
          added-HasUser (g.tables w) (g.tables w') u m (same ∙ email) us,
        )

        named :
            (x : Result User)
            → new_user u.email hash u.name u.role ≡ x
            → Seeds
                (λ d'. HasUser d' u)
                (g.tables w)
                ((lift x >>= λ entity. do _ ← create_user g entity; pure tt) w)
        named (err e) is = Grows-refl (g.tables w)
        named (ok entity) is =
            created entity _ (new_user-email u hash is) (create_user-AddsUser entity w)
