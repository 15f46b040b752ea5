-- ===== src/Seed.antt =====
-- cmd/seed/main.go: the accounts and the products that a new database gets, from the point at which it
-- is open and migrated. A row is written only if there is none under its e-mail or SKU.
pub mod Growth
pub mod Rows
pub mod Products
pub mod Users
pub mod Twice
mod Examples
use backend_golang_task.Prelude.{
  ℕ, suc, ltb, str_eq, String, Bool, true, false, if◌then◌else◌, List, [], ◌∷◌,
}
use backend_golang_task.Prelude.Int.{ℤ, pos}
use backend_golang_task.Errs.{Result, ok, err}
use backend_golang_task.Action.{Action, pure, lift, ◌>>=◌, ◌>>◌}
use backend_golang_task.User.{User, new_user}
use backend_golang_task.Product.{Product, new_product}
use backend_golang_task.Inventory.{new_inventory}
use backend_golang_task.Ports.{PasswordHasher}
use backend_golang_task.Gorm.Models.{users, products}
use backend_golang_task.Gorm.Engine.{Gorm}
use backend_golang_task.Gorm.Orders.{money_or_panic}
use backend_golang_task.Gorm.Users.{create_user}
use backend_golang_task.Gorm.Products.{create_product}
use backend_golang_task.Gorm.Inventories.{save_inventory}

pub record UserSeed : Type 0 where
  pub email : String
  pub password : String
  pub name : String
  pub role : String

pub record ProductSeed : Type 0 where
  pub sku : String
  pub name : String
  pub desc : String
  pub price : ℤ
  pub stock : ℤ
  pub reorder : ℤ

module _ (g : Gorm) where
  open g use {World, count}

  -- What follows a count that found nothing: the rows are made.
  abbrev pub unless_counted : Action World (Unit {0}) → ℕ → Action World Bool
  unless_counted make n = if ltb 0 n then pure false else (do make; pure true)

  -- The account, from its hash on.
  unfoldable pub make_user : UserSeed → Result String → Action World (Unit {0})
  make_user u hashed = do
    hash ← lift hashed
    entity ← lift (new_user u.email hash u.name u.role)
    _ ← create_user g entity
    pure tt

  -- The stock of the product that has just been created.
  unfoldable pub stock_made : ProductSeed → Product → Action World (Unit {0})
  stock_made p made = do inv ← lift (new_inventory made.id p.stock p.reorder); save_inventory g inv

  -- `now` is the clock's reading.
  unfoldable pub make_product : ℕ → ProductSeed → Action World (Unit {0})
  unfolding stock_made
  make_product now p = do
    price ← lift (money_or_panic p.price "USD")
    prod ← lift (new_product p.sku p.name p.desc price now)
    made ← create_product g prod
    stock_made p made

  unfoldable pub seed_product : ℕ → ProductSeed → Action World Bool
  unfolding make_product
  seed_product now p =
      count products (λ m. str_eq m.sku p.sku) >>= unless_counted (make_product now p)

  -- The loop, which counts the products that were made.
  unfoldable pub seed_products : (ProductSeed → ℕ) → List ProductSeed → Action World ℕ
  unfolding seed_product
  seed_products clock [] = pure 0
  seed_products clock (p ∷ ps) = do
    made ← seed_product (clock p) p
    n ← seed_products clock ps
    pure (if made then suc n else n)

  module _ (h : PasswordHasher) where
    -- After the count. The password is hashed only where there is no account.
    abbrev pub seed_counted : UserSeed → Result ℕ × World → h.State → Result Bool × World × h.State
    seed_counted u (err e, w) s = (err e, w, s)
    seed_counted u (ok n, w) s =
        if ltb 0 n
        then (ok false, w, s)
        else let (hashed, s') = h.hash u.password s in
          let (r, w') = (make_user u hashed >> pure true) w in (r, w', s')

    unfoldable pub seed_user : UserSeed → World × h.State → Result Bool × World × h.State
    unfolding make_user
    seed_user u (w, s) = seed_counted u (count users (λ m. str_eq m.email u.email) w) s

    abbrev pub counting : Bool → Result ℕ × World × h.State → Result ℕ × World × h.State
    counting made (err e, w, s) = (err e, w, s)
    counting made (ok n, w, s) = (ok (if made then suc n else n), w, s)

    abbrev pub seed_rest :
        (World × h.State → Result ℕ × World × h.State)
        → Result Bool × World × h.State
        → Result ℕ × World × h.State
    seed_rest rest (err e, w, s) = (err e, w, s)
    seed_rest rest (ok made, w, s) = counting made (rest (w, s))

    unfoldable pub seed_users : List UserSeed → World × h.State → Result ℕ × World × h.State
    unfolding seed_user
    seed_users [] (w, s) = (ok 0, w, s)
    seed_users (u ∷ us) ws = seed_rest (seed_users us) (seed_user u ws)

    abbrev pub both_counts : ℕ → Result ℕ × World → h.State → Result (ℕ × ℕ) × World × h.State
    both_counts created_users (err e, w) s = (err e, w, s)
    both_counts created_users (ok created_products, w) s =
        (ok (created_users, created_products), w, s)

    abbrev pub run_products :
        (ProductSeed → ℕ)
        → List ProductSeed
        → Result ℕ × World × h.State
        → Result (ℕ × ℕ) × World × h.State
    run_products clock ps (err e, w, s) = (err e, w, s)
    run_products clock ps (ok created_users, w, s) =
        both_counts created_users (seed_products clock ps w) s

    -- `run` once the database is migrated: how many accounts and products were created.
    unfoldable pub run :
        List UserSeed
        → List ProductSeed
        → (ProductSeed → ℕ)
        → World × h.State
        → Result (ℕ × ℕ) × World × h.State
    unfolding seed_users seed_products
    run us ps clock ws = run_products clock ps (seed_users us ws)

abbrev seeded_user : String → String → String → String → UserSeed
seeded_user email password name role = record {
  email = email;
  password = password;
  name = name;
  role = role;
}

abbrev seeded_product : String → String → String → ℕ → ℕ → ℕ → ProductSeed
seeded_product sku name desc price stock reorder = record {
  sku = sku;
  name = name;
  desc = desc;
  price = pos price;
  stock = pos stock;
  reorder = pos reorder;
}

abbrev pub seed_data_users : List UserSeed
seed_data_users =
    seeded_user "admin@ex.com" "adminpass123" "Admin User" "admin"
    ∷ seeded_user "cathy@ex.com" "custpass123" "Cathy Customer" "customer"
    ∷ seeded_user "dave@ex.com" "custpass123" "Dave Customer" "customer"
    ∷ seeded_user "erin@ex.com" "custpass123" "Erin Customer" "customer"
    ∷ []

abbrev pub seed_data_products : List ProductSeed
seed_data_products =
    seeded_product "SKU-1000" "Mechanical Keyboard" "Hot-swappable RGB mechanical keyboard" 8999 50
      10
    ∷ seeded_product "SKU-1001" "Wireless Mouse" "Ergonomic wireless mouse" 2499 100 20
    ∷ seeded_product "SKU-1002" "27in 4K Monitor" "27-inch 4K IPS display" 24999 15 5
    ∷ seeded_product "SKU-1003" "USB-C Hub" "7-in-1 USB-C hub" 3999 3 5
    ∷ seeded_product "SKU-1004" "Laptop Stand" "Aluminium laptop stand" 4599 0 5
    ∷ seeded_product "SKU-1005" "1080p Webcam" "Full-HD webcam with microphone" 5999 8 10
    ∷ seeded_product "SKU-1006" "LED Desk Lamp" "Dimmable LED desk lamp" 1999 200 25
    ∷ seeded_product "SKU-1007" "ANC Headphones" "Noise-cancelling over-ear headphones" 19999 1 3
    ∷ seeded_product "SKU-1008" "Standing Desk" "Electric sit-stand desk" 39999 12 4
    ∷ seeded_product "SKU-1009" "Ergonomic Chair" "Mesh ergonomic office chair" 28999 7 6
    ∷ []
