-- ===== src/Seed/Growth.antt =====
-- What cmd/seed/main.go adds to the tables.
use backend_golang_task.Prelude.{
  ℕ, ◌+◌, ◌≤◌, ◌<◌, ◌≡◌, str_eq, eq_iff, String, Bool, if◌then◌else◌, List, [], ◌∷◌, ◌++◌, length,
  select, arith,
}
use backend_golang_task.Errs.{ok}
use backend_golang_task.Gorm.Models.{
  Tables, UserModel, ProductModel, InventoryModel, get, users, products,
}
use backend_golang_task.Prelude.Int.{pos}
use backend_golang_task.Shared.Money.{Money}
use backend_golang_task.User.{User, new_user}
use backend_golang_task.Product.{Product, new_product}
use backend_golang_task.Seed.{UserSeed, ProductSeed}

-- The row of the first stock of a product.
abbrev pub stock_row : ProductSeed → ℕ → InventoryModel
stock_row p id = record {
  id = 0;
  product_id = id;
  available = p.stock;
  reserved = pos 0;
  reorder_level = p.reorder;
  version = pos 0;
}

-- Whether a table has the row of a seed.
abbrev pub HasUser : Tables → UserSeed → Type 0
HasUser d u = 0 < length (select (λ (m : UserModel). str_eq m.email u.email) (get users d))

abbrev pub HasProduct : Tables → ProductSeed → Type 0
HasProduct d p = 0 < length (select (λ (m : ProductModel). str_eq m.sku p.sku) (get products d))

-- Rows are added only.
pub record Grows (d d' : Tables) : Type 0 where
  pub more_users :
      (p : UserModel → Bool) → length (select p (get users d)) ≤ length (select p (get users d'))
  pub more_products :
      (p : ProductModel → Bool)
      → length (select p (get products d)) ≤ length (select p (get products d'))

pub Grows-refl : (d : Tables) → Grows d d
Grows-refl d = record { more_users = λ p. omega arith; more_products = λ p. omega arith }

pub Grows-trans : {d₁ d₂ d₃ : Tables} → Grows d₁ d₂ → Grows d₂ d₃ → Grows d₁ d₃
Grows-trans a b = record {
  more_users = λ p. omega (arith, a.more_users p, b.more_users p);
  more_products = λ p. omega (arith, a.more_products p, b.more_products p);
}

pub length-select_one {ℓ} :
    {A : Type ℓ} (p : A → Bool) (xs : List A) (x : A)
    → length (select p (xs ++ x ∷ [])) ≡ length (select p xs) + (if p x then 1 else 0)
length-select_one p [] x = ground arith
length-select_one p (y ∷ ys) x = ground (arith, length-select_one p ys x)

pub added_product :
    (d d' : Tables) (m : ProductModel)
    → get users d' ≡ get users d
    → get products d' ≡ get products d ++ m ∷ []
    → Grows d d'
added_product d d' m us ps = record {
  more_users = λ p. rw us (omega arith);
  more_products = λ p. rw ps (omega (arith, length-select_one p (get products d) m));
}

pub added_user :
    (d d' : Tables) (m : UserModel)
    → get users d' ≡ get users d ++ m ∷ []
    → get products d' ≡ get products d
    → Grows d d'
added_user d d' m us ps = record {
  more_users = λ p. rw us (omega (arith, length-select_one p (get users d) m));
  more_products = λ p. rw ps (omega arith);
}

pub added-HasUser :
    (d d' : Tables) (u : UserSeed) (m : UserModel)
    → m.email ≡ u.email
    → get users d' ≡ get users d ++ m ∷ []
    → HasUser d' u
added-HasUser d d' u m email us = rw us (
    ground (
      arith,
      eq_iff m.email u.email,
      length-select_one (λ (r : UserModel). str_eq r.email u.email) (get users d) m,
    ))

pub new_user-email :
    (u : UserSeed) (hash : String) {entity : User}
    → new_user u.email hash u.name u.role ≡ ok entity
    → entity.email ≡ u.email
unfolding new_user
new_user-email u hash e = grind arith

pub added-HasProduct :
    (d d' : Tables) (p : ProductSeed) (m : ProductModel)
    → m.sku ≡ p.sku
    → get products d' ≡ get products d ++ m ∷ []
    → HasProduct d' p
added-HasProduct d d' p m sku ps = rw ps (
    ground (
      arith,
      eq_iff m.sku p.sku,
      length-select_one (λ (r : ProductModel). str_eq r.sku p.sku) (get products d) m,
    ))

pub new_product-sku :
    (now : ℕ) (p : ProductSeed) (price : Money) {prod : Product}
    → new_product p.sku p.name p.desc price now ≡ ok prod
    → prod.sku ≡ p.sku
unfolding new_product
new_product-sku now p price e = grind arith
