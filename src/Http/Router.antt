-- ===== src/Http/Router.antt =====
-- internal/interfaces/http/router/router.go: the routes under /api/v1, with `Admin.Register` of
-- internal/interfaces/http/handler/admin_handler.go. A request names its route, with what gin has read
-- from the path, the query and the body. `serve` is what lies behind the rate limiter
-- (Http/Engine).
pub mod Guarded
mod Examples
use backend_golang_task.Prelude.{ℕ, String, Bool, Option, some, none}
use backend_golang_task.Prelude.Int.{ℤ}
use backend_golang_task.Errs.{Result, ok, err}
use backend_golang_task.Ports.{PaymentGateway, PasswordHasher, TokenIssuer, TokenVerifier}
use backend_golang_task.Gorm.Engine.{Gorm}
use backend_golang_task.Commands.RegisterUser.{RegisterUserInput}
use backend_golang_task.Commands.CreateProduct.{CreateProductInput}
use backend_golang_task.Commands.UpdateProduct.{UpdateProductInput}
use backend_golang_task.Httpx.{Response, pong_body, ok_response, error_response}
use backend_golang_task.Http.{Caller, require_admin, get_order, order_status, cancel_order}
use backend_golang_task.Http.Orders.{PlaceOrderRequest, place_order}
use backend_golang_task.Http.Orders
use backend_golang_task.Http.Products
use backend_golang_task.Http.Users.{LoginRequest, UpdateUserRequest}
use backend_golang_task.Http.Users
use backend_golang_task.Http.Admin
use backend_golang_task.Http.Middleware.{auth}

-- The routes of the group `v1`.
pub data OpenRoute : Type 0 where
  ping : OpenRoute
  post_auth_register : Result RegisterUserInput → OpenRoute
  post_auth_login : Result LoginRequest → OpenRoute
  post_users : Result RegisterUserInput → OpenRoute
  get_products : Option ℤ → Option ℤ → OpenRoute
  get_product : Option ℕ → OpenRoute

-- The routes of the group `authed`.
pub data AuthedRoute : Type 0 where
  get_user : Option ℕ → AuthedRoute
  put_user : Option ℕ → Result UpdateUserRequest → AuthedRoute
  get_product_inventory : Option ℕ → AuthedRoute
  post_orders : Result PlaceOrderRequest → String → AuthedRoute
  get_orders : Option ℤ → Option ℤ → AuthedRoute
  get_order_by_id : Option ℕ → AuthedRoute
  put_order_cancel : Option ℕ → AuthedRoute
  get_order_status : Option ℕ → AuthedRoute

-- The routes of the group `admin`.
pub data AdminRoute : Type 0 where
  post_products : Result CreateProductInput → AdminRoute
  put_product : Option ℕ → Result UpdateProductInput → AdminRoute
  get_admin_orders : Option ℤ → Option ℤ → AdminRoute
  put_admin_order_status : Option ℕ → Result String → AdminRoute
  get_admin_daily_report : String → AdminRoute
  get_admin_low_stock : AdminRoute

pub data Route : Type 0 where
  open_route : OpenRoute → Route
  authed_route : AuthedRoute → Route
  admin_route : AdminRoute → Route

-- What `bootstrap` has built the handlers with, and what a request meets: the clock's reading, a fresh
-- uuid, and whether the pool accepts a task.
pub record Dependencies : Type 1 where
  pub gorm : Gorm
  pub gateway : PaymentGateway
  pub hasher : PasswordHasher
  pub issuer : TokenIssuer
  pub verifier : TokenVerifier
  pub attempts : ℤ
  pub now : ℕ
  pub fresh : String
  pub accepts : Bool

module _ (deps : Dependencies) where
  open deps use {gorm, gateway, hasher, issuer, verifier, attempts, now, fresh, accepts}

  pub record Store : Type 0 where
    pub world : gorm.World
    pub hashes : hasher.State
    pub charges : gateway.State

  -- A handler that uses the database only, and one that also hashes a password.
  abbrev on_world : (gorm.World → Response × gorm.World) → Store → Response × Store
  on_world f s = let (r, w) = f s.world in (r, record s { world = w })

  abbrev on_hashes :
      (gorm.World × hasher.State → Response × gorm.World × hasher.State) → Store → Response × Store
  on_hashes f s = let (r, w, h) = f (s.world, s.hashes) in (r, record s { world = w; hashes = h })

  unfoldable pub serve_open : OpenRoute → Store → Response × Store
  serve_open ping s = (ok_response pong_body, s)
  serve_open (post_auth_register req) s = on_hashes (Users.register gorm hasher req) s
  serve_open (post_auth_login req) s = on_world (Users.login gorm hasher issuer req) s
  serve_open (post_users req) s = on_hashes (Users.create gorm hasher req) s
  serve_open (get_products number size) s = on_world (Products.list gorm number size) s
  serve_open (get_product id) s = on_world (Products.get gorm id) s

  unfoldable pub serve_authed : Caller → AuthedRoute → Store → Response × Store
  serve_authed c (get_user id) s = on_world (Users.get gorm id) s
  serve_authed c (put_user id req) s = on_world (Users.update gorm id req) s
  serve_authed c (get_product_inventory id) s = on_world (Products.inventory gorm id) s
  serve_authed c (post_orders req key) s =
      let (r, w, g) =
        place_order gorm gateway attempts now accepts (some c) req key fresh (s.world, s.charges) in
      (r, record s { world = w; charges = g })
  serve_authed c (get_orders number size) s =
      on_world (Orders.list_orders gorm (some c) number size) s
  serve_authed c (get_order_by_id id) s = on_world (get_order gorm (some c) id) s
  serve_authed c (put_order_cancel id) s = on_world (cancel_order gorm (some c) id) s
  serve_authed c (get_order_status id) s = on_world (order_status gorm (some c) id) s

  unfoldable pub serve_admin : AdminRoute → Store → Response × Store
  serve_admin (post_products req) = on_world (Products.create gorm now req)
  serve_admin (put_product id req) = on_world (Products.update gorm id req)
  serve_admin (get_admin_orders number size) = on_world (Admin.list_orders gorm number size)
  serve_admin (put_admin_order_status id req) = on_world (Admin.update_order_status gorm id req)
  serve_admin (get_admin_daily_report date) = on_world (Admin.daily_report gorm date)
  serve_admin get_admin_low_stock = on_world (Admin.list_low_stock gorm)

  -- A group behind `Auth`, and one behind `Auth` and `RequireAdmin`.
  abbrev pub behind_auth :
      Result Caller → (Caller → Store → Response × Store) → Store → Response × Store
  behind_auth (err e) rest s = (error_response e, s)
  behind_auth (ok c) rest s = rest c s

  abbrev pub behind_admin : Option Response → (Store → Response × Store) → Store → Response × Store
  behind_admin (some refusal) rest s = (refusal, s)
  behind_admin none rest s = rest s

  -- `header` is the header `Authorization`.
  unfoldable pub serve : String → Route → Store → Response × Store
  unfolding auth require_admin serve_open serve_authed serve_admin
  serve header (open_route r) s = serve_open r s
  serve header (authed_route r) s = behind_auth (auth verifier header) (λ c. serve_authed c r) s
  serve header (admin_route r) s =
      behind_auth (auth verifier header)
        (λ c. behind_admin (require_admin (some c)) (serve_admin r)) s
