-- ===== src/Httpx.antt =====
-- internal/interfaces/http/httpx and internal/interfaces/http/dto: the answers to requests.
use backend_golang_task.Prelude.{ℕ, String, Bool, is_empty, if◌then◌else◌, some, none, List}
use backend_golang_task.Prelude.Int.{ℤ}
use backend_golang_task.Errs.{
  Result, ok, err, Failure, new, text, Kind, internal, validation, not_found, conflict,
  unauthorized, forbidden, out_of_stock, payment_failed, unavailable, kind_of, as_error, is_panic,
}
use backend_golang_task.Queries.DailyReport.{DailyReportResult}

-- `statusFor`
abbrev pub status_for : Kind → ℕ
status_for validation = 400
status_for not_found = 404
status_for conflict = 409
status_for unauthorized = 401
status_for forbidden = 403
status_for out_of_stock = 409
status_for payment_failed = 402
status_for unavailable = 503
status_for internal = 500

abbrev pub kind_text : Kind → String
kind_text internal = "internal"
kind_text validation = "validation"
kind_text not_found = "not_found"
kind_text conflict = "conflict"
kind_text unauthorized = "unauthorized"
kind_text forbidden = "forbidden"
kind_text out_of_stock = "out_of_stock"
kind_text payment_failed = "payment_failed"
kind_text unavailable = "unavailable"

-- `http.StatusText`, at the statuses of `status_for`.
abbrev pub http_text : Kind → String
http_text validation = "Bad Request"
http_text not_found = "Not Found"
http_text conflict = "Conflict"
http_text unauthorized = "Unauthorized"
http_text forbidden = "Forbidden"
http_text out_of_stock = "Conflict"
http_text payment_failed = "Payment Required"
http_text unavailable = "Service Unavailable"
http_text internal = "Internal Server Error"

pub record OrderItemResponse : Type 0 where
  pub product_id : ℕ
  pub sku : String
  pub name : String
  pub unit_price : ℤ
  pub quantity : ℤ
  pub line_subtotal : ℤ

pub record OrderResponse : Type 0 where
  pub id : ℕ
  pub status : String
  pub total_amount : ℤ
  pub currency : String
  pub items : List OrderItemResponse
  pub created_at : ℕ

pub record AdminOrderResponse : Type 0 where
  pub id : ℕ
  pub user_id : ℕ
  pub status : String
  pub items : List OrderItemResponse
  pub total : ℤ
  pub currency : String
  pub failure_reason : String
  pub created_at : ℕ

pub record ProductResponse : Type 0 where
  pub id : ℕ
  pub sku : String
  pub name : String
  pub description : String
  pub price_amount : ℤ
  pub currency : String
  pub active : Bool

pub record InventoryResponse : Type 0 where
  pub product_id : ℕ
  pub available : ℤ
  pub reserved : ℤ
  pub reorder_level : ℤ

pub record UserResponse : Type 0 where
  pub id : ℕ
  pub email : String
  pub full_name : String
  pub role : String

-- The bodies of the answers. A page holds its items, the total, its number and its size.
pub data Body : Type 0 where
  error_body : String → String → Body
  order_body : OrderResponse → Body
  status_body : ℕ → String → Body
  orders_body : List OrderResponse → ℕ → ℤ → ℤ → Body
  admin_orders_body : List AdminOrderResponse → ℕ → ℤ → ℤ → Body
  product_body : ProductResponse → Body
  products_body : List ProductResponse → ℕ → ℤ → ℤ → Body
  inventory_body : InventoryResponse → Body
  low_stock_body : List InventoryResponse → Body
  user_body : UserResponse → Body
  login_body : String → UserResponse → Body
  report_body : DailyReportResult → Body
  pong_body : Body
  live_body : String → Body
  ready_body : Body
  unavailable_body : String → Body
  root_body : String → Body
  no_body : Body

pub record Response : Type 0 where
  pub status : ℕ
  pub body : Body

abbrev pub or_else : String → String → String
or_else text other = if is_empty text then other else text

-- `Error`
unfoldable pub error_response : Failure → Response
error_response e =
    let k = kind_of e in
    record {
      status = status_for k;
      body = elim (as_error e) [
        | none ↦ error_body (kind_text k) (http_text k)
        | some (code, message) ↦
            error_body (or_else code (kind_text k)) (or_else message (http_text k))
      ];
    }

-- `OK` and `Created`
abbrev pub ok_response : Body → Response
ok_response body = record { status = 200; body = body }

abbrev pub created_response : Body → Response
created_response body = record { status = 201; body = body }

-- What `Recovery` (internal/interfaces/http/middleware/middleware.go) answers for a panic.
abbrev pub recovered : Response
recovered = record { status = 500; body = error_body "internal_error" "internal server error" }

-- The answer to an error; a panic does not return to the handler.
abbrev pub failure_response : Failure → Response
failure_response e = if is_panic e then recovered else error_response e

module _ {W : Type 0} where
  -- An error ends the handler with its answer; a value goes into the answer 200.
  abbrev pub answer_with : {A : Type 0} → (A → Response) → Result A × W → Response × W
  answer_with respond (err e, w) = (failure_response e, w)
  answer_with respond (ok a, w) = (respond a, w)

  -- A handler from the id in the path on.
  abbrev pub at_id : Result ℕ → (ℕ → W → Response × W) → W → Response × W
  at_id (err e) rest w = (failure_response e, w)
  at_id (ok id) rest w = rest id w

  -- A handler from the bound request on; the code is the one of the binder's error.
  abbrev pub with_body :
      {R : Type 0} → String → Result R → (R → W → Response × W) → W → Response × W
  with_body code (err e) rest w = (failure_response (new validation code (text e)), w)
  with_body code (ok req) rest w = rest req w
