-- ===== src/Http/Engine.antt =====
-- internal/interfaces/http/router/router.go: what stands in front of the routes under /api/v1, and the
-- routes beside them.
use backend_golang_task.Prelude.{ℕ, String, Bool, if◌then◌else◌, Option, some, none}
use backend_golang_task.Errs.{Result}
use backend_golang_task.Httpx.{Response, root_body, ok_response}
use backend_golang_task.Http.Health
use backend_golang_task.Http.Middleware.{Limiter, Rates, cors, rate_limit}
use backend_golang_task.Http.Router.{Dependencies, Store, Route, serve}

-- The routes of the engine. What the metrics, the documentation and the upgrade to a websocket answer is
-- not part of it. A route of the API comes with the header `Authorization`.
pub data Page : Type 0 where
  health ready root : Page
  handled : Response → Page
  api : String → Route → Page

pub record Request : Type 0 where
  pub method : String
  pub client : String
  pub page : Page

pub record Engine : Type 1 where
  pub deps : Dependencies
  pub limiter : Limiter
  pub version : String
  pub limited : Bool
  pub ttl : ℕ
  -- The handle of the database, and what it answers to a ping.
  pub database : Option (Result (Result (Unit {0})))

module _ (e : Engine) where
  open e use {deps, limiter, version, limited, ttl, database}

  pub record State : Type 0 where
    pub store : Store deps
    pub rates : Rates limiter

  abbrev pub served : Response × Store deps → Rates limiter → Response × State
  served (r, store) rates = (r, record { store = store; rates = rates })

  -- After the rate limit.
  abbrev unless_refused :
      String → Route → State → Option Response × Rates limiter → Response × State
  unless_refused header r s (some refusal, rates) = (refusal, record s { rates = rates })
  unless_refused header r s (none, rates) = served (serve deps header r s.store) rates

  unfoldable serve_api : String → String → Route → State → Response × State
  unfolding rate_limit serve
  serve_api client header r s =
      if limited
      then unless_refused header r s (rate_limit limiter ttl deps.now client s.rates)
      else served (serve deps header r s.store) s.rates

  unfoldable serve_page : String → Page → State → Response × State
  unfolding serve_api
  serve_page client health s = (Health.live version, s)
  serve_page client ready s = (Health.ready database, s)
  serve_page client root s = (ok_response (root_body version), s)
  serve_page client (handled r) s = (r, s)
  serve_page client (api header r) s = serve_api client header r s

  abbrev unless_preflight : Request → State → Option Response → Response × State
  unfolding serve_page
  unless_preflight req s (some r) = (r, s)
  unless_preflight req s none = serve_page req.client req.page s

  -- A request on the engine: `CORS` answers it, or its page does.
  unfoldable serve_request : Request → State → Response × State
  unfolding serve_page
  serve_request req s = unless_preflight req s (cors req.method)
