-- ===== src/Config.antt =====
-- internal/platform/config/config.go: the configuration that the environment gives. A file .env has
-- been read into the environment before.
mod Settings
mod Variables
pub mod Safe
pub mod Examples
unfoldable pub use Settings.*
pub use Variables.*
use Prim.Native.Char.{code}
use Prim.Native.String.{◌++◌}
use backend_golang_task.Prelude.{
  ℕ, ◌+◌, ◌*◌, ◌/◌, ◌%◌, String, str_eq, is_empty, Bool, true, false, not, ◌&&◌, ◌||◌, ltb, leb,
  ◌==◌, if◌then◌else◌, Option, some, none, List, [], ◌∷◌, map,
}
use backend_golang_task.Prelude.Int.{ℤ, pos, ltb_ℤ}
use backend_golang_task.Prelude.Decimal.{decimal_ℤ}
use backend_golang_task.Prelude.Parse.{atoi, parse_bool, byte_len, char_codes}
use backend_golang_task.Errs.{Result, ok, err, Failure, foreign, fail_if, ◌>>◌}

-- float64 and time.ParseDuration: a float is read from a text, made from a literal `n / 10 ^ k`, and
-- compared; a duration is its nanoseconds.
pub record Numbers : Type 1 where
  pub Float : Type 0
  pub parse_float : String → Option Float
  pub literal : ℕ → ℕ → Float
  pub less : Float → Float → Bool
  pub parse_duration : String → Option ℤ

module _ (n : Numbers) where
  open n use {Float, parse_float, literal, less, parse_duration}

  pub record RateLimit : Type 0 where
    pub enabled : Bool
    pub rps : Float
    pub burst : ℤ
    pub ttl : ℤ

  pub record Payment : Type 0 where
    pub provider : String
    pub failure_rate : Float
    pub min_latency : ℤ
    pub max_latency : ℤ
    pub max_attempts : ℤ
    pub retry_backoff : ℤ

  pub record Config : Type 0 where
    pub app : App
    pub http : Http
    pub db : Db
    pub jwt : Jwt
    pub rate_limit : RateLimit
    pub worker : Worker
    pub payment : Payment
    pub rabbit_mq : RabbitMq

  abbrev get_float : Env → String → Float → Float
  get_float env key fallback = read_or parse_float fallback (env key)

  abbrev get_duration : Env → String → ℤ → ℤ
  get_duration env key fallback = read_or parse_duration fallback (env key)

  -- The literal of `Load`.
  abbrev pub from_env : Env → Config
  from_env env = record {
    app = record {
      name = get_string env "APP_NAME" "order-processing";
      environment = get_string env "APP_ENV" "development";
      version = get_string env "APP_VERSION" "dev";
      log_level = get_string env "LOG_LEVEL" "info";
      log_pretty = get_bool env "LOG_PRETTY" true;
    };
    http = record {
      host = get_string env "HTTP_HOST" "0.0.0.0";
      port = get_int env "HTTP_PORT" (pos 8080);
      read_timeout = get_duration env "HTTP_READ_TIMEOUT" (seconds 15);
      write_timeout = get_duration env "HTTP_WRITE_TIMEOUT" (seconds 15);
      idle_timeout = get_duration env "HTTP_IDLE_TIMEOUT" (seconds 60);
      shutdown_timeout = get_duration env "HTTP_SHUTDOWN_TIMEOUT" (seconds 20);
    };
    db = record {
      host = get_string env "DB_HOST" "localhost";
      port = get_int env "DB_PORT" (pos 5432);
      user = get_string env "DB_USER" "postgres";
      password = get_string env "DB_PASSWORD" "";
      name = get_string env "DB_NAME" "orders";
      ssl_mode = get_string env "DB_SSLMODE" "disable";
      max_open_conns = get_int env "DB_MAX_OPEN_CONNS" (pos 50);
      max_idle_conns = get_int env "DB_MAX_IDLE_CONNS" (pos 25);
      conn_max_lifetime = get_duration env "DB_CONN_MAX_LIFETIME" (seconds 3600);
      conn_max_idle_time = get_duration env "DB_CONN_MAX_IDLE_TIME" (seconds 1800);
      connect_retries = get_int env "DB_CONNECT_RETRIES" (pos 10);
      connect_backoff = get_duration env "DB_CONNECT_BACKOFF" (seconds 2);
    };
    jwt = record {
      secret = get_string env "JWT_SECRET" "";
      issuer = get_string env "JWT_ISSUER" "order-processing";
      access_ttl = get_duration env "JWT_ACCESS_TTL" (seconds 86400);
    };
    rate_limit = record {
      enabled = get_bool env "RATE_LIMIT_ENABLED" true;
      rps = get_float env "RATE_LIMIT_RPS" (literal 20 0);
      burst = get_int env "RATE_LIMIT_BURST" (pos 40);
      ttl = get_duration env "RATE_LIMIT_TTL" (seconds 600);
    };
    worker = record {
      order_workers = get_int env "ORDER_WORKERS" (pos 8);
      order_queue_size = get_int env "ORDER_QUEUE_SIZE" (pos 1024);
      notification_workers = get_int env "NOTIFICATION_WORKERS" (pos 4);
      notification_queue_size = get_int env "NOTIFICATION_QUEUE_SIZE" (pos 2048);
      event_workers = get_int env "EVENT_WORKERS" (pos 4);
      event_queue_size = get_int env "EVENT_QUEUE_SIZE" (pos 2048);
    };
    payment = record {
      provider = get_string env "PAYMENT_PROVIDER" "mock";
      failure_rate = get_float env "PAYMENT_FAILURE_RATE" (literal 1 1);
      min_latency = get_duration env "PAYMENT_MIN_LATENCY" (millis 20);
      max_latency = get_duration env "PAYMENT_MAX_LATENCY" (millis 120);
      max_attempts = get_int env "PAYMENT_MAX_ATTEMPTS" (pos 3);
      retry_backoff = get_duration env "PAYMENT_RETRY_BACKOFF" (millis 50);
    };
    rabbit_mq = record {
      enabled = get_bool env "RABBITMQ_ENABLED" false;
      host = get_string env "RABBITMQ_HOST" "rabbitmq";
      port = get_int env "RABBITMQ_PORT" (pos 5672);
      user = get_string env "RABBITMQ_USER" "guest";
      password = get_string env "RABBITMQ_PASSWORD" "";
      vhost = get_string env "RABBITMQ_VHOST" "/";
      exchange = get_string env "RABBITMQ_EXCHANGE" "orders.events";
    };
  }

  -- A secret for development, where none is given.
  abbrev pub with_secret : Option (List ℕ) → Config → Config
  with_secret random c =
      if is_empty c.jwt.secret && not (is_production c.app)
      then record c { jwt = record (c.jwt) { secret = random_secret random } }
      else c

  unfoldable pub validate : Config → Result (Unit {0})
  validate c = do
    fail_if (is_empty c.jwt.secret)
        (foreign "JWT_SECRET is required (provide it via the environment)")
    fail_if (is_production c.app && ltb (byte_len c.jwt.secret) 32)
        (foreign "JWT_SECRET must be at least 32 bytes in production")
    fail_if (less c.payment.failure_rate (literal 0 0) || less (literal 1 0) c.payment.failure_rate)
        (foreign "PAYMENT_FAILURE_RATE must be between 0 and 1")
    fail_if (ltb_ℤ c.worker.order_workers (pos 1)) (foreign "ORDER_WORKERS must be at least 1")
    ok tt

  abbrev pub checked : Config → Result (Unit {0}) → Result Config
  checked c (err e) = err e
  checked c (ok _) = ok c

  -- `Load`, with the bytes that `rand.Read` would draw.
  unfoldable pub load : Env → Option (List ℕ) → Result Config
  unfolding validate
  load env random = let c = with_secret random (from_env env) in checked c (validate c)
