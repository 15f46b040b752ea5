-- ===== src/Config/Settings.antt =====
-- The settings of internal/platform/config/config.go that hold texts and whole numbers, with their
-- methods.
use Prim.Native.Char.{code}
use Prim.Native.String.{◌++◌}
use backend_golang_task.Prelude.{
  ℕ, ◌+◌, String, Bool, true, false, ◌&&◌, leb, ◌==◌, if◌then◌else◌, List, [], ◌∷◌, map,
}
use backend_golang_task.Prelude.Int.{ℤ}
use backend_golang_task.Prelude.Decimal.{decimal_ℤ}
use backend_golang_task.Prelude.Parse.{char_codes}

pub record App : Type 0 where
  pub name : String
  pub environment : String
  pub version : String
  pub log_level : String
  pub log_pretty : Bool

pub record Http : Type 0 where
  pub host : String
  pub port : ℤ
  pub read_timeout : ℤ
  pub write_timeout : ℤ
  pub idle_timeout : ℤ
  pub shutdown_timeout : ℤ

pub record Db : Type 0 where
  pub host : String
  pub port : ℤ
  pub user : String
  pub password : String
  pub name : String
  pub ssl_mode : String
  pub max_open_conns : ℤ
  pub max_idle_conns : ℤ
  pub conn_max_lifetime : ℤ
  pub conn_max_idle_time : ℤ
  pub connect_retries : ℤ
  pub connect_backoff : ℤ

pub record Jwt : Type 0 where
  pub secret : String
  pub issuer : String
  pub access_ttl : ℤ

pub record Worker : Type 0 where
  pub order_workers : ℤ
  pub order_queue_size : ℤ
  pub notification_workers : ℤ
  pub notification_queue_size : ℤ
  pub event_workers : ℤ
  pub event_queue_size : ℤ

pub record RabbitMq : Type 0 where
  pub enabled : Bool
  pub host : String
  pub port : ℤ
  pub user : String
  pub password : String
  pub vhost : String
  pub exchange : String

-- `strings.EqualFold` against `production`, to whose letters no other character folds.
abbrev lower : ℕ → ℕ
lower c = if leb b'A' c && leb c b'Z' then c + 32 else c

abbrev same_codes : List ℕ → List ℕ → Bool
same_codes [] [] = true
same_codes (c ∷ cs) (d ∷ ds) = c == d && same_codes cs ds
same_codes [] (d ∷ ds) = false
same_codes (c ∷ cs) [] = false

unfoldable pub is_production : App → Bool
is_production a = same_codes (map lower (char_codes a.environment)) (char_codes "production")

abbrev addr : Http → String
addr h = h.host ++ (":" ++ decimal_ℤ h.port)

abbrev pub dsn : Db → String
dsn d =
    "host="
    ++ (d.host
        ++ (" port="
            ++ (decimal_ℤ d.port
                ++ (" user="
                    ++ (d.user
                        ++ (" password="
                            ++ (d.password
                                ++ (" dbname=" ++ (d.name ++ (" sslmode=" ++ d.ssl_mode))))))))))

-- `strings.TrimPrefix(s, "/")`
abbrev trim_slash : String → String
trim_slash String.[] = ""
trim_slash (String.◌∷◌ c s) = if code c == b'/' then s else String.◌∷◌ c s

abbrev pub url : RabbitMq → String
url r =
    "amqp://"
    ++ (r.user
        ++ (":"
            ++ (r.password
                ++ ("@"
                    ++ (r.host ++ (":" ++ (decimal_ℤ r.port ++ ("/" ++ trim_slash r.vhost))))))))
