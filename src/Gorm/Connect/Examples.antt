-- ===== src/Gorm/Connect/Examples.antt =====
-- A database that answers the third ping.
use backend_golang_task.Prelude.{ℕ, zero, suc}
use backend_golang_task.Prelude.Int.{pos}
use backend_golang_task.Errs.{Result, ok, err, foreign}
use backend_golang_task.Config.{Db}
use backend_golang_task.Gorm.Connect.{Server, Waited, wait_for_db, wait_for_db-Waited}

abbrev answer : ℕ → Result (Unit {0}) × ℕ
answer zero = (ok tt, zero)
answer (suc n) = (err (foreign "connection refused"), n)

abbrev starting : Server
starting = record { State = ℕ; ping = answer }

abbrev cfg : Db
cfg = record {
  host = "localhost";
  port = pos 5432;
  user = "postgres";
  password = "";
  name = "orders";
  ssl_mode = "disable";
  max_open_conns = pos 50;
  max_idle_conns = pos 25;
  conn_max_lifetime = pos 0;
  conn_max_idle_time = pos 0;
  connect_retries = pos 10;
  connect_backoff = pos 2;
}

wait_for_db-Waited_example : Waited starting 10 2 (wait_for_db starting cfg 2)
wait_for_db-Waited_example = wait_for_db-Waited starting cfg 2
