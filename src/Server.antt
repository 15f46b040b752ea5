-- ===== src/Server.antt =====
-- internal/platform/server/server.go and cmd/server/main.go: the process of the service, from its
-- configuration to its exit.
use Prim.Native.String.{◌++◌}
use backend_golang_task.Prelude.{ℕ, String, is_empty, ◌==◌, if◌then◌else◌, Option, some, none, List}
use backend_golang_task.Errs.{Result, ok, err, Failure}
use backend_golang_task.Config.{Numbers, Config, Env, load}
use backend_golang_task.Rabbit.{Amqp, Link}
use backend_golang_task.Bootstrap.{App, new_app, stop_app}

-- What `Run` waits for: an error of `ListenAndServe` other than that of a closed server, or the signal,
-- with the answer of `Shutdown`.
pub data Event : Type 0 where
  listen_failed : Failure → Event
  signalled : Result (Unit {0}) → Event

-- `Server.Run`
abbrev run_server : Event → Result (Unit {0})
run_server (listen_failed e) = err e
run_server (signalled shutdown) = shutdown

module _ (n : Numbers) (lib : Amqp) (Task : Type 0) where
  -- How `run` of the command ends: its answer, and the service after the deferred `Stop`, if there was one.
  pub record Exit : Type 0 where
    pub answer : Result (Unit {0})
    pub stopped : Option (Option (App n lib Task))

  -- `handle` is what `db.DB()` answers at the end.
  abbrev run_app : Result (Unit {0}) → Event → Result (App n lib Task) → Exit
  unfolding stop_app
  run_app handle event (err e) = record { answer = err e; stopped = none }
  run_app handle event (ok a) = record {
    answer = run_server event;
    stopped = some (stop_app n lib Task handle a);
  }

  abbrev run_config :
      Result (Unit {0})
      → Result (Unit {0})
      → Link lib
      → Link lib
      → Result (Unit {0})
      → Event
      → Result (Config n)
      → Exit
  unfolding new_app stop_app
  run_config opened migration p c handle event (err e) = record { answer = err e; stopped = none }
  run_config opened migration p c handle event (ok cfg) =
      run_app handle event (new_app n lib Task cfg opened migration p c)

  -- `run` of cmd/server/main.go.
  unfoldable pub run :
      Env
      → Option (List ℕ)
      → Result (Unit {0})
      → Result (Unit {0})
      → Link lib
      → Link lib
      → Result (Unit {0})
      → Event
      → Exit
  unfolding load new_app stop_app
  run env random opened migration p c handle event =
      run_config opened migration p c handle event (load n env random)

-- The address that `healthcheck` asks, and its exit code for the answer's status.
abbrev health_url : String → String
health_url port = "http://127.0.0.1:" ++ ((if is_empty port then "8080" else port) ++ "/health")

abbrev healthcheck : Result ℕ → ℕ
healthcheck (err e) = 1
healthcheck (ok status) = if status == 200 then 0 else 1

-- The exit code of `main`.
abbrev exit_code : Result (Unit {0}) → ℕ
exit_code (err e) = 1
exit_code (ok _) = 0
