-- ===== src/Bootstrap/Examples.antt =====
-- The service with the default configuration, and a broker that is not there.
use backend_golang_task.Prelude.{ℕ, ◌≡◌, refl, some, none}
use backend_golang_task.Errs.{ok}
use backend_golang_task.Config.{from_env}
use backend_golang_task.Config.Examples.{tenths, production, loads_production}
use backend_golang_task.Rabbit.Examples.{lame, link}
use backend_golang_task.Bootstrap.{App, assembled, new_app, stop_app}
use backend_golang_task.Bootstrap.Starting.{IsStarted, IsStopped, new_app-IsStarted}

abbrev started : App tenths lame ℕ
started = assembled tenths lame ℕ (from_env tenths production) (link 0) (link 0)

made :
    new_app tenths lame ℕ (from_env tenths production) (ok tt) (ok tt) (link 0) (link 0)
    ≡ ok started
unfolding new_app
made = refl

new_app-IsStarted_example :
    IsStarted tenths lame ℕ (from_env tenths production) started
    × ((a' : App tenths lame ℕ) × (stop_app tenths lame ℕ (ok tt) started ≡ some a')
        × IsStopped tenths lame ℕ a')
new_app-IsStarted_example =
    new_app-IsStarted tenths lame ℕ (link 0) (link 0) refl refl production none (ok tt) (ok tt)
      loads_production made
