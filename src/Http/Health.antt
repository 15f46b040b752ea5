-- ===== src/Http/Health.antt =====
-- internal/interfaces/http/handler/health.go.
use backend_golang_task.Prelude.{String, Option, some, none}
use backend_golang_task.Errs.{Result, ok, err}
use backend_golang_task.Httpx.{Response, live_body, ready_body, unavailable_body, ok_response}

abbrev pub live : String → Response
live version = ok_response (live_body version)

abbrev unavailable : String → Response
unavailable reason = record { status = 503; body = unavailable_body reason }

abbrev pinged : Result (Unit {0}) → Response
pinged (err e) = unavailable "database unreachable"
pinged (ok _) = ok_response ready_body

abbrev pub handled : Result (Result (Unit {0})) → Response
handled (err e) = unavailable "database handle error"
handled (ok ping) = pinged ping

-- `Ready`: the database, if it is configured, its handle, and the answer to the ping.
abbrev pub ready : Option (Result (Result (Unit {0}))) → Response
ready none = unavailable "database not configured"
ready (some handle) = handled handle
