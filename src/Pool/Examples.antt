-- ===== src/Pool/Examples.antt =====
-- A pool with one worker and room for one task: one task is accepted and run, then the pool is stopped.
use backend_golang_task.Prelude.{ℕ, ◌≡◌, ◌≢◌, ◌≤◌, refl, some, [], ◌∷◌, true, Perm, length}
use backend_golang_task.Prelude.Int.{pos}
use backend_golang_task.Workers.{
  Workers, takes, finishes, exits, work, works, launch, close, push, new_channel, offer,
}
use backend_golang_task.Workers.Sound.{IsSound}
use backend_golang_task.Workers.Drain.{measure, Emptied, works-ends}
use backend_golang_task.Pool.{panics, new_pool, start, submit, send, try_submit, stop, returns}
use backend_golang_task.Pool.Schedule.{
  System, Reach, begin, later, starts, launches, submits, sends, moves, stops,
}
use backend_golang_task.Pool.Safety.{reach-IsSound, submit_panics, stop_returns}

abbrev served : (s : System ℕ) × Reach (pos 1) (pos 1) s
unfolding new_pool start submit send work stop offer
served = (
  _,
  later
      (later
        (later
          (later
            (later (later (later (later begin starts) (launches refl)) (submits (some 7)))
              (sends true 0))
            (moves takes refl))
          (moves (finishes 0) refl))
        (stops refl))
      (moves exits refl),
)

reach-IsSound_example : IsSound served.0.pool.tasks
reach-IsSound_example = reach-IsSound served.1

submit_panics_example :
    ((send true 0 served.0.pool).0 ≢ panics) × ((try_submit true (some 8) served.0.pool).0 ≢ panics)
submit_panics_example = submit_panics true 0 (some 8) served.1

stop_returns_example :
    (served.0.pool.waiting ≡ [])
    × (served.0.pool.tasks.queue ≡ [])
    × (served.0.pool.tasks.running ≡ [])
    × Perm served.0.pool.tasks.accepted served.0.pool.tasks.finished
unfolding new_pool start submit send work stop offer returns
stop_returns_example = stop_returns served.1 refl refl refl refl

-- A closed channel with a job in its queue and two workers.
abbrev closing : Workers ℕ
closing = close (push 7 (launch 2 (new_channel 1)))

works-ends_example :
    (length (takes ∷ exits ∷ []) ≤ measure closing)
    × Emptied (record closing { queue = []; running = 7 ∷ []; taken = 7 ∷ []; live = 1 })
unfolding works
works-ends_example = works-ends (takes ∷ exits ∷ []) closing refl refl
