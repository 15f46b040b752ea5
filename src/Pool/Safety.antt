-- ===== src/Pool/Safety.antt =====
-- What holds of the pool of pkg/concurrency/workerpool.go at every time, and when `Stop` returns.
use backend_golang_task.Prelude.{
  ℕ, ◌≢◌, Bool, true, false, if◌then◌else◌, ◌≡◌, refl, ◌∙◌, Option, some, none, List, [], ◌∷◌, Perm,
  arith,
}
use backend_golang_task.Prelude.Int.{ℤ}
use backend_golang_task.Workers.{Sent, sent, full, on_closed, offer, remove_at}
use backend_golang_task.Workers.Sound.{IsSound}
use backend_golang_task.Workers.Frame.{offer-panics}
use backend_golang_task.Workers.Drain.{all_finished}
use backend_golang_task.Pool.{
  Pool, Outcome, refused, waits, panics, send, try_submit, returns, sent_waiting, tried,
}
use backend_golang_task.Pool.Schedule.{System, Reach, IsOrderly, reach-IsOrderly}

module _ {A : Type 0} where
  -- Under every interleaving of calls and workers the pool's channel keeps its bound, starts the tasks
  -- in the order in which they were accepted, and runs each of them once.
  pub reach-IsSound : {n k : ℤ} {s : System A} → Reach n k s → IsSound s.pool.tasks
  reach-IsSound r = (reach-IsOrderly r).sound

  abbrev Calm : Outcome × Pool A → Type 0
  Calm r = r.0 ≢ panics

  -- What an open channel and a stopped pool answer.
  sent_waiting-panics :
      (rest : List A) (p : Pool A) (r : Sent A) → r ≢ on_closed → (sent_waiting rest p r).0 ≢ panics
  sent_waiting-panics rest p (sent w) n e = cc
  sent_waiting-panics rest p full n e = cc
  sent_waiting-panics rest p on_closed n e = n refl

  tried-panics : (p : Pool A) (r : Sent A) → r ≢ on_closed → (tried p r).0 ≢ panics
  tried-panics p (sent w) n e = cc
  tried-panics p full n e = cc
  tried-panics p on_closed n e = n refl

  taken-panics :
      (ready : Bool) (p : Pool A) (r : Option (A × List A))
      → p.tasks.closed ≡ false
      → Calm (elim r [
        | none ↦ (waits, p)
        | some (task, rest) ↦ sent_waiting rest p (offer ready task p.tasks)
      ])
  taken-panics ready p none opened = λ e. cc
  taken-panics ready p (some (task, rest)) opened =
      sent_waiting-panics rest p _ (offer-panics ready task p.tasks opened)

  send-panics :
      (ready : Bool) (i : ℕ) (s : System A) → IsOrderly s → (send ready i s.pool).0 ≢ panics
  unfolding send
  send-panics ready i s h = go s.pool.stopped refl s.pool.waiting refl
    where
      go :
          (stopped : Bool)
          → s.pool.stopped ≡ stopped
          → (waiting : List A) → s.pool.waiting ≡ waiting
          → (send ready i s.pool).0 ≢ panics
      go true e [] w = grind (arith, w)
      go true e (x ∷ xs) w = grind (arith, h.unlocked e, w)
      go false e waiting w = taken-panics ready s.pool (remove_at i s.pool.waiting) (h.closing ∙ e)

  try_submit-panics :
      (ready : Bool) (task : Option A) (s : System A)
      → IsOrderly s
      → (try_submit ready task s.pool).0 ≢ panics
  unfolding try_submit
  try_submit-panics ready none s h = λ e. cc
  try_submit-panics ready (some task) s h = go s.pool.stopped refl
    where
      go :
          (stopped : Bool)
          → s.pool.stopped ≡ stopped
          → Calm
              (if stopped then (refused, s.pool) else tried s.pool (offer ready task s.pool.tasks))
      go true e = λ x. cc
      go false e = tried-panics s.pool _ (offer-panics ready task s.pool.tasks (h.closing ∙ e))

  -- No submission ever sends on the closed channel, which would be a panic: not one that has passed the
  -- test on the flag before the pool is stopped, and none that comes later.
  pub submit_panics :
      {n k : ℤ} {s : System A} (ready : Bool) (i : ℕ) (task : Option A)
      → Reach n k s
      → ((send ready i s.pool).0 ≢ panics) × ((try_submit ready task s.pool).0 ≢ panics)
  submit_panics {n} {k} {s} ready i task r =
      let h = reach-IsOrderly r in (send-panics ready i s h, try_submit-panics ready task s h)

  -- When `Stop` returns from a pool whose workers have been launched, every task that was ever accepted
  -- has run to its end, exactly once, and none is left.
  pub stop_returns :
      {n k : ℤ} {s : System A}
      → Reach n k s
      → s.pool.stopped ≡ true
      → s.pool.started ≡ true
      → s.launching ≡ false
      → returns s.pool ≡ true
      → (s.pool.waiting ≡ [])
        × (s.pool.tasks.queue ≡ [])
        × (s.pool.tasks.running ≡ [])
        × Perm s.pool.tasks.accepted s.pool.tasks.finished
  unfolding returns
  stop_returns {n} {k} {s} r stopped started launched returned =
      let h = reach-IsOrderly r in
      let (empty, idle, ran) =
        all_finished s.pool.tasks h.sound (ground (arith, h.counted, h.manned)) (grind arith) in
      (h.unlocked stopped, empty, idle, ran)
