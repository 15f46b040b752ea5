-- ===== src/Pool.antt =====
-- pkg/concurrency/workerpool.go: a pool of workers, with the goroutines that call it as explicit steps.
-- A step of a call is what it does between two points at which others may run.
pub mod Schedule
pub mod Safety
mod Examples
use backend_golang_task.Prelude.{
  ℕ, zero, Bool, true, false, ◌||◌, if◌then◌else◌, Option, some, none, List, [], ◌∷◌, ◌++◌, length,
}
use backend_golang_task.Prelude.Int.{ℤ, pos, pos_part, ltb_ℤ}
use backend_golang_task.Workers.{
  Workers, Sent, sent, full, on_closed, new_channel, launch, close, offer, remove_at,
}

-- `waiting` are the tasks of the calls of `Submit` that hold the read lock: they have passed the test
-- on `stopped` and have not been able to send yet.
pub record Pool (A : Type 0) : Type 0 where
  pub workers : ℕ
  pub started : Bool
  pub stopped : Bool
  pub waiting : List A
  pub tasks : Workers A

-- `if n < low { n = low }`, for a `low` that is not negative.
abbrev pub at_least : ℤ → ℤ → ℕ
at_least low n = if ltb_ℤ n low then pos_part low else pos_part n

-- What a call of `Submit` or `TrySubmit` has come to.
pub data Outcome : Type 0 where
  accepted refused waits panics : Outcome

module _ {A : Type 0} where
  unfoldable pub new_pool : ℤ → ℤ → Pool A
  new_pool workers queue_size = record {
    workers = at_least (pos 1) workers;
    started = false;
    stopped = false;
    waiting = [];
    tasks = new_channel (at_least (pos 0) queue_size);
  }

  -- `Start` in two steps: what it does under the lock, and the goroutines after it. The answer is
  -- whether it goes on.
  unfoldable pub start : Pool A → Bool × Pool A
  start p = if p.started || p.stopped then (false, p) else (true, record p { started = true })

  abbrev pub start_workers : Pool A → Pool A
  start_workers p = record p { tasks = launch p.workers p.tasks }

  -- `Submit` up to its send; the task nil is `none`.
  unfoldable pub submit : Option A → Pool A → Outcome × Pool A
  submit none p = (accepted, p)
  submit (some task) p =
      if p.stopped then (refused, p) else (waits, record p { waiting = p.waiting ++ task ∷ [] })

  abbrev pub sent_waiting : List A → Pool A → Sent A → Outcome × Pool A
  sent_waiting rest p (sent w) = (accepted, record p { waiting = rest; tasks = w })
  sent_waiting rest p full = (waits, p)
  sent_waiting rest p on_closed = (panics, p)

  -- The send of the n-th waiting call; `ready` is whether an idle worker has come to its receive. The
  -- call goes on waiting where there is no room.
  unfoldable pub send : Bool → ℕ → Pool A → Outcome × Pool A
  unfolding offer
  send ready n p = elim (remove_at n p.waiting) [
    | none ↦ (waits, p)
    | some (task, rest) ↦ sent_waiting rest p (offer ready task p.tasks)
  ]

  abbrev pub tried : Pool A → Sent A → Outcome × Pool A
  tried p (sent w) = (accepted, record p { tasks = w })
  tried p full = (refused, p)
  tried p on_closed = (panics, p)

  -- `TrySubmit` is one step: it holds the read lock and never waits.
  unfoldable pub try_submit : Bool → Option A → Pool A → Outcome × Pool A
  unfolding offer
  try_submit ready none p = (refused, p)
  try_submit ready (some task) p =
      if p.stopped then (refused, p) else tried p (offer ready task p.tasks)

  -- The body of `Stop` up to `wg.Wait`: it takes the write lock, so no call may hold a read lock, and
  -- runs once. `none` is that it does not come to run.
  unfoldable pub stop : Pool A → Option (Pool A)
  stop p = elim p.waiting [
    | task ∷ tasks ↦ none
    | [] ↦ if p.stopped then none else some (record p { stopped = true; tasks = close p.tasks })
  ]

  -- Whether the `Stop` that has closed the channel returns now: `wg.Wait` waits for the workers that
  -- have been added.
  unfoldable pub returns : Pool A → Bool
  returns p = if p.started then elim p.tasks.live [ zero ↦ true | _ ↦ false ] else true

  unfoldable queue_len : Pool A → ℕ
  queue_len p = length p.tasks.queue
