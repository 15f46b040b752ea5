-- ===== src/Workers.antt =====
-- A channel and the goroutines that range over it: what the pool of pkg/concurrency/workerpool.go,
-- the bus of internal/infrastructure/messaging/eventbus.go and the dispatcher of
-- internal/infrastructure/notification/dispatcher.go have in common. The scheduler is an argument of
-- `works`: a list of the steps that the workers take. A job that panics or never returns has no step.
pub mod Sound
pub mod Frame
pub mod Drain
use backend_golang_task.Prelude.{
  ℕ, zero, suc, ◌+◌, ◌-◌, ltb, Bool, true, false, ◌&&◌, if◌then◌else◌, Option, some, none, List, [],
  ◌∷◌, ◌++◌, length,
}

-- `accepted` and `taken` are no state of the program: all that the channel has got, and what has left
-- it, in order.
pub record Workers {ℓ} (A : Type ℓ) : Type ℓ where
  pub size : ℕ
  pub launched : ℕ
  pub live : ℕ
  pub closed : Bool
  pub queue : List A
  pub running : List A
  pub finished : List A
  pub accepted : List A
  pub taken : List A

-- The outcome of a send that does not wait.
pub data Sent {ℓ} (A : Type ℓ) : Type ℓ where
  sent : Workers A → Sent A
  full : Sent A
  on_closed : Sent A

-- A step of a worker: it receives a job, it ends the n-th of the jobs that run, it leaves its loop.
pub data Move : Type 0 where
  takes : Move
  finishes : ℕ → Move
  exits : Move

module _ {ℓ} {A : Type ℓ} where
  abbrev pub remove_at : ℕ → List A → Option (A × List A)
  remove_at n [] = none
  remove_at zero (x ∷ xs) = some (x, xs)
  remove_at (suc n) (x ∷ xs) = elim (remove_at n xs) [
    | none ↦ none
    | some (y, ys) ↦ some (y, x ∷ ys)
  ]

  abbrev pub is_nil : List A → Bool
  is_nil [] = true
  is_nil (x ∷ xs) = false

  -- `make(chan …, size)`
  abbrev pub new_channel : ℕ → Workers A
  new_channel size = record {
    size = size;
    launched = 0;
    live = 0;
    closed = false;
    queue = [];
    running = [];
    finished = [];
    accepted = [];
    taken = [];
  }

  -- `wg.Add` and the loop of `go`.
  abbrev pub launch : ℕ → Workers A → Workers A
  launch n w = record w { launched = w.launched + n; live = w.live + n }

  abbrev pub close : Workers A → Workers A
  close w = record w { closed = true }

  abbrev pub is_idle : Workers A → Bool
  is_idle w = ltb (length w.running) w.live

  abbrev pub push : A → Workers A → Workers A
  push x w = record w { queue = w.queue ++ x ∷ []; accepted = w.accepted ++ x ∷ [] }

  -- The channel hands a job to a worker that waits for one.
  abbrev pub hand : A → Workers A → Workers A
  hand x w = record w {
    running = x ∷ w.running;
    accepted = w.accepted ++ x ∷ [];
    taken = w.taken ++ x ∷ [];
  }

  -- `select { case ch <- x: … default: … }`; `waiting` is whether an idle worker has come to its
  -- receive.
  unfoldable pub offer : Bool → A → Workers A → Sent A
  offer waiting x w =
      if w.closed
      then on_closed
      else if ltb (length w.queue) w.size
      then sent (push x w)
      else if waiting && (is_idle w && is_nil w.queue)
      then sent (hand x w)
      else full

  abbrev pub take_first : List A → Workers A → Option (Workers A)
  take_first [] w = none
  take_first (x ∷ xs) w =
      some (record w { queue = xs; running = x ∷ w.running; taken = w.taken ++ x ∷ [] })

  abbrev pub finished_with : Workers A → Option (A × List A) → Option (Workers A)
  finished_with w none = none
  finished_with w (some (x, xs)) = some (record w { running = xs; finished = x ∷ w.finished })

  -- `for job := range ch { … }`, which ends when the channel is closed and empty.
  unfoldable pub work : Move → Workers A → Option (Workers A)
  work takes w = if is_idle w then take_first w.queue w else none
  work (finishes n) w = finished_with w (remove_at n w.running)
  work exits w =
      if w.closed && (is_nil w.queue && is_idle w)
      then some (record w { live = w.live - 1 })
      else none

  -- Steps that come one after the other; `none` if one of them cannot be taken.
  unfoldable pub works : List Move → Workers A → Option (Workers A)
  unfolding work
  works [] w = some w
  works (m ∷ ms) w = elim (work m w) [ none ↦ none | some w' ↦ works ms w' ]
