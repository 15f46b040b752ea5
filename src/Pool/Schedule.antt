-- ===== src/Pool/Schedule.antt =====
-- Every interleaving of the calls of the pool of pkg/concurrency/workerpool.go with its workers.
use backend_golang_task.Prelude.{
  ℕ, ◌≢◌, Bool, true, false, not, ◌||◌, ◌&&◌, if◌then◌else◌, ◌≡◌, refl, ◌∙◌, subst, Option, some,
  none, List, [], ◌∷◌, ◌++◌, arith,
}
use backend_golang_task.Prelude.Int.{ℤ}
use backend_golang_task.Workers.{
  Workers, Move, Sent, sent, full, on_closed, offer, work, remove_at, close,
}
use backend_golang_task.Workers.Sound.{
  IsSound, Sends, offer-Sends, Keeps, work-Keeps, new_channel-IsSound, launch-IsSound,
  close-IsSound,
}
use backend_golang_task.Workers.Frame.{offer-same, work-same}
use backend_golang_task.Pool.{
  Pool, Outcome, refused, waits, new_pool, start, start_workers, submit, send, try_submit, stop,
  sent_waiting, tried,
}

-- The pool, and whether a `Start` has set its flag and not launched the workers yet.
pub record System (A : Type 0) : Type 0 where
  pub pool : Pool A
  pub launching : Bool

module _ {A : Type 0} where
  abbrev with_pool : System A → Pool A → System A
  with_pool s p = record s { pool = p }

  pub data Step (s : System A) : System A → Type 0 where
    starts :
        Step s (record { pool = (start s.pool).1; launching = s.launching || (start s.pool).0 })
    launches :
        s.launching ≡ true → Step s (record { pool = start_workers s.pool; launching = false })
    submits : (task : Option A) → Step s (with_pool s (submit task s.pool).1)
    sends : (ready : Bool) (n : ℕ) → Step s (with_pool s (send ready n s.pool).1)
    tries : (ready : Bool) (task : Option A) → Step s (with_pool s (try_submit ready task s.pool).1)
    moves :
        (m : Move) {w : Workers A}
        → work m s.pool.tasks ≡ some w
        → Step s (with_pool s (record (s.pool) { tasks = w }))
    stops : {p : Pool A} → stop s.pool ≡ some p → Step s (with_pool s p)

  pub data Reach (workers queue_size : ℤ) : System A → Type 0 where
    begin :
        Reach workers queue_size (record { pool = new_pool workers queue_size; launching = false })
    later : {s t : System A} → Reach workers queue_size s → Step s t → Reach workers queue_size t

  -- The number of workers that a `Start` has launched.
  abbrev launched_by : System A → ℕ
  launched_by s = if s.pool.started && not s.launching then s.pool.workers else 0

  pub record IsOrderly (s : System A) : Type 0 where
    pub sound : IsSound s.pool.tasks
    pub closing : s.pool.tasks.closed ≡ s.pool.stopped
    pub unlocked : s.pool.stopped ≡ true → s.pool.waiting ≡ []
    pub manned : s.pool.workers ≢ 0
    pub counted : s.pool.tasks.launched ≡ launched_by s
    pub flagged : s.launching ≡ true → s.pool.started ≡ true

  new_pool-IsOrderly :
      (workers queue_size : ℤ)
      → IsOrderly (record { pool = new_pool workers queue_size; launching = false })
  unfolding new_pool
  new_pool-IsOrderly workers queue_size = record {
    sound = new_channel-IsSound _;
    closing = refl;
    unlocked = λ e. refl;
    manned = ground arith;
    counted = refl;
    flagged = λ e. cc;
  }

  -- A step that changes the waiting calls and the tasks only.
  retasked :
      (s : System A) (waiting : List A) (w : Workers A)
      → IsOrderly s
      → IsSound w
      → (w.closed ≡ s.pool.tasks.closed) × (w.launched ≡ s.pool.tasks.launched)
      → (s.pool.stopped ≡ true → waiting ≡ [])
      → IsOrderly (with_pool s (record (s.pool) { waiting = waiting; tasks = w }))
  retasked s waiting w h sound (closed, launched) unlocked = record {
    sound = sound;
    closing = closed ∙ h.closing;
    unlocked = unlocked;
    manned = h.manned;
    counted = launched ∙ h.counted;
    flagged = h.flagged;
  }

  -- After a step with an outcome, and after the first step of `Start`.
  abbrev Leaves : System A → Outcome × Pool A → Type 0
  Leaves s r = IsOrderly (with_pool s r.1)

  abbrev Starts : System A → Bool × Pool A → Type 0
  Starts s r = IsOrderly (record { pool = r.1; launching = s.launching || r.0 })

  relaunching :
      (s : System A) (launching : Bool)
      → s.launching ≡ launching
      → IsOrderly s
      → IsOrderly (record { pool = s.pool; launching = launching })
  relaunching s launching e h =
      subst (λ (b : Bool). IsOrderly (record { pool = s.pool; launching = b })) e h

  start-IsOrderly : (s : System A) → IsOrderly s → Starts s (start s.pool)
  unfolding start
  start-IsOrderly s h = go s.pool.started s.pool.stopped refl refl
    where
      go :
          (a b : Bool)
          → s.pool.started ≡ a
          → s.pool.stopped ≡ b
          → Starts s
              (if a || b then (false, s.pool) else (true, record (s.pool) { started = true }))
      go true b ea eb = relaunching s (s.launching || false) (ground arith) h
      go false true ea eb = relaunching s (s.launching || false) (ground arith) h
      go false false ea eb = record {
        sound = h.sound;
        closing = h.closing;
        unlocked = h.unlocked;
        manned = h.manned;
        counted = ground (arith, h.counted, ea);
        flagged = λ x. refl;
      }

  launch-IsOrderly :
      (s : System A)
      → s.launching ≡ true
      → IsOrderly s
      → IsOrderly (record { pool = start_workers s.pool; launching = false })
  launch-IsOrderly s e h = record {
    sound =
        launch-IsSound s.pool.workers s.pool.tasks (ground (arith, h.counted, h.flagged e)) h.sound;
    closing = h.closing;
    unlocked = h.unlocked;
    manned = h.manned;
    counted = ground (arith, h.counted, h.flagged e);
    flagged = λ x. cc;
  }

  submit-IsOrderly :
      (task : Option A) (s : System A)
      → IsOrderly s
      → IsOrderly (with_pool s (submit task s.pool).1)
  unfolding submit
  submit-IsOrderly none s h = h
  submit-IsOrderly (some task) s h = go s.pool.stopped refl
    where
      go :
          (stopped : Bool)
          → s.pool.stopped ≡ stopped
          → Leaves s (
              if stopped
              then (refused, s.pool)
              else (waits, record (s.pool) { waiting = s.pool.waiting ++ task ∷ [] }))
      go true e = h
      go false e = retasked s _ s.pool.tasks h h.sound (refl, refl) (λ x. ground arith)

  -- What an offer of a task makes of the pool, whatever calls wait then.
  offered-IsOrderly :
      (s : System A) (ready : Bool) (task : A) (waiting : List A) {w : Workers A}
      → IsOrderly s
      → offer ready task s.pool.tasks ≡ sent w
      → IsOrderly (with_pool s (record (s.pool) { waiting = waiting; tasks = w }))
  offered-IsOrderly s ready task waiting h e =
      let (opened, closed, launched) = offer-same ready task s.pool.tasks e in
      retasked s waiting _ h (subst Sends e (offer-Sends ready task s.pool.tasks h.sound))
        (closed, launched) (λ stopped. ground (arith, h.closing))

  send-IsOrderly :
      (ready : Bool) (n : ℕ) (s : System A) → IsOrderly s → Leaves s (send ready n s.pool)
  unfolding send
  send-IsOrderly ready n s h = go (remove_at n s.pool.waiting)
    where
      offered :
          (task : A) (rest : List A) (r : Sent A)
          → offer ready task s.pool.tasks ≡ r
          → Leaves s (sent_waiting rest s.pool r)
      offered task rest (sent w) e = offered-IsOrderly s ready task rest h e
      offered task rest full e = h
      offered task rest on_closed e = h

      go :
          (r : Option (A × List A))
          → Leaves s (elim r [
            | none ↦ (waits, s.pool)
            | some (task, rest) ↦ sent_waiting rest s.pool (offer ready task s.pool.tasks)
          ])
      go none = h
      go (some (task, rest)) = offered task rest _ refl

  try_submit-IsOrderly :
      (ready : Bool) (task : Option A) (s : System A)
      → IsOrderly s
      → Leaves s (try_submit ready task s.pool)
  unfolding try_submit
  try_submit-IsOrderly ready none s h = h
  try_submit-IsOrderly ready (some task) s h = go s.pool.stopped _ refl
    where
      go :
          (stopped : Bool) (r : Sent A)
          → offer ready task s.pool.tasks ≡ r
          → Leaves s (if stopped then (refused, s.pool) else tried s.pool r)
      go true r e = h
      go false (sent w) e = offered-IsOrderly s ready task s.pool.waiting h e
      go false full e = h
      go false on_closed e = h

  abbrev Stops : System A → Option (Pool A) → Type 0
  Stops s none = Unit
  Stops s (some p) = IsOrderly (with_pool s p)

  stop-IsOrderly : (s : System A) → IsOrderly s → Stops s (stop s.pool)
  unfolding stop
  stop-IsOrderly s h = go s.pool.waiting refl s.pool.stopped
    where
      go :
          (waiting : List A)
          → s.pool.waiting ≡ waiting
          → (stopped : Bool)
          → Stops s (elim waiting [
            | task ∷ tasks ↦ none
            | [] ↦
                if stopped
                then none
                else some (record (s.pool) { stopped = true; tasks = close (s.pool.tasks) })
          ])
      go (task ∷ tasks) e stopped = tt
      go [] e true = tt
      go [] e false = record {
        sound = close-IsSound s.pool.tasks h.sound;
        closing = refl;
        unlocked = λ x. e;
        manned = h.manned;
        counted = h.counted;
        flagged = h.flagged;
      }

  step-IsOrderly : {s t : System A} → IsOrderly s → Step s t → IsOrderly t
  step-IsOrderly {s} h starts = start-IsOrderly s h
  step-IsOrderly {s} h (launches e) = launch-IsOrderly s e h
  step-IsOrderly {s} h (submits task) = submit-IsOrderly task s h
  step-IsOrderly {s} h (sends ready n) = send-IsOrderly ready n s h
  step-IsOrderly {s} h (tries ready task) = try_submit-IsOrderly ready task s h
  step-IsOrderly {s} h (moves m e) =
      retasked s s.pool.waiting _ h (subst Keeps e (work-Keeps m s.pool.tasks h.sound))
        (work-same m s.pool.tasks e) h.unlocked
  step-IsOrderly {s} h (stops e) = subst (Stops s) e (stop-IsOrderly s h)

  pub reach-IsOrderly : {n k : ℤ} {s : System A} → Reach n k s → IsOrderly s
  reach-IsOrderly {n} {k} begin = new_pool-IsOrderly n k
  reach-IsOrderly (later r step) = step-IsOrderly (reach-IsOrderly r) step
