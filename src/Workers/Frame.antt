-- ===== src/Workers/Frame.antt =====
-- What the steps of a channel and its workers leave alone.
use backend_golang_task.Prelude.{
  ◌-◌, ◌≢◌, Bool, true, false, ◌&&◌, if◌then◌else◌, ◌≡◌, refl, ◌∙◌, Option, some, none, List, [],
  ◌∷◌, ◌++◌, arith,
}
use backend_golang_task.Workers.{
  Workers, Sent, sent, full, on_closed, Move, takes, finishes, exits, remove_at, is_idle, is_nil,
  offer, take_first, finished_with, work, works,
}

module _ {ℓ} {A : Type ℓ} where
  -- A send and a worker's step neither close the channel nor launch a worker.
  pub offer-same :
      (waiting : Bool) (x : A) (w : Workers A) {w' : Workers A}
      → offer waiting x w ≡ sent w'
      → (w.closed ≡ false) × (w'.closed ≡ w.closed) × (w'.launched ≡ w.launched)
  unfolding offer
  offer-same waiting x w e = grind arith

  pub offer-panics :
      (waiting : Bool) (x : A) (w : Workers A) → w.closed ≡ false → offer waiting x w ≢ on_closed
  unfolding offer
  offer-panics waiting x w opened e = ground arith

  pub work-same :
      (m : Move) (w : Workers A) {w' : Workers A}
      → work m w ≡ some w'
      → (w'.closed ≡ w.closed) × (w'.launched ≡ w.launched)
  unfolding work
  work-same takes w e = grind arith
  work-same (finishes n) w e = grind arith
  work-same exits w e = grind arith

  -- What the workers leave alone.
  abbrev pub Runs : Workers A → Option (Workers A) → Type ℓ
  Runs w none = Unit
  Runs w (some w') = (w'.closed ≡ w.closed) × (w'.accepted ≡ w.accepted)

  work-Runs : (m : Move) (w : Workers A) → Runs w (work m w)
  unfolding work
  work-Runs takes w = go (is_idle w) w.queue
    where
      go : (idle : Bool) (xs : List A) → Runs w (if idle then take_first xs w else none)
      go true [] = tt
      go true (x ∷ xs) = (refl, refl)
      go false xs = tt
  work-Runs (finishes n) w = go (remove_at n w.running)
    where
      go : (r : Option (A × List A)) → Runs w (finished_with w r)
      go none = tt
      go (some (x, xs)) = (refl, refl)
  work-Runs exits w = go (w.closed && (is_nil w.queue && is_idle w))
    where
      go : (b : Bool) → Runs w (if b then some (record w { live = w.live - 1 }) else none)
      go true = (refl, refl)
      go false = tt

  pub works-Runs : (ms : List Move) (w : Workers A) → Runs w (works ms w)
  unfolding works
  works-Runs [] w = (refl, refl)
  works-Runs (m ∷ ms) w = go (work m w) (work-Runs m w) (works-Runs ms)
    where
      go :
          (r : Option (Workers A))
          → Runs w r
          → ((w' : Workers A) → Runs w' (works ms w'))
          → Runs w (elim r [ none ↦ none | some w' ↦ works ms w' ])
      go none same rest = tt
      go (some w₁) (c, a) rest = join (works ms w₁) (rest w₁)
        where
          join : (r : Option (Workers A)) → Runs w₁ r → Runs w r
          join none same = tt
          join (some w') (c', a') = (c' ∙ c, a' ∙ a)

  -- What an open channel makes of a send.
  abbrev pub Offered : A → Workers A → Sent A → Type ℓ
  Offered x w (sent w') = (w'.closed ≡ false) × (w'.accepted ≡ w.accepted ++ x ∷ [])
  Offered x w full = Unit
  Offered x w on_closed = w ≢ w

  pub offer-Offered :
      (waiting : Bool) (x : A) (w : Workers A) → w.closed ≡ false → Offered x w (offer waiting x w)
  unfolding offer
  offer-Offered waiting x w opened = ground arith
