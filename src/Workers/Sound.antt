-- ===== src/Workers/Sound.antt =====
-- What holds of a channel and its workers at any time.
use backend_golang_task.Prelude.{
  ℕ, zero, suc, ◌-◌, ◌≤◌, ◌<◌, ltb, Bool, true, false, ◌&&◌, if◌then◌else◌, ◌≡◌, refl, sym, ap, ◌∙◌,
  subst, Option, some, none, List, [], ◌∷◌, ◌++◌, length, length-append, append-nil, append_assoc,
  Perm, perm_middle, arith, tests,
}
use mathlib.Core.List.Perm
use backend_golang_task.Workers.{
  Workers, Sent, sent, full, on_closed, Move, takes, finishes, exits, remove_at, new_channel,
  launch, close, is_idle, push, hand, is_nil, offer, take_first, finished_with, work, works,
}

module _ {ℓ} {A : Type ℓ} where
  -- The queue keeps its bound and its order, no more jobs run than workers are left, each job that has
  -- left the queue runs or has ended, and a worker has left only a channel that is closed and empty.
  pub record IsSound (w : Workers A) : Type ℓ where
    pub bounded : length w.queue ≤ w.size
    pub busy : length w.running ≤ w.live
    pub few : w.live ≤ w.launched
    pub ordered : w.accepted ≡ w.taken ++ w.queue
    pub whole : Perm w.taken (w.running ++ w.finished)
    pub drained : w.live < w.launched → (w.closed ≡ true) × (w.queue ≡ [])

  -- What is left when one element is taken out.
  abbrev pub Removed : List A → Option (A × List A) → Type ℓ
  Removed xs none = Unit
  Removed xs (some (y, ys)) = Perm xs (y ∷ ys) × (length xs ≡ suc (length ys))

  pub remove_at-Removed : (n : ℕ) (xs : List A) → Removed xs (remove_at n xs)
  remove_at-Removed n [] = tt
  remove_at-Removed zero (x ∷ xs) = (Perm.rfl, refl)
  remove_at-Removed (suc n) (x ∷ xs) = go (remove_at n xs) (remove_at-Removed n xs)
    where
      go :
          (r : Option (A × List A))
          → Removed xs r
          → Removed (x ∷ xs) (elim r [ none ↦ none | some (y, ys) ↦ some (y, x ∷ ys) ])
      go none h = tt
      go (some (y, ys)) (p, l) = (Perm.trans (Perm.cons x p) (Perm.swap y x ys), ap suc l)

  pub new_channel-IsSound : (size : ℕ) → IsSound (new_channel size)
  new_channel-IsSound size = record {
    bounded = omega arith;
    busy = omega arith;
    few = omega arith;
    ordered = refl;
    whole = Perm.rfl;
    drained = λ h. ground arith;
  }

  -- The loop of `go` before any worker has been started.
  pub launch-IsSound : (n : ℕ) (w : Workers A) → w.launched ≡ 0 → IsSound w → IsSound (launch n w)
  launch-IsSound n w none_yet h = record {
    bounded = h.bounded;
    busy = omega (arith, h.busy);
    few = omega (arith, h.few);
    ordered = h.ordered;
    whole = h.whole;
    drained = λ lt. ground (arith, h.few, none_yet);
  }

  pub close-IsSound : (w : Workers A) → IsSound w → IsSound (close w)
  close-IsSound w h = record {
    bounded = h.bounded;
    busy = h.busy;
    few = h.few;
    ordered = h.ordered;
    whole = h.whole;
    drained = λ lt. (refl, (h.drained lt).1);
  }

  push-IsSound :
      (x : A) (w : Workers A)
      → w.closed ≡ false
      → length w.queue < w.size
      → IsSound w
      → IsSound (push x w)
  push-IsSound x w opened room h = record {
    bounded = omega (arith, length-append w.queue (x ∷ []));
    busy = h.busy;
    few = h.few;
    ordered = grind (arith, h.ordered, append_assoc);
    whole = h.whole;
    drained = λ lt. ground (arith, h.drained lt);
  }

  -- `xs` with a job that has been taken.
  taken-Perm : (x : A) (xs ys : List A) → Perm xs ys → Perm (xs ++ x ∷ []) (x ∷ ys)
  taken-Perm x xs ys p =
      Perm.trans (perm_middle xs [])
        (Perm.cons x (subst (λ (zs : List A). Perm zs ys) (sym (append-nil xs)) p))

  hand-IsSound :
      (x : A) (w : Workers A)
      → w.closed ≡ false
      → length w.running < w.live
      → w.queue ≡ []
      → IsSound w
      → IsSound (hand x w)
  hand-IsSound x w opened idle empty h = record {
    bounded = h.bounded;
    busy = omega (arith, idle);
    few = h.few;
    ordered = grind (arith, h.ordered, append_assoc, append-nil);
    whole = taken-Perm x w.taken (w.running ++ w.finished) h.whole;
    drained = λ lt. ground (arith, h.drained lt);
  }

  abbrev pub Sends : Sent A → Type ℓ
  Sends (sent w) = IsSound w
  Sends full = Unit
  Sends on_closed = Unit

  -- A send that does not wait keeps the channel sound.
  pub offer-Sends : (waiting : Bool) (x : A) (w : Workers A) → IsSound w → Sends (offer waiting x w)
  unfolding offer
  offer-Sends waiting x w h =
      go w.closed refl (ltb (length w.queue) w.size) refl w.queue refl waiting (is_idle w) refl
    where
      go :
          (closed : Bool)
          → w.closed ≡ closed
          → (room : Bool) → ltb (length w.queue) w.size ≡ room
          → (queue : List A) → w.queue ≡ queue
          → (waits idle : Bool) → is_idle w ≡ idle
          → Sends (
              if closed
              then on_closed
              else if room
              then sent (push x w)
              else if waits && (idle && is_nil queue)
              then sent (hand x w)
              else full)
      go true e room r queue q waits idle i = tt
      go false e true r queue q waits idle i = push-IsSound x w e (omega (tests, r)) h
      go false e false r [] q true true i = hand-IsSound x w e (omega (tests, i)) q h
      go false e false r [] q true false i = tt
      go false e false r [] q false idle i = tt
      go false e false r (y ∷ ys) q waits idle i = ground arith

  abbrev pub Keeps : Option (Workers A) → Type ℓ
  Keeps none = Unit
  Keeps (some w) = IsSound w

  take_first-Keeps :
      (xs : List A) (w : Workers A)
      → length w.running < w.live
      → w.queue ≡ xs
      → IsSound w
      → Keeps (take_first xs w)
  take_first-Keeps [] w idle is h = tt
  take_first-Keeps (x ∷ xs) w idle is h = record {
    bounded = omega (arith, ap length is, h.bounded);
    busy = omega (arith, idle);
    few = h.few;
    ordered =
        h.ordered ∙ ap (λ (ys : List A). w.taken ++ ys) is ∙ sym (append_assoc w.taken (x ∷ []) xs);
    whole = taken-Perm x w.taken (w.running ++ w.finished) h.whole;
    drained = λ lt. ground (arith, h.drained lt);
  }

  finished_with-Keeps :
      (w : Workers A) (r : Option (A × List A))
      → IsSound w
      → Removed w.running r
      → Keeps (finished_with w r)
  finished_with-Keeps w none h removed = tt
  finished_with-Keeps w (some (x, xs)) h (p, l) = record {
    bounded = h.bounded;
    busy = omega (arith, h.busy, l);
    few = h.few;
    ordered = h.ordered;
    whole =
        Perm.trans h.whole
          (Perm.trans (Perm.append_right w.finished p) (Perm.symm (perm_middle xs w.finished)));
    drained = h.drained;
  }

  exit-IsSound :
      (w : Workers A)
      → w.closed ≡ true
      → w.queue ≡ []
      → length w.running < w.live
      → IsSound w
      → IsSound (record w { live = w.live - 1 })
  exit-IsSound w closed empty idle h = record {
    bounded = h.bounded;
    busy = omega (arith, idle);
    few = omega (arith, h.few);
    ordered = h.ordered;
    whole = h.whole;
    drained = λ lt. (closed, empty);
  }

  -- A worker's step keeps the channel sound.
  pub work-Keeps : (m : Move) (w : Workers A) → IsSound w → Keeps (work m w)
  unfolding work
  work-Keeps takes w h = go (is_idle w) refl
    where
      go : (idle : Bool) → is_idle w ≡ idle → Keeps (if idle then take_first w.queue w else none)
      go true e = take_first-Keeps w.queue w (omega (tests, e)) refl h
      go false e = tt
  work-Keeps (finishes n) w h =
      finished_with-Keeps w (remove_at n w.running) h (remove_at-Removed n w.running)
  work-Keeps exits w h = go w.closed refl w.queue refl (is_idle w) refl
    where
      go :
          (closed : Bool)
          → w.closed ≡ closed
          → (queue : List A) → w.queue ≡ queue
          → (idle : Bool) → is_idle w ≡ idle
          → Keeps (
              if closed && (is_nil queue && idle)
              then some (record w { live = w.live - 1 })
              else none)
      go true c [] q true i = exit-IsSound w c q (omega (tests, i)) h
      go true c [] q false i = tt
      go true c (x ∷ xs) q idle i = tt
      go false c queue q idle i = tt

  -- So does any number of them.
  pub works-Keeps : (ms : List Move) (w : Workers A) → IsSound w → Keeps (works ms w)
  unfolding works
  works-Keeps [] w h = h
  works-Keeps (m ∷ ms) w h = go (work m w) (work-Keeps m w h) (works-Keeps ms)
    where
      go :
          (r : Option (Workers A))
          → Keeps r
          → ((w' : Workers A) → IsSound w' → Keeps (works ms w'))
          → Keeps (elim r [ none ↦ none | some w' ↦ works ms w' ])
      go none k rest = tt
      go (some w') k rest = rest w' k
