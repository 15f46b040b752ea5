-- ===== src/Workers/Drain.antt =====
-- What becomes of a channel that is closed.
use backend_golang_task.Prelude.{
  ℕ, ◌==◌, zero, suc, ◌+◌, ◌-◌, ◌*◌, ◌≤◌, ◌≢◌, Bool, true, false, ◌&&◌, if◌then◌else◌, ◌≡◌, refl,
  sym, ap, ◌∙◌, subst, Option, some, none, List, [], ◌∷◌, ◌++◌, length, append-nil, Perm, arith,
  tests,
}
use backend_golang_task.Workers.{
  Workers, Move, takes, finishes, exits, remove_at, is_idle, is_nil, take_first, finished_with,
  work, works,
}
use backend_golang_task.Workers.Sound.{IsSound, Removed, remove_at-Removed}

module _ {ℓ} {A : Type ℓ} where
  -- A bound on the steps that the workers of a closed channel have left.
  abbrev pub measure : Workers A → ℕ
  measure w = 2 * length w.queue + length w.running + w.live

  abbrev Lowers : Workers A → Option (Workers A) → Type 0
  Lowers w none = Unit
  Lowers w (some w') = (suc (measure w') ≡ measure w) × (w'.closed ≡ w.closed)

  work-Lowers : (m : Move) (w : Workers A) → Lowers w (work m w)
  unfolding work
  work-Lowers takes w = go (is_idle w) w.queue refl
    where
      go :
          (idle : Bool) (xs : List A)
          → w.queue ≡ xs
          → Lowers w (if idle then take_first xs w else none)
      go true (x ∷ xs) e = (omega (arith, ap length e), refl)
      go true [] e = tt
      go false xs e = ground arith
  work-Lowers (finishes n) w = go (remove_at n w.running) (remove_at-Removed n w.running)
    where
      go : (r : Option (A × List A)) → Removed w.running r → Lowers w (finished_with w r)
      go none p = tt
      go (some (x, xs)) (p, l) = (omega (arith, l), refl)
  work-Lowers exits w = go w.closed (is_nil w.queue) (is_idle w) refl
    where
      go :
          (closed empty idle : Bool)
          → is_idle w ≡ idle
          → Lowers w
              (if closed && (empty && idle) then some (record w { live = w.live - 1 }) else none)
      go true true true e = (omega (tests, e), refl)
      go true true false e = tt
      go true false idle e = tt
      go false empty idle e = tt

  -- While a closed channel has a worker, one of them can take a step.
  unfoldable next_move : Workers A → Move
  next_move w = elim w.running [
    | x ∷ xs ↦ finishes 0
    | [] ↦ elim w.queue [ [] ↦ exits | x ∷ xs ↦ takes ]
  ]

  next_move-works :
      (w : Workers A)
      → w.closed ≡ true
      → w.live ≢ 0
      → (w' : Workers A) × (work (next_move w) w ≡ some w')
  unfolding work next_move
  next_move-works w closed some_live = go w.running refl w.queue refl
    where
      go :
          (xs : List A)
          → w.running ≡ xs
          → (ys : List A) → w.queue ≡ ys
          → (w' : Workers A) × (work (next_move w) w ≡ some w')
      go (x ∷ xs) r ys q = (record w { running = xs; finished = x ∷ w.finished }, grind arith)
      go [] r (y ∷ ys) q =
          (record w { queue = ys; running = y ∷ w.running; taken = w.taken ++ y ∷ [] }, grind arith)
      go [] r [] q = (record w { live = w.live - 1 }, grind arith)

  -- Steps are counted: n of them bring the measure down by n.
  abbrev Spends : Workers A → List Move → Option (Workers A) → Type 0
  Spends w ms none = Unit
  Spends w ms (some w') = (length ms + measure w' ≡ measure w) × (w'.closed ≡ w.closed)

  works-Spends : (ms : List Move) (w : Workers A) → Spends w ms (works ms w)
  unfolding works
  works-Spends [] w = (omega arith, refl)
  works-Spends (m ∷ ms) w = go (work m w) (work-Lowers m w) (works-Spends ms)
    where
      go :
          (r : Option (Workers A))
          → Lowers w r
          → ((w' : Workers A) → Spends w' ms (works ms w'))
          → Spends w (m ∷ ms) (elim r [ none ↦ none | some w' ↦ works ms w' ])
      go none l rest = tt
      go (some w₁) (l, c) rest = join (works ms w₁) (rest w₁)
        where
          join : (r : Option (Workers A)) → Spends w₁ ms r → Spends w (m ∷ ms) r
          join none s = tt
          join (some w') (s, c') = (omega (arith, l, s), c' ∙ c)

  works-step :
      (m : Move) (ms : List Move) (w : Workers A) {w₁ : Workers A}
      → work m w ≡ some w₁
      → works (m ∷ ms) w ≡ works ms w₁
  unfolding works
  works-step m ms w e =
      ap (λ (r : Option (Workers A)). elim r [ none ↦ none | some w' ↦ works ms w' ]) e

  -- Some schedule gets all workers out of their loops.
  abbrev pub Emptied : Workers A → Type ℓ
  Emptied w = (ms : List Move) × (w' : Workers A) × (works ms w ≡ some w') × (w'.live ≡ 0)

  -- On as much fuel as the measure, the workers get to the end.
  emptied : (n : ℕ) (w : Workers A) → w.closed ≡ true → measure w ≤ n → Emptied w
  unfolding works
  emptied zero w closed fuel = ([], w, refl, omega (arith, fuel))
  emptied (suc n) w closed fuel = go (w.live == 0) refl (emptied n)
    where
      go :
          (gone : Bool)
          → (w.live == 0) ≡ gone
          → ((w₁ : Workers A) → w₁.closed ≡ true → measure w₁ ≤ n → Emptied w₁)
          → Emptied w
      go true e rest = ([], w, refl, grind arith)
      go false e rest =
          let (w₁, moved) = next_move-works w closed (grind arith) in
          let (lower, same) = subst (Lowers w) moved (work-Lowers (next_move w) w) in
          let (ms, w', ran, gone) = rest w₁ (same ∙ closed) (omega (arith, fuel, lower)) in
          (next_move w ∷ ms, w', works-step (next_move w) ms w moved ∙ ran, gone)

  -- A closed channel is emptied: however its workers are scheduled, they take at most `measure` steps,
  -- and after any of these some schedule of the rest gets all of them out of their loops.
  pub works-ends :
      (ms : List Move) (w : Workers A) {w' : Workers A}
      → w.closed ≡ true
      → works ms w ≡ some w'
      → (length ms ≤ measure w) × Emptied w'
  works-ends ms w {w'} closed ran =
      let (spent, same) = subst (Spends w ms) ran (works-Spends ms w) in
      (omega (arith, spent), emptied (measure w') w' (same ∙ closed) (omega arith))

  no-elements : (xs : List A) → length xs ≤ 0 → xs ≡ []
  no-elements [] h = refl
  no-elements (x ∷ xs) h = absurd (omega (arith, h))

  -- When the last worker has left, every job that the channel got has run to its end, exactly once.
  pub all_finished :
      (w : Workers A)
      → IsSound w
      → w.launched ≢ 0
      → w.live ≡ 0
      → (w.queue ≡ []) × (w.running ≡ []) × Perm w.accepted w.finished
  all_finished w h launched gone =
      let (closed, empty) = h.drained (omega (arith, launched, gone)) in
      let idle = no-elements w.running (omega (arith, h.busy, gone)) in
      (
        empty,
        idle,
        subst (λ (xs : List A). Perm xs w.finished)
            (sym (h.ordered ∙ ap (λ (xs : List A). w.taken ++ xs) empty ∙ append-nil w.taken))
            (subst (λ (xs : List A). Perm w.taken (xs ++ w.finished)) idle h.whole),
      )
