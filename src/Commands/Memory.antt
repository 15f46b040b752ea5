-- ===== src/Commands/Memory.antt =====
-- What a handler of internal/application/command answers, and the state of a closure that a unit of
-- work runs: the handler's variables and the database.
use backend_golang_task.Prelude.{◌≡◌, List, [], ◌∷◌, arith}
use backend_golang_task.Errs.{Result, ok, err}
use backend_golang_task.Action.{Action, pure, ◌>>◌}
use backend_golang_task.Shared.Event.{Event, pull_events}
use backend_golang_task.Order.{Item, Order}

-- What a handler answers, and the events that it has published.
pub record Handled : Type 0 where
  pub answer : Result Order
  pub published : List Event

-- The order after `PullEvents`.
abbrev pub drained : Order → Order
drained o = record o { root = (pull_events o.root).1 }

module _ {M W : Type 0} where
  -- A call of a repository, which does not touch the variables.
  abbrev pub stored : {A : Type 0} → Action W A → Action (M × W) A
  stored m (v, w) = let (r, w') = m w in (r, (v, w'))

  -- A method on a variable: it is written only if the method returns no error.
  abbrev pub update : (M → Result M) → Action (M × W) (Unit {0})
  update f (v, w) = elim (f v) [ ok v' ↦ (ok tt, (v', w)) | err e ↦ (err e, (v, w)) ]

  -- A repository's call that also writes its argument.
  abbrev pub store : (M → Action W M) → Action (M × W) (Unit {0})
  store f (v, w) =
      let (r, w') = f v w in elim r [ ok v' ↦ (ok tt, (v', w')) | err e ↦ (err e, (v, w')) ]

  -- A part of the closure that reads a variable.
  abbrev pub reading : {A : Type 0} → (M → Action (M × W) A) → Action (M × W) A
  reading f (v, w) = f v (v, w)

-- `for _, item := range items { … }`, which returns at the first error.
unfoldable pub for_items :
    {S : Type 0} → (Item → Action S (Unit {0})) → List Item → Action S (Unit {0})
for_items f [] = pure tt
for_items f (item ∷ items) = f item >> for_items f items

module _ {M W : Type 0} where
  pub update-eq-ok :
      (f : M → Result M) (v : M) (w : W) {a : Unit {0}} {v' : M} {w' : W}
      → update f (v, w) ≡ (ok a, (v', w'))
      → (f v ≡ ok v') × (w' ≡ w)
  update-eq-ok f v w {a} {v'} {w'} h = go (f v) h
    where
      go : (r : Result M) → update (λ (_ : M). r) (v, w) ≡ (ok a, (v', w')) → (r ≡ ok v') × (w' ≡ w)
      go (ok x) e = ground arith
      go (err x) e = cc

  pub store-eq-ok :
      (f : M → Action W M) (v : M) (w : W) {a : Unit {0}} {v' : M} {w' : W}
      → store f (v, w) ≡ (ok a, (v', w'))
      → f v w ≡ (ok v', w')
  store-eq-ok f v w {a} {v'} {w'} h = go (f v w) h
    where
      go :
          (r : Result M × W)
          → store (λ (_ : M) (_ : W). r) (v, w) ≡ (ok a, (v', w'))
          → r ≡ (ok v', w')
      go (ok x, w₁) e = ground arith
      go (err x, w₁) e = cc

  -- A repository's call leaves the variables alone.
  pub stored-eq-ok :
      {A : Type 0} (m : Action W A) (v : M) (w : W) {a : A} {v' : M} {w' : W}
      → stored m (v, w) ≡ (ok a, (v', w'))
      → (v' ≡ v) × (m w ≡ (ok a, w'))
  stored-eq-ok {A} m v w {a} {v'} {w'} h = go (m w) h
    where
      go :
          (r : Result A × W)
          → stored (λ (_ : W). r) (v, w) ≡ (ok a, (v', w'))
          → (v' ≡ v) × (r ≡ (ok a, w'))
      go (ok x, w₁) e = ground arith
      go (err x, w₁) e = cc
