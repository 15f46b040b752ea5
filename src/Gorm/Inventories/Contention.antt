-- ===== src/Gorm/Inventories/Contention.antt =====
-- The race for the last units: many requests reserve one unit each of the same product
-- (`Reserve` of internal/infrastructure/persistence/gormrepo/inventory_repo.go).
use backend_golang_task.Prelude.{
  ℕ, zero, suc, ◌+◌, ◌-◌, ◌≤◌, min, ◌≡◌, refl, ap, ◌∙◌, Bool, true, false, Option, some, none, List,
  arith, inl, inr, Option-cases,
}
use backend_golang_task.Prelude.Int.{ℤ, pos, ◌-ℤ◌, leb_ℤ}
use backend_golang_task.Errs.{Result, ok, err}
use backend_golang_task.Gorm.Models.{InventoryModel, inventories}
use backend_golang_task.Gorm.Engine.{Gorm, IsGorm}
use backend_golang_task.Gorm.Inventories.{reserve, can_reserve, reserved_row}
use backend_golang_task.Gorm.Inventories.Atomic.{
  row, IsSound, stock, rewrite-row, reserves, call, call-IsSound,
}

-- How many requests got their unit, and how many met an error of the database.
pub record Score : Type 0 where
  pub winners : ℕ
  pub errors : ℕ

abbrev score : Result Bool → Score → Score
score (ok true) s = record s { winners = s.winners + 1 }
score (ok false) s = s
score (err _) s = record s { errors = s.errors + 1 }

abbrev pub units : ℕ → List InventoryModel → Option ℤ
units id ms = elim (row id ms) [ some m ↦ some m.available | none ↦ none ]

module _ (g : Gorm) where
  open g use {World, tables}

  -- `n` requests, each for one unit of the product.
  unfoldable pub contend : ℕ → ℕ → World → Score × World
  contend id zero w = (record { winners = 0; errors = 0 }, w)
  contend id (suc n) w =
      let (r, w') = reserve g id (pos 1) w in let (s, end) = contend id n w' in (score r s, end)

  -- What one request leaves of `k` available units.
  abbrev Left : ℕ → ℕ → Result Bool × World → Type 0
  Left id k (ok true, w') = (1 ≤ k) × (units id (stock g w') ≡ some (pos (k - 1)))
  Left id k (ok false, w') = (k ≡ 0) × (units id (stock g w') ≡ some (pos k))
  Left id k (err _, w') = units id (stock g w') ≡ some (pos k)

  module _ (laws : IsGorm g) (id : ℕ) where
    reserve-Left :
        (k : ℕ) (w : World)
        → IsSound (stock g w)
        → units id (stock g w) ≡ some (pos k)
        → Left id k (reserve g id (pos 1) w)
    unfolding reserve ◌-ℤ◌
    reserve-Left k w s found = elim (Option-cases (row id (stock g w))) [
      | inl missing ↦ ground arith
      | inr (m, e) ↦ ground (
        arith,
        laws.updates_law inventories (can_reserve id (pos 1)) (reserved_row (pos 1)) w,
        rewrite-row id (λ m. leb_ℤ (pos 1) m.available) (reserved_row (pos 1)) (λ m. refl)
            (stock g w) m s e,
      )
    ]

    reserve-IsSound :
        (w : World) → IsSound (stock g w) → IsSound (stock g (reserve g id (pos 1) w).1)
    unfolding call
    reserve-IsSound w s = call-IsSound g laws (reserves id 1) w s

    abbrev Shared : ℕ → ℕ → Score × World → Type 0
    Shared n k (s, end) =
        (s.errors ≤ n)
        × (s.winners ≡ min (n - s.errors) k)
        × (units id (stock g end) ≡ some (pos (k - s.winners)))

    left : ℕ → Result Bool → ℕ
    left k (ok true) = k - 1
    left k (ok false) = k
    left k (err _) = k

    score-Shared :
        (n k : ℕ) (r : Result Bool) (w' : World) (rest : Score × World)
        → Left id k (r, w')
        → Shared n (left k r) rest
        → Shared (suc n) k (score r rest.0, rest.1)
    unfolding left
    score-Shared n k (ok true) w' rest l h =
        (omega arith, omega arith, h.2 ∙ ap (λ (t : ℕ). some (pos t)) (omega arith))
    score-Shared n k (ok false) w' rest l h = (omega arith, omega arith, h.2)
    score-Shared n k (err e) w' rest l h = (omega arith, omega arith, h.2)

    left-units :
        (k : ℕ) (r : Result Bool) (w' : World)
        → Left id k (r, w')
        → units id (stock g w') ≡ some (pos (left k r))
    unfolding left
    left-units k (ok true) w' l = l.1
    left-units k (ok false) w' l = l.1
    left-units k (err e) w' l = l

    -- Of `n` concurrent requests for one unit each of a product with `k` units, as many win as met no
    -- error of the database, up to `k`, and no more: each winner takes one unit.
    pub contend_winners :
        (n k : ℕ) (w : World)
        → IsSound (stock g w)
        → units id (stock g w) ≡ some (pos k)
        → let (s, end) = contend id n w in
          (s.errors ≤ n)
          × (s.winners ≡ min (n - s.errors) k)
          × (units id (stock g end) ≡ some (pos (k - s.winners)))
    unfolding contend
    contend_winners zero k w s found =
        (omega arith, omega arith, found ∙ ap (λ (t : ℕ). some (pos t)) (omega arith))
    contend_winners (suc n) k w s found =
        let (r, w') = reserve g id (pos 1) w in
        let l = reserve-Left k w s found in
        score-Shared n k r w' (contend id n w') l
          (contend_winners n (left k r) w' (reserve-IsSound w s) (left-units k r w' l))
