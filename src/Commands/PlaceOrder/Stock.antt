-- ===== src/Commands/PlaceOrder/Stock.antt =====
-- What the transactions of `process` (internal/application/command/place_order.go) do to the stock and to
-- the payments.
use backend_golang_task.Prelude.{◌≡◌, refl, ap, ◌∙◌, subst, ◌&&◌, ◌==◌, List, [], ◌∷◌, arith}
use backend_golang_task.Prelude.Int.{pos, ◌+ℤ◌, ◌-ℤ◌, leb_ℤ}
use backend_golang_task.Errs.{Result, ok, err}
use backend_golang_task.Action.{Action, ◌>>◌}
use backend_golang_task.Order.{Order, Item}
use backend_golang_task.Gorm.Models.{
  InventoryModel, PaymentModel, OrderModel, get, orders, inventories, payments,
}
use backend_golang_task.Gorm.Engine.{Gorm, IsGorm, rewrite}
use backend_golang_task.Gorm.Inventories.{
  reserve, release, commit, can_reserve, holds, reserved_row, released_row, committed_row,
}
use backend_golang_task.Gorm.Orders.{update_order, updated_row}
use backend_golang_task.Commands.Memory.{stored, update, reading, for_items}
use backend_golang_task.Commands.PlaceOrder.{reserve_line}

-- The rows of the stock after a line was reserved, released or committed: of the row of its product, if
-- that has the units.
abbrev pub reserved_line : Item → List InventoryModel → List InventoryModel
reserved_line i =
    rewrite (λ (m : InventoryModel). m.product_id == i.product_id && leb_ℤ i.quantity m.available)
      λ (m : InventoryModel). record m {
        available = m.available -ℤ i.quantity;
        reserved = m.reserved +ℤ i.quantity;
        version = m.version +ℤ pos 1;
      }

abbrev pub released_line : Item → List InventoryModel → List InventoryModel
released_line i =
    rewrite (λ (m : InventoryModel). m.product_id == i.product_id && leb_ℤ i.quantity m.reserved)
      λ (m : InventoryModel). record m {
        available = m.available +ℤ i.quantity;
        reserved = m.reserved -ℤ i.quantity;
      }

abbrev pub committed_line : Item → List InventoryModel → List InventoryModel
committed_line i =
    rewrite (λ (m : InventoryModel). m.product_id == i.product_id && leb_ℤ i.quantity m.reserved)
      λ (m : InventoryModel). record m { reserved = m.reserved -ℤ i.quantity }

-- One line after the other.
abbrev pub each_line :
    (Item → List InventoryModel → List InventoryModel)
    → List Item
    → List InventoryModel
    → List InventoryModel
each_line f [] rows = rows
each_line f (i ∷ is) rows = each_line f is (f i rows)

module _ (g : Gorm) where
  abbrev pub stock : g.World → List InventoryModel
  stock w = get inventories (g.tables w)

  abbrev pub paid : g.World → List PaymentModel
  paid w = get payments (g.tables w)

  -- A line, if its call returned no error: its rows, and no payment.
  abbrev pub Moves :
      (List InventoryModel → List InventoryModel) → g.World → Result (Unit {0}) × g.World → Type 0
  Moves f w (ok _, w') = (stock w' ≡ f (stock w)) × (paid w' ≡ paid w)
  Moves f w (err _, w') = Unit {0}

module _ (g : Gorm) (laws : IsGorm g) where
  pub release-Moves :
      (i : Item) (w : g.World) → Moves g (released_line i) w (release g i.product_id i.quantity w)
  unfolding release
  release-Moves i w = ground (
    arith,
    laws.updates_law inventories (holds i.product_id i.quantity) (released_row i.quantity) w,
  )

  pub commit-Moves :
      (i : Item) (w : g.World) → Moves g (committed_line i) w (commit g i.product_id i.quantity w)
  unfolding commit
  commit-Moves i w = ground (
    arith,
    laws.updates_law inventories (holds i.product_id i.quantity) (committed_row i.quantity) w,
  )

  pub reserve_line-Moves :
      (i : Item) (w : g.World) → Moves g (reserved_line i) w (reserve_line g i w)
  unfolding reserve
  reserve_line-Moves i w = ground (
    arith,
    laws.updates_law inventories (can_reserve i.product_id i.quantity) (reserved_row i.quantity) w,
  )

  for_items-Moves :
      (f : Item → Action g.World (Unit {0}))
      (step : Item → List InventoryModel → List InventoryModel)
      → ((i : Item) (w : g.World) → Moves g (step i) w (f i w))
      → (is : List Item) (w : g.World) → Moves g (each_line step is) w (for_items f is w)
  unfolding for_items
  for_items-Moves f step moves [] w = (refl, refl)
  for_items-Moves f step moves (i ∷ is) w = go (f i w) (moves i w) (for_items-Moves f step moves is)
    where
      next :
          (w₁ : g.World) (y : Result (Unit {0}) × g.World)
          → stock g w₁ ≡ step i (stock g w)
          → paid g w₁ ≡ paid g w
          → Moves g (each_line step is) w₁ y
          → Moves g (each_line step (i ∷ is)) w y
      next w₁ (ok _, w') one same (rest, same') = (rest ∙ ap (each_line step is) one, same' ∙ same)
      next w₁ (err _, w') one same rest = tt

      go :
          (x : Result (Unit {0}) × g.World)
          → Moves g (step i) w x
          → ((w₁ : g.World) → Moves g (each_line step is) w₁ (for_items f is w₁))
          → Moves g (each_line step (i ∷ is)) w (◌>>◌ (λ (_ : g.World). x) (for_items f is) w)
      go (err _, w₁) moved rest = tt
      go (ok _, w₁) (one, same) rest = next w₁ (for_items f is w₁) one same (rest w₁)

  update_order-stock :
      (o : Order) (w : g.World)
      → (stock g (update_order g o w).1 ≡ stock g w) × (paid g (update_order g o w).1 ≡ paid g w)
  unfolding update_order
  update_order-stock o w =
      ground (arith, laws.updates_law orders (λ (m : OrderModel). m.id == o.id) (updated_row o) w)

-- What a part of a closure does, if it returns no error.
module _ {V : Type 0} where
  abbrev pub Runs : (V → V → Type 0) → V → Result (Unit {0}) × V → Type 0
  Runs R s (ok _, s') = R s s'
  Runs R s (err _, _) = Unit {0}

  abbrev pub Then : (V → V → Type 0) → (V → V → Type 0) → V → V → Type 0
  Then R Q s s'' = (s' : V) × R s s' × Q s' s''

  pub record Does (R : V → V → Type 0) (m : Action V (Unit {0})) : Type 0 where
    pub does : (s : V) → Runs R s (m s)

  pub sequence-Does :
      {R Q : V → V → Type 0} {m k : Action V (Unit {0})}
      → Does R m
      → Does Q k
      → Does (Then R Q) (m >> k)
  sequence-Does {R} {Q} {m} {k} first second = record { does = λ s. go s (m s) (first.does s) }
    where
      last : (s s₁ : V) (y : Result (Unit {0}) × V) → R s s₁ → Runs Q s₁ y → Runs (Then R Q) s y
      last s s₁ (ok _, s') one two = (s₁, one, two)
      last s s₁ (err _, s') one two = tt

      go :
          (s : V) (x : Result (Unit {0}) × V)
          → Runs R s x
          → Runs (Then R Q) s (◌>>◌ (λ (_ : V). x) k s)
      go s (err _, s₁) one = tt
      go s (ok _, s₁) one = last s s₁ (k s₁) one (second.does s₁)

  pub Does-ok :
      {R : V → V → Type 0} {m : Action V (Unit {0})} (s : V) {s' : V} {a : Unit {0}}
      → Does R m
      → m s ≡ (ok a, s')
      → R s s'
  Does-ok {R} {m} s {s'} {a} h e = subst (Runs R s) e (h.does s)

module _ (g : Gorm) (laws : IsGorm g) {M : Type 0} where
  -- The variables change by `R`, and neither the stock nor the payments do.
  abbrev pub Keeps : (M → M → Type 0) → M × g.World → M × g.World → Type 0
  Keeps R (v, w) (v', w') = R v v' × (stock g w' ≡ stock g w) × (paid g w' ≡ paid g w)

  -- The lines of `order_of v` are done, and no variable or payment changes.
  abbrev pub Lines :
      (Item → List InventoryModel → List InventoryModel)
      → (M → Order)
      → M × g.World
      → M × g.World
      → Type 0
  Lines step order_of (v, w) (v', w') =
      (v' ≡ v)
      × (stock g w' ≡ each_line step (order_of v).items (stock g w))
      × (paid g w' ≡ paid g w)

  pub update-Does :
      (f : M → Result M) (R : M → M → Type 0)
      → ((v v' : M) → f v ≡ ok v' → R v v')
      → Does (Keeps R) (update f)
  update-Does f R does = record { does = λ (v, w). go v w (f v) (does v) }
    where
      go :
          (v : M) (w : g.World) (r : Result M)
          → ((v' : M) → r ≡ ok v' → R v v')
          → Runs (Keeps R) (v, w) (update (λ (_ : M). r) (v, w))
      go v w (ok v') does = (does v' refl, refl, refl)
      go v w (err e) does = tt

  pub for_items-Does :
      (f : Item → Action g.World (Unit {0}))
      (step : Item → List InventoryModel → List InventoryModel) (order_of : M → Order)
      → ((i : Item) (w : g.World) → Moves g (step i) w (f i w))
      → Does (Lines step order_of) (reading (λ v. stored (for_items f (order_of v).items)))
  for_items-Does f step order_of moves = record {
    does = λ (v, w).
        go v w (for_items f (order_of v).items w)
          (for_items-Moves g laws f step moves (order_of v).items w);
  }
    where
      go :
          (v : M) (w : g.World) (x : Result (Unit {0}) × g.World)
          → Moves g (each_line step (order_of v).items) w x
          → Runs (Lines step order_of) (v, w) (stored (λ (_ : g.World). x) (v, w))
      go v w (ok _, w') (one, same) = (refl, one, same)
      go v w (err _, w') moved = tt

  pub written-Does :
      (order_of : M → Order)
      → Does (Keeps (λ v v'. v' ≡ v)) (reading (λ v. stored (update_order g (order_of v))))
  written-Does order_of = record {
    does =
        λ (v, w). go v w (update_order g (order_of v) w) (update_order-stock g laws (order_of v) w);
  }
    where
      go :
          (v : M) (w : g.World) (x : Result (Unit {0}) × g.World)
          → (stock g x.1 ≡ stock g w) × (paid g x.1 ≡ paid g w)
          → Runs (Keeps (λ v v'. v' ≡ v)) (v, w) (stored (λ (_ : g.World). x) (v, w))
      go v w (ok _, w') (same, same') = (refl, same, same')
      go v w (err _, w') same = tt
