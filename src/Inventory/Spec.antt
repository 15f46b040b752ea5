-- ===== src/Inventory/Spec.antt =====
-- The stock as two natural numbers, and the proof that internal/domain/inventory/inventory.go
-- implements it.
use backend_golang_task.Prelude.{
  ℕ, ◌+◌, ◌-◌, ◌≡◌, ◌&&◌, Option, some, none, ltb, leb, if◌then◌else◌, arith,
}
use backend_golang_task.Prelude.Int.{pos, negsuc, pos_part, ◌+ℤ◌, ◌-ℤ◌, int64_exact, int_laws}
use backend_golang_task.Errs.{Result, ok, err}
use backend_golang_task.Inventory.{Inventory}
use backend_golang_task.Inventory.Conservation.{
  Move, reserves, releases, commits, restocks, apply, IsStock, asked,
}

-- The units that are free to sell, and those that are held for orders.
pub record Stock : Type 0 where
  pub free : ℕ
  pub held : ℕ

abbrev specified : Move → Stock → Option Stock
specified (reserves (pos q)) s =
    if ltb 0 q && leb q s.free then some (record { free = s.free - q; held = s.held + q }) else none
specified (releases (pos q)) s =
    if ltb 0 q && leb q s.held then some (record { free = s.free + q; held = s.held - q }) else none
specified (commits (pos q)) s =
    if ltb 0 q && leb q s.held then some (record { free = s.free; held = s.held - q }) else none
specified (restocks (pos q)) s =
    if ltb 0 q then some (record { free = s.free + q; held = s.held }) else none
specified _ s = none

abbrev view : Inventory → Stock
view i = record { free = pos_part i.available; held = pos_part i.reserved }

abbrev pub outcome : Result Inventory → Option Stock
outcome (ok i) = some (view i)
outcome (err _) = none

-- On a stock whose counts are not negative and leave room for a restock, each operation succeeds
-- exactly when its specification does, and leaves the specified counts.
pub apply-specified :
    (m : Move) (i : Inventory) → IsStock (asked m) i → outcome (apply m i) ≡ specified m (view i)
unfolding apply
apply-specified (reserves (pos q)) i s =
    grind (int_laws, int64_exact (i.available -ℤ pos q), int64_exact (i.reserved +ℤ pos q))
apply-specified (reserves (negsuc q)) i s = ground arith
apply-specified (releases (pos q)) i s =
    grind (int_laws, int64_exact (i.reserved -ℤ pos q), int64_exact (i.available +ℤ pos q))
apply-specified (releases (negsuc q)) i s = ground arith
apply-specified (commits (pos q)) i s = grind (int_laws, int64_exact (i.reserved -ℤ pos q))
apply-specified (commits (negsuc q)) i s = ground arith
apply-specified (restocks (pos q)) i s = grind (int_laws, int64_exact (i.available +ℤ pos q))
apply-specified (restocks (negsuc q)) i s = ground arith
