-- ===== src/Inventory/Examples.antt =====
-- A stock of ten units, of which two are held.
use backend_golang_task.Prelude.{◌≡◌, List, [], ◌∷◌, arith, some}
use backend_golang_task.Prelude.Int.{pos, int_laws}
use backend_golang_task.Inventory.{Inventory, reconstitute_inventory}
use backend_golang_task.Inventory.Conservation.{
  Move, reserves, releases, commits, restocks, apply, Tally, run, IsStock, Conserves, run-Conserves,
}
use backend_golang_task.Inventory.Spec.{outcome, apply-specified}

abbrev ten : Inventory
ten = reconstitute_inventory 1 1 (pos 8) (pos 2) (pos 3) (pos 0)

abbrev start : Tally
start = record { stock = ten; shipped = 0; received = 0 }

abbrev moves : List Move
moves =
    reserves (pos 5)
    ∷ commits (pos 4)
    ∷ reserves (pos 9)
    ∷ restocks (pos 20)
    ∷ releases (pos 1)
    ∷ []

ten-IsStock : IsStock 20 ten
ten-IsStock = record {
  available_nonneg = omega int_laws;
  reserved_nonneg = omega int_laws;
  room = omega arith;
}

five-IsStock : IsStock 0 ten
five-IsStock = record {
  available_nonneg = omega int_laws;
  reserved_nonneg = omega int_laws;
  room = omega arith;
}

run-Conserves_example : IsStock 0 (run start moves).stock × Conserves start (run start moves)
run-Conserves_example = run-Conserves start moves ten-IsStock

apply-specified_example :
    outcome (apply (reserves (pos 5)) ten) ≡ some (record { free = 3; held = 7 })
apply-specified_example = apply-specified (reserves (pos 5)) ten five-IsStock
