-- ===== src/Inventory/Conservation.antt =====
-- The stock of internal/domain/inventory/inventory.go over any sequence of operations: no unit is
-- lost or made up, and neither count goes below zero.
use backend_golang_task.Prelude.{ℕ, ◌+◌, ◌<◌, ◌^◌, ◌≡◌, refl, List, [], ◌∷◌, arith}
use backend_golang_task.Prelude.Int.{ℤ, pos, pos_part, ◌+ℤ◌, ◌-ℤ◌, ◌≤ℤ◌, int64_exact, int_laws}
use backend_golang_task.Errs.{Result, ok, err}
use backend_golang_task.Inventory.{Inventory, reserve, release, commit, restock}

pub data Move : Type 0 where
  reserves releases commits restocks : ℤ → Move

unfoldable pub apply : Move → Inventory → Result Inventory
unfolding reserve release commit restock
apply (reserves qty) i = reserve qty i
apply (releases qty) i = release qty i
apply (commits qty) i = commit qty i
apply (restocks qty) i = restock qty i

-- The stock with what has left the warehouse and what has come in since the beginning.
pub record Tally : Type 0 where
  pub stock : Inventory
  pub shipped : ℕ
  pub received : ℕ

abbrev count : Move → Inventory → Tally → Tally
count (reserves qty) i t = record t { stock = i }
count (releases qty) i t = record t { stock = i }
count (commits qty) i t = record t { stock = i; shipped = t.shipped + pos_part qty }
count (restocks qty) i t = record t { stock = i; received = t.received + pos_part qty }

abbrev settle : Move → Tally → Result Inventory → Tally
settle m t (ok i) = count m i t
settle m t (err _) = t

pub step : Move → Tally → Tally
step m t = settle m t (apply m t.stock)

unfoldable pub run : Tally → List Move → Tally
unfolding step
run t [] = t
run t (m ∷ ms) = run (step m t) ms

-- What a restock asks for, and what the restocks of a sequence do.
abbrev pub asked : Move → ℕ
asked (restocks qty) = pos_part qty
asked _ = 0

abbrev pub ordered : List Move → ℕ
ordered [] = 0
ordered (m ∷ ms) = asked m + ordered ms

-- Neither count is negative, and there is room for `more` further units in an int.
pub record IsStock (more : ℕ) (i : Inventory) : Type 0 where
  pub available_nonneg : pos 0 ≤ℤ i.available
  pub reserved_nonneg : pos 0 ≤ℤ i.reserved
  pub room : pos_part i.available + pos_part i.reserved + more < 2 ^ 63

abbrev pub Conserves : Tally → Tally → Type 0
Conserves t t' =
    pos_part t'.stock.available + pos_part t'.stock.reserved + t'.shipped + t.received
    ≡ pos_part t.stock.available + pos_part t.stock.reserved + t.shipped + t'.received

step-Conserves :
    (more : ℕ) (m : Move) (t : Tally)
    → IsStock (asked m + more) t.stock
    → IsStock more (step m t).stock × Conserves t (step m t)
unfolding step apply
step-Conserves more (reserves qty) t s =
    grind (int_laws, int64_exact (t.stock.available -ℤ qty), int64_exact (t.stock.reserved +ℤ qty))
step-Conserves more (releases qty) t s =
    grind (int_laws, int64_exact (t.stock.reserved -ℤ qty), int64_exact (t.stock.available +ℤ qty))
step-Conserves more (commits qty) t s = grind (int_laws, int64_exact (t.stock.reserved -ℤ qty))
step-Conserves more (restocks qty) t s = grind (int_laws, int64_exact (t.stock.available +ℤ qty))

-- Over any sequence of operations, refused ones included, whose restocks an int has room for:
-- neither count goes below zero, and what is available, reserved and shipped at the end is what was
-- there at the beginning and what has come in since.
pub run-Conserves :
    (t : Tally) (ms : List Move)
    → IsStock (ordered ms) t.stock
    → IsStock 0 (run t ms).stock × Conserves t (run t ms)
unfolding run
run-Conserves t [] s = (s, refl)
run-Conserves t (m ∷ ms) s =
    let (s', moved) = step-Conserves (ordered ms) m t s in
    let (end, rest) = run-Conserves (step m t) ms s' in (end, omega arith)
