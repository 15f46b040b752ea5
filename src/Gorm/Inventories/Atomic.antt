-- ===== src/Gorm/Inventories/Atomic.antt =====
-- The conditional updates of internal/infrastructure/persistence/gormrepo/inventory_repo.go, each
-- of which the database runs as one step: any interleaving of them by concurrent requests is a
-- sequence of such steps.
use backend_golang_task.Prelude.{
  ℕ, ◌≡◌, refl, Bool, true, ◌&&◌, ◌==◌, if◌then◌else◌, Option, some, none, List, [], ◌∷◌, length,
  find?, select, arith, inl, inr, Bool-cases,
}
use backend_golang_task.Prelude.Int.{pos, ◌≤ℤ◌, int_laws}
use backend_golang_task.Gorm.Models.{InventoryModel, inventories, get}
use backend_golang_task.Gorm.Engine.{Gorm, IsGorm, rewrite}
use backend_golang_task.Gorm.Inventories.{
  reserve, release, commit, restock, can_reserve, reserved_row, holds, released_row, committed_row,
  restocked_row,
}

-- The stock of a product: its row, or nothing.
abbrev of_product : ℕ → InventoryModel → Bool
of_product id m = m.product_id == id

abbrev pub row : ℕ → List InventoryModel → Option InventoryModel
row id ms = find? (of_product id) ms

-- The unique index on `product_id`, and counts that are not negative.
abbrev pub IsSound : List InventoryModel → Type 0
IsSound [] = Unit
IsSound (m ∷ ms) =
    (pos 0 ≤ℤ m.available)
    × (pos 0 ≤ℤ m.reserved)
    × (find? (of_product m.product_id) ms ≡ none)
    × IsSound ms

module _ (p : InventoryModel → Bool) (f : InventoryModel → InventoryModel)
    (keeps : (m : InventoryModel) → (f m).product_id ≡ m.product_id) where
  find-rewrite-none :
      (id : ℕ) (ms : List InventoryModel)
      → find? (of_product id) ms ≡ none
      → find? (of_product id) (rewrite p f ms) ≡ none
  find-rewrite-none id [] h = refl
  find-rewrite-none id (m ∷ ms) h = ground (arith, keeps m, find-rewrite-none id ms)

  rewrite-IsSound :
      (ms : List InventoryModel)
      → ((m : InventoryModel)
          → p m ≡ true
          → pos 0 ≤ℤ m.available
          → pos 0 ≤ℤ m.reserved
          → (pos 0 ≤ℤ (f m).available) × (pos 0 ≤ℤ (f m).reserved))
      → IsSound ms
      → IsSound (rewrite p f ms)
  rewrite-IsSound [] safe h = tt
  rewrite-IsSound (m ∷ ms) safe h =
      ground
        (arith, keeps m, safe m, find-rewrite-none m.product_id ms, rewrite-IsSound ms safe h.3)

reserve_safe :
    (id q : ℕ) (m : InventoryModel)
    → can_reserve id (pos q) m ≡ true
    → pos 0 ≤ℤ m.available
    → pos 0 ≤ℤ m.reserved
    → (pos 0 ≤ℤ (reserved_row (pos q) m).available) × (pos 0 ≤ℤ (reserved_row (pos q) m).reserved)
reserve_safe id q m t a r = grind int_laws

release_safe :
    (id q : ℕ) (m : InventoryModel)
    → holds id (pos q) m ≡ true
    → pos 0 ≤ℤ m.available
    → pos 0 ≤ℤ m.reserved
    → (pos 0 ≤ℤ (released_row (pos q) m).available) × (pos 0 ≤ℤ (released_row (pos q) m).reserved)
release_safe id q m t a r = grind int_laws

commit_safe :
    (id q : ℕ) (m : InventoryModel)
    → holds id (pos q) m ≡ true
    → pos 0 ≤ℤ m.available
    → pos 0 ≤ℤ m.reserved
    → (pos 0 ≤ℤ (committed_row (pos q) m).available) × (pos 0 ≤ℤ (committed_row (pos q) m).reserved)
commit_safe id q m t a r = grind int_laws

restock_safe :
    (id q : ℕ) (m : InventoryModel)
    → of_product id m ≡ true
    → pos 0 ≤ℤ m.available
    → pos 0 ≤ℤ m.reserved
    → (pos 0 ≤ℤ (restocked_row (pos q) m).available) × (pos 0 ≤ℤ (restocked_row (pos q) m).reserved)
restock_safe id q m t a r = grind int_laws

-- An update of the one row of a product, under a condition on it.
module _ (id : ℕ) (c : InventoryModel → Bool) (f : InventoryModel → InventoryModel)
    (keeps : (m : InventoryModel) → (f m).product_id ≡ m.product_id) where
  abbrev guarded : InventoryModel → Bool
  guarded m = m.product_id == id && c m

  rewrite-absent :
      (ms : List InventoryModel)
      → find? (of_product id) ms ≡ none
      → (rewrite guarded f ms ≡ ms) × (length (select guarded ms) ≡ 0)
  rewrite-absent [] h = (refl, refl)
  rewrite-absent (m ∷ ms) h = ground (arith, rewrite-absent ms)

  -- It changes that row if the condition holds, and counts it.
  pub rewrite-row :
      (ms : List InventoryModel) (m : InventoryModel)
      → IsSound ms
      → find? (of_product id) ms ≡ some m
      → (find? (of_product id) (rewrite guarded f ms) ≡ some (if c m then f m else m))
        × (length (select guarded ms) ≡ (if c m then 1 else 0))
  rewrite-row [] m s h = cc
  rewrite-row (x ∷ ms) m s h = elim (Bool-cases (x.product_id == id)) [
    | inl hit ↦
        let same : x.product_id ≡ id = ground arith in
        let gone : find? (of_product id) ms ≡ none = rw (← same) s.2 in
        ground (arith, rewrite-absent ms gone, keeps x)
    | inr miss ↦ ground (arith, rewrite-row ms m s.3, keeps x)
  ]

-- The calls that requests make. No quantity is negative: `NewItem` and the validation of the
-- requests refuse those.
pub data Call : Type 0 where
  reserves releases commits restocks : ℕ → ℕ → Call

module _ (g : Gorm) where
  open g use {World, tables}

  abbrev pub stock : World → List InventoryModel
  stock w = get inventories (tables w)

  unfoldable pub call : Call → World → World
  unfolding reserve release commit restock
  call (reserves id q) w = (reserve g id (pos q) w).1
  call (releases id q) w = (release g id (pos q) w).1
  call (commits id q) w = (commit g id (pos q) w).1
  call (restocks id q) w = (restock g id (pos q) w).1

  unfoldable pub run : List Call → World → World
  run [] w = w
  run (c ∷ cs) w = run cs (call c w)

  module _ (laws : IsGorm g) where
    pub call-IsSound : (c : Call) (w : World) → IsSound (stock w) → IsSound (stock (call c w))
    unfolding call
    call-IsSound (reserves id q) w s = ground (
      arith,
      laws.updates_law inventories (can_reserve id (pos q)) (reserved_row (pos q)) w,
      rewrite-IsSound (can_reserve id (pos q)) (reserved_row (pos q)) (λ m. refl) (stock w)
          (reserve_safe id q) s,
    )
    call-IsSound (releases id q) w s = ground (
      arith,
      laws.updates_law inventories (holds id (pos q)) (released_row (pos q)) w,
      rewrite-IsSound (holds id (pos q)) (released_row (pos q)) (λ m. refl) (stock w)
          (release_safe id q) s,
    )
    call-IsSound (commits id q) w s = ground (
      arith,
      laws.updates_law inventories (holds id (pos q)) (committed_row (pos q)) w,
      rewrite-IsSound (holds id (pos q)) (committed_row (pos q)) (λ m. refl) (stock w)
          (commit_safe id q) s,
    )
    call-IsSound (restocks id q) w s = ground (
      arith,
      laws.updates_law inventories (of_product id) (restocked_row (pos q)) w,
      rewrite-IsSound (of_product id) (restocked_row (pos q)) (λ m. refl) (stock w)
          (restock_safe id q) s,
    )

    -- Whatever calls requests make, in any interleaving, and whichever of them the database fails:
    -- no product's available or reserved count goes below zero, and none gets a second row.
    pub run-IsSound : (cs : List Call) (w : World) → IsSound (stock w) → IsSound (stock (run cs w))
    unfolding run
    run-IsSound [] w s = s
    run-IsSound (c ∷ cs) w s = run-IsSound cs (call c w) (call-IsSound c w s)
