-- ===== src/Commands/PlaceOrder/Replay.antt =====
-- A request under an idempotency key that an order already has
-- (internal/application/command/place_order.go).
use backend_golang_task.Prelude.{
  ℕ, ◌≡◌, ◌≢◌, refl, ap, [], ◌∙◌, String, str_eq, eq_iff, Bool, ◌==◌, some, none, List, [], ◌∷◌,
  arith, find?,
}
use backend_golang_task.Prelude.Int.{ℤ}
use backend_golang_task.Errs.{Result, ok, err}
use backend_golang_task.Order.{Order, Item, new_order}
use backend_golang_task.Order.Total.{new_order-eq-ok}
use backend_golang_task.Ports.{PaymentGateway}
use backend_golang_task.Gorm.Models.{
  Tables, OrderModel, ProductModel, get, orders, products, duplicates,
}
use backend_golang_task.Gorm.Engine.{Gorm, IsGorm, Transacted}
use backend_golang_task.Gorm.Orders.{
  order_to_model, order_to_domain, create_order, find_by_idempotency_key,
}
use backend_golang_task.Gorm.Orders.Frame.{find_by_idempotency_key-tables}
use backend_golang_task.Gorm.Products.{find_product}
use backend_golang_task.Commands.Memory.{Handled}
use backend_golang_task.Commands.PlaceOrder.{
  PlaceOrderInput, PlaceOrderItem, Processed, reserving, process, reserved_with, price_lines,
  submit, submit_made, place_priced, place, answer_found, handle,
}

abbrev has_key : String → OrderModel → Bool
has_key key m = str_eq m.idempotency_key key

abbrev IsErr : {A : Type 0} → Result A → Type 0
IsErr (ok _) = ⊥
IsErr (err _) = Unit

-- The answer can only be this order, or an error.
abbrev AnswersOnly : Order → Result Order → Type 0
AnswersOnly o (ok o') = o' ≡ o
AnswersOnly o (err _) = Unit

-- After a lookup that answered, the answer is this order and nothing is published; after one that
-- failed, the answer is an error.
abbrev pub Replays : Order → Result Order → Handled → Type 0
Replays o (ok _) r = (r.answer ≡ ok o) × (r.published ≡ [])
Replays o (err _) r = IsErr r.answer

-- A row with the key stands in the way of another.
find-duplicate :
    (key : String) (ms : List OrderModel) (m : OrderModel)
    → find? (has_key key) ms ≡ some m
    → find? (λ r. str_eq key r.idempotency_key) ms ≢ none
find-duplicate key [] m h = λ e. cc
find-duplicate key (x ∷ ms) m h =
    ground
      (arith, eq_iff x.idempotency_key key, eq_iff key x.idempotency_key, find-duplicate key ms m)

module _ (g : Gorm) (laws : IsGorm g) where
  reserving-unused :
      (o : Order) (w : g.World) {a : Unit {0}} {o' : Order} {w' : g.World}
      → o.id ≡ 0
      → reserving g (o, w) ≡ (ok a, (o', w'))
      → find? (duplicates orders (order_to_model o)) (get orders (g.tables w)) ≡ none
  unfolding reserving create_order
  reserving-unused o w fresh h = ground (arith, laws.create_law orders (order_to_model o) w)

  find_product-tables : (id : ℕ) (w : g.World) → g.tables (find_product g id w).1 ≡ g.tables w
  unfolding find_product
  find_product-tables id w =
      ground (arith, laws.first_law products (λ (m : ProductModel). m.id == id) w)

  price_lines-tables :
      (lines : List PlaceOrderItem) (w : g.World) → g.tables (price_lines g lines w).1 ≡ g.tables w
  unfolding price_lines
  price_lines-tables [] w = refl
  price_lines-tables (line ∷ lines) w = grind (arith, find_product-tables, price_lines-tables lines)

  find_by_idempotency_key-AnswersOnly :
      (key : String) (m : OrderModel) (o : Order) (w : g.World)
      → find? (has_key key) (get orders (g.tables w)) ≡ some m
      → order_to_domain m ≡ ok o
      → AnswersOnly o (find_by_idempotency_key g key w).0
  unfolding find_by_idempotency_key
  find_by_idempotency_key-AnswersOnly key m o w row reads =
      ground (arith, laws.first_law orders (has_key key) w)

module _ (g : Gorm) (gw : PaymentGateway) (max_attempts : ℤ) (now : ℕ) where
  -- Nothing has been charged or stored, and there is an error.
  abbrev Spared : Tables → gw.State → Processed × g.World × gw.State → Type 0
  Spared d s (r, w', s') = (s' ≡ s) × (g.tables w' ≡ d) × IsErr r.outcome

  abbrev Refuses : Tables → gw.State → Handled × g.World × gw.State → Type 0
  Refuses d s (r, w', s') = (s' ≡ s) × (g.tables w' ≡ d) × IsErr r.answer

  module _ (laws : IsGorm g) where
    reserved_with-Spared :
        (ord : Order) (d : Tables) (s : gw.State) (t : Result (Unit {0}) × (Order × g.World))
        → ord.id ≡ 0
        → find? (duplicates orders (order_to_model ord)) (get orders d) ≢ none
        → Transacted g (reserving g) ord d t
        → Spared d s (reserved_with g gw max_attempts now t s)
    reserved_with-Spared ord d s (err e, (o, w)) fresh used same = (refl, same, tt)
    reserved_with-Spared ord d s (ok _, (o, w)) fresh used (begun, done, at, ran, kept) =
        absurd (used (rw (← at) (reserving-unused g laws ord begun fresh ran)))

    submit-Refuses :
        (accepts : Bool) (ord : Order) (w : g.World) (s : gw.State)
        → ord.id ≡ 0
        → find? (duplicates orders (order_to_model ord)) (get orders (g.tables w)) ≢ none
        → Refuses (g.tables w) s (submit g gw max_attempts now accepts ord (w, s))
    unfolding submit process
    submit-Refuses accepts ord w s fresh used =
        let spared =
          reserved_with-Spared ord (g.tables w) s (g.transaction (reserving g) (ord, w)) fresh used
            (laws.transaction_law (reserving g) ord w) in
        ground (arith, spared)

    submit_made-Refuses :
        (accepts : Bool) (inp : PlaceOrderInput) (items : List Item) (m : OrderModel) (w : g.World)
        (s : gw.State) (made : Result Order)
        → new_order inp.user_id items inp.idempotency_key now ≡ made
        → find? (has_key inp.idempotency_key) (get orders (g.tables w)) ≡ some m
        → Refuses (g.tables w) s (submit_made g gw max_attempts now accepts made (w, s))
    submit_made-Refuses accepts inp items m w s (err e) h found = (refl, refl, tt)
    submit_made-Refuses accepts inp items m w s (ok ord) h found =
        let (_, _, total, _, made) = new_order-eq-ok inp.user_id items inp.idempotency_key now h in
        submit-Refuses accepts ord w s (rw made)
          (rw made (find-duplicate inp.idempotency_key (get orders (g.tables w)) m found))

    place_priced-Refuses :
        (accepts : Bool) (inp : PlaceOrderInput) (m : OrderModel) (w : g.World) (s : gw.State)
        (priced : Result (List Item))
        → find? (has_key inp.idempotency_key) (get orders (g.tables w)) ≡ some m
        → Refuses (g.tables w) s (place_priced g gw max_attempts now accepts inp priced (w, s))
    place_priced-Refuses accepts inp m w s (err e) found = (refl, refl, tt)
    place_priced-Refuses accepts inp m w s (ok items) found =
        submit_made-Refuses accepts inp items m w s _ refl found

    place-Refuses :
        (accepts : Bool) (inp : PlaceOrderInput) (m : OrderModel) (w : g.World) (s : gw.State)
        → find? (has_key inp.idempotency_key) (get orders (g.tables w)) ≡ some m
        → Refuses (g.tables w) s (place g gw max_attempts now accepts inp (w, s))
    unfolding place
    place-Refuses accepts inp m w s found =
        let (priced, w') = price_lines g inp.items w in
        let same = price_lines-tables g laws inp.items w in
        rw (← same) (place_priced-Refuses accepts inp m w' s priced (rw same found))

    answer_found-Replays :
        (accepts : Bool) (inp : PlaceOrderInput) (m : OrderModel) (o : Order) (w : g.World)
        (s : gw.State) (found : Result Order)
        → find? (has_key inp.idempotency_key) (get orders (g.tables w)) ≡ some m
        → AnswersOnly o found
        → let (r, w', s') = answer_found g gw max_attempts now accepts inp found (w, s) in
          (s' ≡ s) × (g.tables w' ≡ g.tables w) × Replays o found r
    answer_found-Replays accepts inp m o w s (ok o') row only = (refl, refl, (ap ok only, refl))
    answer_found-Replays accepts inp m o w s (err e) row only =
        ground (arith, place-Refuses accepts inp m w s row)

    -- A request under the key of an order that is stored never charges, stores or changes anything,
    -- also when the lookup of that order fails. The answer is that order, and nothing is published;
    -- or, after a lookup that failed, an error.
    pub handle-Replays :
        (accepts : Bool) (inp : PlaceOrderInput) (m : OrderModel) (o : Order) (w : g.World)
        (s : gw.State)
        → find? (has_key inp.idempotency_key) (get orders (g.tables w)) ≡ some m
        → order_to_domain m ≡ ok o
        → let (r, w', s') = handle g gw max_attempts now accepts inp (w, s) in
          (s' ≡ s)
          × (g.tables w' ≡ g.tables w)
          × Replays o (find_by_idempotency_key g inp.idempotency_key w).0 r
    unfolding handle
    handle-Replays accepts inp m o w s row reads =
        let (found, w') = find_by_idempotency_key g inp.idempotency_key w in
        let same = find_by_idempotency_key-tables g laws inp.idempotency_key w in
        let replayed =
          answer_found-Replays accepts inp m o w' s found (rw same row)
            (find_by_idempotency_key-AnswersOnly g laws inp.idempotency_key m o w row reads) in
        (replayed.0, replayed.1 ∙ same, replayed.2)
