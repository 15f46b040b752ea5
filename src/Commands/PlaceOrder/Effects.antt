-- ===== src/Commands/PlaceOrder/Effects.antt =====
-- What the two transactions of `process` (internal/application/command/place_order.go) leave of the
-- stock and of the payments.
use backend_golang_task.Prelude.{◌≡◌, refl, sym, ap, ◌∙◌, List}
use backend_golang_task.Errs.{ok, Failure, text}
use backend_golang_task.Order.{Order, Item, fail, mark_paid, mark_fulfilled, mark_reserved}
use backend_golang_task.Payment.{mark_failed, mark_succeeded}
use backend_golang_task.Ports.{ChargeResult}
use backend_golang_task.Gorm.Engine.{Gorm, IsGorm}
use backend_golang_task.Gorm.Inventories.{release, commit}
use backend_golang_task.Commands.PlaceOrder.{
  failing, succeeding, on_payment, on_order, reserve_line, reserving,
}
use backend_golang_task.Commands.PlaceOrder.Stock.{
  stock, each_line, reserved_line, released_line, committed_line, Does, Then, Keeps, Lines,
  sequence-Does, Does-ok, update-Does, for_items-Does, written-Does, release-Moves, commit-Moves,
  reserve_line-Moves,
}
use backend_golang_task.Commands.PlaceOrder.Steps.{
  Settles, Reserves, Vars, SameOrder, SamePayment, Unchanged, SameItems, on_payment-SameOrder,
  on_order-SamePayment, fail-SameItems, mark_paid-SameItems, mark_fulfilled-SameItems,
  mark_reserved-SameItems, Adds, create_payment-Adds, create_order-Keeps, Adds-Lines, Settles-later,
  Settles-earlier, still-SamePayment,
}

module _ (g : Gorm) (laws : IsGorm g) where
  abbrev Failing : (Vars g laws) × g.World → (Vars g laws) × g.World → Type 0
  Failing = Then (Keeps g laws (SameOrder g laws)) (
      Then (Adds g laws) (
        Then (Lines g laws released_line (λ (v : (Vars g laws)). v.0))
          (Then (Keeps g laws (SamePayment g laws)) (Keeps g laws (Unchanged g laws)))))

  failing-Does : (e : Failure) → Does Failing (failing g e)
  unfolding failing
  failing-Does e =
      sequence-Does
        (update-Does g laws (on_payment (mark_failed (text e))) (SameOrder g laws)
          ((on_payment-SameOrder g laws) (mark_failed (text e))))
        (sequence-Does (create_payment-Adds g laws) (
          sequence-Does
            (for_items-Does g laws (λ item. release g item.product_id item.quantity) released_line
              (λ v. v.0) (release-Moves g laws))
            (sequence-Does
              (update-Does g laws (on_order (fail "payment failed")) (SamePayment g laws) (
                (on_order-SamePayment g laws) (fail "payment failed")
                  ((fail-SameItems g laws) "payment failed")))
              (written-Does g laws (λ (v : (Vars g laws)). v.0)))))

  pub failing-Settles :
      (e : Failure) (s : (Vars g laws) × g.World) {a : Unit {0}} {s' : (Vars g laws) × g.World}
      → failing g e s ≡ (ok a, s')
      → Settles g released_line (g.tables s.1) s'
  failing-Settles e s {a} {s'} h =
      let (s₁, pays, (s₂, adds, (s₃, lines, (s₄, fails, writes)))) = Does-ok s (failing-Does e) h in
      (Settles-earlier g laws) released_line s s₁ s' pays (
        (Settles-later g laws) released_line s₁.1 s₄ s'
          ((Settles-later g laws) released_line s₁.1 s₃ s₄
            ((Adds-Lines g laws) released_line s₁ s₂ s₂ s₃ adds ((refl, refl), refl, refl) lines)
            fails)
          ((still-SamePayment g laws) s₄ s' writes))

  abbrev Succeeding : (Vars g laws) × g.World → (Vars g laws) × g.World → Type 0
  Succeeding = Then (Keeps g laws (SameOrder g laws)) (
      Then (Adds g laws) (
        Then (Keeps g laws (SamePayment g laws)) (
          Then (Lines g laws committed_line (λ (v : (Vars g laws)). v.0))
            (Then (Keeps g laws (SamePayment g laws)) (Keeps g laws (Unchanged g laws))))))

  succeeding-Does : (res : ChargeResult) → Does Succeeding (succeeding g res)
  unfolding succeeding
  succeeding-Does res =
      sequence-Does
        (update-Does g laws (on_payment (mark_succeeded res.provider_ref)) (SameOrder g laws)
          ((on_payment-SameOrder g laws) (mark_succeeded res.provider_ref)))
        (sequence-Does (create_payment-Adds g laws) (
          sequence-Does
            (update-Does g laws (on_order mark_paid) (SamePayment g laws)
              ((on_order-SamePayment g laws) mark_paid (mark_paid-SameItems g laws)))
            (sequence-Does
              (for_items-Does g laws (λ item. commit g item.product_id item.quantity) committed_line
                (λ v. v.0) (commit-Moves g laws))
              (sequence-Does
                (update-Does g laws (on_order mark_fulfilled) (SamePayment g laws)
                  ((on_order-SamePayment g laws) mark_fulfilled (mark_fulfilled-SameItems g laws)))
                (written-Does g laws (λ (v : (Vars g laws)). v.0))))))

  pub succeeding-Settles :
      (res : ChargeResult) (s : (Vars g laws) × g.World) {a : Unit {0}}
      {s' : (Vars g laws) × g.World}
      → succeeding g res s ≡ (ok a, s')
      → Settles g committed_line (g.tables s.1) s'
  succeeding-Settles res s {a} {s'} h =
      let (s₁, pays, (s₂, adds, (s₃, marks, (s₄, lines, (s₅, ends, writes))))) =
        Does-ok s (succeeding-Does res) h in
      (Settles-earlier g laws) committed_line s s₁ s' pays (
        (Settles-later g laws) committed_line s₁.1 s₅ s'
          ((Settles-later g laws) committed_line s₁.1 s₄ s₅
            ((Adds-Lines g laws) committed_line s₁ s₂ s₃ s₄ adds marks lines) ends)
          ((still-SamePayment g laws) s₅ s' writes))

  reserved-through :
      (s s₁ s₂ s₃ s' : Order × g.World)
      → Keeps g laws (SameItems g laws) s s₁
      → Lines g laws reserved_line (λ (o : Order). o) s₁ s₂
      → Keeps g laws (SameItems g laws) s₂ s₃
      → Keeps g laws (Unchanged g laws) s₃ s'
      → Reserves g (g.tables s.1) s'
  reserved-through (o, w) (o₁, w₁) (o₂, w₂) (o₃, w₃) (o', w') (items₁, stock₁, paid₁)
        (same₂, stock₂, paid₂) (items₃, stock₃, paid₃) (same₄, stock₄, paid₄) =
      (
        stock₄
            ∙ stock₃
            ∙ stock₂
            ∙ ap (each_line reserved_line o₁.items) stock₁
            ∙ ap (λ (is : List Item). each_line reserved_line is (stock g w))
                (sym
                  (ap (λ (o : Order). o.items) same₄ ∙ items₃ ∙ ap (λ (o : Order). o.items) same₂)),
        paid₄ ∙ paid₃ ∙ paid₂ ∙ paid₁,
      )

  abbrev Reserving : Order × g.World → Order × g.World → Type 0
  Reserving = Then (Keeps g laws (SameItems g laws)) (
      Then (Lines g laws reserved_line (λ (o : Order). o))
        (Then (Keeps g laws (SameItems g laws)) (Keeps g laws (Unchanged g laws))))

  reserving-Does : Does Reserving (reserving g)
  unfolding reserving
  reserving-Does = sequence-Does (create_order-Keeps g laws) (
      sequence-Does
        (for_items-Does g laws (reserve_line g) reserved_line (λ o. o) (reserve_line-Moves g laws))
        (sequence-Does
          (update-Does g laws mark_reserved (SameItems g laws) (mark_reserved-SameItems g laws))
          (written-Does g laws (λ (o : Order). o))))

  pub reserving-Reserves :
      (o : Order) (w : g.World) {a : Unit {0}} {s' : Order × g.World}
      → reserving g (o, w) ≡ (ok a, s')
      → Reserves g (g.tables w) s'
  reserving-Reserves o w {a} {s'} h =
      let (s₁, made, (s₂, lines, (s₃, marks, writes))) = Does-ok (o, w) reserving-Does h in
      reserved-through (o, w) s₁ s₂ s₃ s' made lines marks writes
