-- ===== src/Order/Lifecycle.antt =====
-- The order's state machine: what the methods of internal/domain/order/order.go allow, over any
-- sequence of calls.
use backend_golang_task.Prelude.{String, Bool, true, false, ◌≡◌, refl, ◌∙◌, List, [], ◌∷◌, arith}
use backend_golang_task.Errs.{Result, ok, err}
use backend_golang_task.Shared.Event.{Event}
use backend_golang_task.Order.{
  Status, pending, reserved, paid, fulfilled, cancelled, failed, other, Order, is_terminal,
  can_cancel, mark_reserved, mark_paid, mark_fulfilled, cancel, fail,
}

-- The calls that a client can make on an order.
pub data Call : Type 0 where
  reserves pays fulfils : Call
  cancels fails : String → Call

unfoldable pub call : Call → Order → Result Order
unfolding mark_reserved mark_paid mark_fulfilled cancel fail
call reserves o = mark_reserved o
call pays o = mark_paid o
call fulfils o = mark_fulfilled o
call (cancels reason) o = cancel reason o
call (fails reason) o = fail reason o

abbrev pub target : Call → Status
target reserves = reserved
target pays = paid
target fulfils = fulfilled
target (cancels _) = cancelled
target (fails _) = failed

-- The edges of docs/diagrams/03-order-state.mmd.
pub data Drawn : Status → Status → Type 0 where
  reserve_edge : Drawn pending reserved
  pay_edge : Drawn reserved paid
  fulfil_edge : Drawn paid fulfilled
  cancel_pending : Drawn pending cancelled
  cancel_reserved : Drawn reserved cancelled
  cancel_paid : Drawn paid cancelled
  fail_pending : Drawn pending failed
  fail_reserved : Drawn reserved failed

-- Those edges, and two that the diagram lacks: a paid order, and one of an unknown status, may fail.
pub data Edge : Status → Status → Type 0 where
  drawn : {s t : Status} → Drawn s t → Edge s t
  fail_paid : Edge paid failed
  fail_other : (text : String) → Edge (other text) failed

call-target : (c : Call) (o : Order) {o' : Order} → call c o ≡ ok o' → o'.status ≡ target c
unfolding call
call-target reserves o h = ground arith
call-target pays o h = ground arith
call-target fulfils o h = ground arith
call-target (cancels reason) o h = ground arith
call-target (fails reason) o h = ground arith

succeeds : Call → Status → Bool
succeeds reserves pending = true
succeeds reserves _ = false
succeeds pays reserved = true
succeeds pays _ = false
succeeds fulfils paid = true
succeeds fulfils _ = false
succeeds (cancels _) s = can_cancel s
succeeds (fails _) pending = true
succeeds (fails _) reserved = true
succeeds (fails _) paid = true
succeeds (fails _) (other _) = true
succeeds (fails _) _ = false

ok-succeeds : (c : Call) (o : Order) {o' : Order} → call c o ≡ ok o' → succeeds c o.status ≡ true
unfolding call succeeds
ok-succeeds reserves o h = ground arith
ok-succeeds pays o h = ground arith
ok-succeeds fulfils o h = ground arith
ok-succeeds (cancels reason) o h = ground arith
ok-succeeds (fails reason) o h = ground arith

succeeds-Edge : (c : Call) (s : Status) → succeeds c s ≡ true → Edge s (target c)
unfolding succeeds
succeeds-Edge reserves pending h = drawn reserve_edge
succeeds-Edge reserves _ h = cc
succeeds-Edge pays reserved h = drawn pay_edge
succeeds-Edge pays _ h = cc
succeeds-Edge fulfils paid h = drawn fulfil_edge
succeeds-Edge fulfils _ h = cc
succeeds-Edge (cancels reason) pending h = drawn cancel_pending
succeeds-Edge (cancels reason) reserved h = drawn cancel_reserved
succeeds-Edge (cancels reason) paid h = drawn cancel_paid
succeeds-Edge (cancels reason) _ h = cc
succeeds-Edge (fails reason) pending h = drawn fail_pending
succeeds-Edge (fails reason) reserved h = drawn fail_reserved
succeeds-Edge (fails reason) paid h = fail_paid
succeeds-Edge (fails reason) (other t) h = fail_other t
succeeds-Edge (fails reason) _ h = cc

-- A call that succeeds follows an edge of docs/diagrams/03-order-state.mmd, or fails a paid order or one
-- of an unknown status, and the order gets the status that the call is for.
pub call-Edge :
    (c : Call) (o : Order) {o' : Order}
    → call c o ≡ ok o'
    → Edge o.status (target c) × (o'.status ≡ target c)
call-Edge c o h = (succeeds-Edge c o.status (ok-succeeds c o h), call-target c o h)

-- The order after the call, whatever its outcome.
abbrev pub after : Order → Result Order → Order
after o (ok o') = o'
after o (err _) = o

unfoldable pub run : Order → List Call → Order
run o [] = o
run o (c ∷ cs) = run (after o (call c o)) cs

succeeds-ok :
    (c : Call) (o : Order) → succeeds c o.status ≡ true → call c o ≡ ok (after o (call c o))
unfolding call succeeds
succeeds-ok reserves o h = ground arith
succeeds-ok pays o h = ground arith
succeeds-ok fulfils o h = ground arith
succeeds-ok (cancels reason) o h = ground arith
succeeds-ok (fails reason) o h = ground arith

call_for : {s t : Status} → Edge s t → (c : Call) × (target c ≡ t) × (succeeds c s ≡ true)
unfolding succeeds
call_for (drawn reserve_edge) = (reserves, refl, refl)
call_for (drawn pay_edge) = (pays, refl, refl)
call_for (drawn fulfil_edge) = (fulfils, refl, refl)
call_for (drawn cancel_pending) = (cancels "", refl, refl)
call_for (drawn cancel_reserved) = (cancels "", refl, refl)
call_for (drawn cancel_paid) = (cancels "", refl, refl)
call_for (drawn fail_pending) = (fails "", refl, refl)
call_for (drawn fail_reserved) = (fails "", refl, refl)
call_for fail_paid = (fails "", refl, refl)
call_for (fail_other t) = (fails "", refl, refl)

-- Each edge that leaves an order's status, of the diagram or one of the two that it lacks, is followed by
-- some call: it succeeds, and the order gets the status at the edge's end.
pub Edge-call :
    (o : Order) {t : Status}
    → Edge o.status t
    → (c : Call) × (o' : Order) × (call c o ≡ ok o') × (o'.status ≡ t)
Edge-call o e =
    let (c, aimed, open_to) = call_for e in
    let made = succeeds-ok c o open_to in
    (c, after o (call c o), made, call-target c o made ∙ aimed)

is_terminal-call : (c : Call) (o : Order) → is_terminal o.status ≡ true → after o (call c o) ≡ o
unfolding call
is_terminal-call reserves o h = ground arith
is_terminal-call pays o h = ground arith
is_terminal-call fulfils o h = ground arith
is_terminal-call (cancels reason) o h = ground arith
is_terminal-call (fails reason) o h = ground arith

-- No sequence of calls changes anything of an order in a terminal status.
pub run-is_terminal : (o : Order) (cs : List Call) → is_terminal o.status ≡ true → run o cs ≡ o
unfolding run
run-is_terminal o [] h = refl
run-is_terminal o (c ∷ cs) h = rw (is_terminal-call c o h) (run-is_terminal o cs h)

-- What a transition leaves alone.
pub record Keeps (o o' : Order) : Type 0 where
  pub id : o'.id ≡ o.id
  pub user_id : o'.user_id ≡ o.user_id
  pub items : o'.items ≡ o.items
  pub total : o'.total ≡ o.total
  pub idempotency_key : o'.idempotency_key ≡ o.idempotency_key
  pub created_at : o'.created_at ≡ o.created_at

call-Keeps : (c : Call) (o : Order) → Keeps o (after o (call c o))
unfolding call
call-Keeps reserves o = ground arith
call-Keeps pays o = ground arith
call-Keeps fulfils o = ground arith
call-Keeps (cancels reason) o = ground arith
call-Keeps (fails reason) o = ground arith

Keeps-trans : {o p q : Order} → Keeps o p → Keeps p q → Keeps o q
Keeps-trans h k = ground arith

-- No sequence of calls changes an order's identity, owner, lines, total, key or date.
run-Keeps : (o : Order) (cs : List Call) → Keeps o (run o cs)
unfolding run
run-Keeps o [] = ground arith
run-Keeps o (c ∷ cs) = Keeps-trans (call-Keeps c o) (run-Keeps (after o (call c o)) cs)

abbrev pub recorded : Order → List Event
recorded o = o.root.pending
