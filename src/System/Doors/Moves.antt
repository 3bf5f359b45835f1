-- ===== src/System/Doors/Moves.antt =====
-- The step that every door shares, and the money rule of each door's move.
-- What is known once a move has gone through.
use cafe_pos.Orders.Transition.Guard.{transition_ok, move_order-Moved}
use cafe_pos.Orders.State.Lifecycle.{
  has_taken_money, has_taken_money-legal, staff_transition_is_fulfilment,
}
use cafe_pos.Tx.Ensures.{Ensures, Ensures-ok}
use cafe_pos.Schema.Store.{status_in}
use cafe_pos.System.Orders.{MoneyStays}
use cafe_pos.System.Step.{Step, move-Step}
use cafe_pos.Orders.Cancel.{cancellable}
use cafe_pos.Prelude.{◌≡◌, true, some, false, arith}
use cafe_pos.System.Invariant.{Inv}
use cafe_pos.Schema.Rows.{Order}
use cafe_pos.Orders.State.{is_staff_transition}
use cafe_pos.Tx.{Session}
use cafe_pos.Schema.Enums.{OrderStatus, order_status_eq, includes_order_status}
use cafe_pos.Orders.Transition.{TransitionRequest, transition_order}

pub record AfterMove (rq : TransitionRequest) (s : Session) (o : Order) (t : Session) : Type 0 where
  pub step : Step s.db t.db
  pub was : status_in rq.order_id s.db.orders ≡ some rq.from
  pub is : status_in rq.order_id t.db.orders ≡ some rq.to
  pub same_payments : t.db.payments ≡ s.db.payments
  pub same_id : o.id ≡ rq.order_id

pub transition-Ensures :
    (rq : TransitionRequest) (s : Session)
    → Inv s.db
    → MoneyStays rq
    → Ensures (AfterMove rq s) (transition_order rq s)
transition-Ensures rq s h stays = Ensures-ok (AfterMove rq s) (transition_order rq s) λ o t e.
    let (was, after, same_id) = transition_ok rq s t o h.unique_orders e in
    record {
      step = rw after (move-Step rq s.db was stays h);
      was = was;
      is = rw after (move_order-Moved rq s.db was).is;
      same_payments = rw after;
      same_id = same_id;
    }

pub staff_transition-money :
    (from to : OrderStatus)
    → is_staff_transition from to ≡ true
    → has_taken_money from ≡ true
    → has_taken_money to ≡ true
staff_transition-money from to h =
    has_taken_money-legal from to (staff_transition_is_fulfilment from to h).0

pub cancellable-unpaid :
    (s : OrderStatus) → includes_order_status cancellable s ≡ true → has_taken_money s ≡ false
unfolding order_status_eq
cancellable-unpaid s h = ground arith
