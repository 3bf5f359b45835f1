-- ===== src/Orders/Checkout.antt =====
-- src/orders/checkout/checkout-order.service.ts: `POST /orders/:id/checkout`, a parked order joins
-- the queue.
use cafe_pos.Prelude.{ℕ, ◌+◌, ◌*◌, not, ◌&&◌, none, some, List, ◌==◌, any, update_where, Bool}
use cafe_pos.Schema.Enums.{OrderStatus, order_status_eq}
use cafe_pos.Schema.Rows.{Label, Order}
use cafe_pos.Schema.Store.{find_order, Db}
use cafe_pos.Schema.Constraints.{numbers_clash}
use cafe_pos.Identity.Principal.{Principal}
use cafe_pos.Tx.{
  Tx, ◌>>=◌, ◌>>◌, pure, throw_if, or_throw, query, ok, resource_not_found, order,
  order_invalid_transition, internal, execute,
}
use cafe_pos.Orders.Transition.{TransitionRequest, transition_order}
use cafe_pos.Orders.Summary.{OrderSummary, to_order_summary}
use cafe_pos.Orders.Status.{actor_of}
use cafe_pos.Orders.Number.{next_order_number}

-- `nextOrderNumber(tx, day)`.
abbrev pub claim_number : Label → Tx (List ℕ)
claim_number day s =
    let (number, db') = next_order_number day s.db in ok (number, record s { db = db' })

abbrev pub with_queue : List ℕ → ℕ → Order → Order
with_queue number expires_at o = record o {
  order_number = some number;
  expires_at = some expires_at;
}

-- The update of the queue number and the payment window: it fails if another order of the day has
-- the number, and what it returns is missing if the order is.
abbrev pub clashes_in_queue : Label → Order → Db → Bool
clashes_in_queue order_id queued db =
    any (λ x. not (x.id == order_id) && numbers_clash x queued) db.orders

unfoldable pub set_queue : Label → List ℕ → ℕ → Tx Order
set_queue order_id number expires_at = do
  o ← or_throw (← query (find_order order_id)) internal
  throw_if (← query (clashes_in_queue order_id (with_queue number expires_at o))) internal
  execute (λ db. record db {
    orders = update_where (λ x. x.id == order_id) (with_queue number expires_at) db.orders;
  })
  pure (with_queue number expires_at o)

abbrev pub checkout_request : Principal → Label → TransitionRequest
checkout_request principal order_id = record {
  order_id = order_id;
  from = OrderStatus.draft;
  to = OrderStatus.pending_payment;
  actor = actor_of principal;
  reason = none;
}

-- `now` is in milliseconds.
unfoldable pub checkout : ℕ → ℕ → Principal → Label → Tx OrderSummary
checkout now order_expiry_seconds principal order_id = do
  current ← or_throw (← query (find_order order_id)) (resource_not_found order order_id)
  throw_if (not (order_status_eq current.status OrderStatus.draft))
      (order_invalid_transition current.status OrderStatus.pending_payment)
  updated ← transition_order (checkout_request principal order_id)
  number ← claim_number current.business_day
  queued ← set_queue updated.id number (now + order_expiry_seconds * 1000)
  pure (to_order_summary queued)
