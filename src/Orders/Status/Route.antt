-- ===== src/Orders/Status/Route.antt =====
-- What `POST /orders/:id/status` does with an order, on every branch.
use cafe_pos.Orders.Transition.{move_order}
use cafe_pos.Orders.Transition.Guard.{Moved, transition_accepts, move_order-Moved}
use cafe_pos.Orders.Summary.{OrderSummary, to_order_summary}
use cafe_pos.Orders.State.{is_staff_transition}
use cafe_pos.Schema.Enums.{OrderStatus}
use cafe_pos.Schema.Rows.{Label}
use cafe_pos.Identity.Principal.{Principal}
use cafe_pos.Prelude.{◌≡◌, refl, true, false, Option, some, [], ◌∷◌, ◌++◌, arith}
use cafe_pos.Schema.Store.{status_in}
use cafe_pos.Tx.{Session, ok, err, order_invalid_transition}
use cafe_pos.Orders.Status.{change_status, status_request, status_event}
use cafe_pos.Orders.Transition.Tables.{UniqueIds, status_in-find}

-- An order in status `current` is moved when the KDS table has the move: its status becomes `to`,
-- the audit trail names the principal, other orders stay where they are, and one event is
-- buffered. Otherwise the request is refused with the status that the order is in.
pub change_status_decides :
    (principal : Principal) (order_id : Label) (current to : OrderStatus) (s : Session)
    → UniqueIds s.db.orders
    → status_in order_id s.db.orders ≡ some current
    → (is_staff_transition current to ≡ true
        → (summary : OrderSummary) × (t : Session) × (device : Option Label) × (change_status
              principal order_id to s
            ≡ ok (summary, t))
          × (summary.status ≡ to)
          × Moved (status_request principal order_id current to) s.db t.db
          × (t.pending ≡ s.pending ++ (status_event to order_id device ∷ [])))
      × (is_staff_transition current to ≡ false
          → change_status principal order_id to s ≡ err (order_invalid_transition current to))
unfolding change_status
change_status_decides principal order_id current to s u h =
    let (row, found, st, _) = status_in-find order_id s.db.orders current h in
    let rq = status_request principal order_id current to in
    (
      λ staff.
          let (o, accepted, is_to) = transition_accepts rq s h in
          (
            to_order_summary o,
            record s {
              db = move_order rq s.db;
              pending = s.pending ++ (status_event to order_id o.kiosk_device_id ∷ []);
            },
            o.kiosk_device_id,
            ground arith,
            is_to,
            move_order-Moved rq s.db h,
            refl,
          ),
      λ other. ground arith,
    )
