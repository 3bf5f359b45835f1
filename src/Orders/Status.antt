-- ===== src/Orders/Status.antt =====
-- src/orders/state/order-status.service.ts: `POST /orders/:id/status`, the KDS route.
pub mod Route
use cafe_pos.Prelude.{not, some, none, if◌then◌else◌, Option}
use cafe_pos.Schema.Enums.{OrderStatus, ready, ActorType, order_status_eq}
use cafe_pos.Schema.Rows.{Label, Order}
use cafe_pos.Schema.Store.{find_order}
use cafe_pos.Identity.Principal.{Principal, staff, device}
use cafe_pos.Tx.{
  Tx, ◌>>=◌, ◌>>◌, pure, throw_if, or_throw, query, emit, DomainEvent, order_ready, order_updated,
  resource_not_found, order, order_invalid_transition,
}
use cafe_pos.Orders.Summary.{OrderSummary, to_order_summary}
use cafe_pos.Orders.State.{is_staff_transition}
use cafe_pos.Orders.Transition.{TransitionActor, transition_order, TransitionRequest}

abbrev pub actor_of : Principal → TransitionActor
actor_of (device d) = record { actor_type = ActorType.device; actor_id = some d }
actor_of (staff u _ _) = record { actor_type = ActorType.user; actor_id = some u }

-- `READY` is announced apart from every other move.
abbrev pub status_event : OrderStatus → Label → Option Label → DomainEvent
status_event to order_id device_id =
    if order_status_eq to ready
    then order_ready order_id device_id
    else order_updated order_id device_id

abbrev pub status_request : Principal → Label → OrderStatus → OrderStatus → TransitionRequest
status_request principal order_id from to = record {
  order_id = order_id;
  from = from;
  to = to;
  actor = actor_of principal;
  reason = none;
}

unfoldable pub change_status : Principal → Label → OrderStatus → Tx OrderSummary
change_status principal order_id to = do
  current ← or_throw (← query (find_order order_id)) (resource_not_found order order_id)
  throw_if (not (is_staff_transition current.status to))
      (order_invalid_transition current.status to)
  updated ← transition_order (status_request principal order_id current.status to)
  emit (status_event to order_id updated.kiosk_device_id)
  pure (to_order_summary updated)
